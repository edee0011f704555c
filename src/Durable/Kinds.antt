-- ===== src/Durable/Kinds.antt =====
-- The stored form of an event kind.
use tysel.Base.{◌≡◌, ◌↔◌, refl, sym, ap, ◌∙◌, Text, text_eq, text_eq_iff, some, arith, codes}
use tysel.Durable.{EventKind, as_str, parse, step, effect, sleep, signal, retry, now, random}

pub parse-as_str : (kind : EventKind) → parse (as_str kind) ≡ some kind
unfolding parse as_str text_eq
parse-as_str step = refl
parse-as_str effect = refl
parse-as_str sleep = refl
parse-as_str signal = refl
parse-as_str retry = refl
parse-as_str now = refl
parse-as_str random = refl

as_str-parse : (raw : Text) (kind : EventKind) → parse raw ≡ some kind → as_str kind ≡ raw
unfolding parse as_str
as_str-parse raw kind h = ground (
  arith,
  (text_eq_iff raw (codes "step")).0,
  (text_eq_iff raw (codes "effect")).0,
  (text_eq_iff raw (codes "sleep")).0,
  (text_eq_iff raw (codes "signal")).0,
  (text_eq_iff raw (codes "retry")).0,
  (text_eq_iff raw (codes "now")).0,
  (text_eq_iff raw (codes "random")).0,
)

-- The stored form of an event kind is read back as that kind, and no other text is read as it.
pub parse_iff : (raw : Text) (kind : EventKind) → (parse raw ≡ some kind) ↔ (raw ≡ as_str kind)
parse_iff raw kind = (λ h. sym (as_str-parse raw kind h), λ e. ap parse e ∙ parse-as_str kind)
