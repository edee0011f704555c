-- ===== src/Durable/Inbox.antt =====
-- The signal inbox as one queue for each task and name.
use tysel.Base.{
  ℕ, ◌+◌, ◌≤◌, ◌<◌, ◌≡◌, refl, Text, none, some, List, [], ◌∷◌, ◌++◌, Bool, true, false, not, leb,
  ltb, ◌==◌, if◌then◌else◌, ◌&&◌, retain, arith, inl, inr, Bool-cases, Option-cases,
}
use tysel.Durable.{SignalRow, Tables}
use tysel.Durable.Signals.{first_signal, is_for}

-- The abstract inbox: the payload and time of each signal of the task and name, oldest first.
abbrev pub waiting : ℕ → Text → List SignalRow → List (Text × ℕ)
waiting k n [] = []
waiting k n (s ∷ ss) =
    let rest = waiting k n ss in if is_for k n s then (s.payload, s.sent_at_ms) ∷ rest else rest

-- The identifiers rise from above `low`, and end at `high` at most.
abbrev pub ascending : ℕ → ℕ → List SignalRow → Bool
ascending low high [] = true
ascending low high (s ∷ ss) = ltb low s.id && leb s.id high && ascending s.id high ss

abbrev pub IsInbox : Tables → Type 0
IsInbox t = ascending 0 t.last_signal_id t.inbox ≡ true

pub waiting-append :
    (k : ℕ) (n : Text) (ss : List SignalRow) (s : SignalRow)
    → waiting k n (ss ++ s ∷ [])
      ≡ waiting k n ss ++ (if is_for k n s then (s.payload, s.sent_at_ms) ∷ [] else [])
waiting-append k n [] s = ground arith
waiting-append k n (x ∷ xs) s = ground (arith, waiting-append k n xs s)

ascending_wider :
    (low low' high : ℕ) (ss : List SignalRow)
    → low' ≤ low
    → ascending low high ss ≡ true
    → ascending low' high ss ≡ true
ascending_wider low low' high [] l h = refl
ascending_wider low low' high (s ∷ ss) l h = ground arith

pub ascending-append :
    (low high : ℕ) (ss : List SignalRow) (s : SignalRow)
    → ascending low high ss ≡ true
    → low ≤ high
    → s.id ≡ high + 1
    → ascending low (high + 1) (ss ++ s ∷ []) ≡ true
ascending-append low high [] s h l e = ground arith
ascending-append low high (x ∷ xs) s h l e = ground (arith, ascending-append x.id high xs s)

pub ascending-retain :
    (p : SignalRow → Bool) (low high : ℕ) (ss : List SignalRow)
    → ascending low high ss ≡ true
    → ascending low high (retain p ss) ≡ true
ascending-retain p low high [] h = refl
ascending-retain p low high (x ∷ xs) h =
    let kept = ascending-retain p x.id high xs (ground arith) in
    ground (arith, kept, ascending_wider x.id low high (retain p xs))

first_signal-above :
    (k : ℕ) (n : Text) (low high : ℕ) (ss : List SignalRow) (s : SignalRow)
    → ascending low high ss ≡ true
    → first_signal k n ss ≡ some s
    → low < s.id
unfolding first_signal
first_signal-above k n low high [] s h f = ground arith
first_signal-above k n low high (x ∷ xs) s h f = elim (Option-cases (first_signal k n xs)) [
  | inl absent ↦ ground arith
  | inr (r, there) ↦ ground (arith, first_signal-above k n x.id high xs r)
]

-- No signal from `low` on has an identifier up to `low`.
retain_absent :
    (id low high : ℕ) (ss : List SignalRow)
    → ascending low high ss ≡ true
    → id ≤ low
    → retain (λ s. not (s.id == id)) ss ≡ ss
retain_absent id low high [] h l = refl
retain_absent id low high (x ∷ xs) h l = ground (arith, retain_absent id x.id high xs)

pub first_signal-none :
    (k : ℕ) (n : Text) (ss : List SignalRow) → first_signal k n ss ≡ none → waiting k n ss ≡ []
unfolding first_signal
first_signal-none k n [] f = refl
first_signal-none k n (x ∷ xs) f = ground (arith, first_signal-none k n xs)

-- The signal that is chosen is the oldest of its queue, and dropping it takes just that one.
pub first_signal-oldest :
    (k : ℕ) (n : Text) (low high : ℕ) (ss : List SignalRow) (s : SignalRow)
    → ascending low high ss ≡ true
    → first_signal k n ss ≡ some s
    → (is_for k n s ≡ true)
      × (waiting k n ss
          ≡ (s.payload, s.sent_at_ms) ∷ waiting k n (retain (λ x. not (x.id == s.id)) ss))
      × ((j : ℕ) (m : Text)
          → is_for j m s ≡ false
          → waiting j m (retain (λ x. not (x.id == s.id)) ss) ≡ waiting j m ss)
unfolding first_signal
first_signal-oldest k n low high [] s h f = ground arith
first_signal-oldest k n low high (x ∷ xs) s h f = elim (Bool-cases (is_for k n x)) [
  | inl here ↦
      let e : s ≡ x = elim (Option-cases (first_signal k n xs)) [
        | inl absent ↦ ground arith
        | inr (r, there) ↦ ground (arith, first_signal-above k n x.id high xs r)
      ] in
      let gone = retain_absent s.id x.id high xs (ground arith) (ground (arith, e)) in
      (ground (arith, e), ground (arith, e, gone), λ j m o. ground (arith, e, gone))
  | inr not_here ↦
      let there : first_signal k n xs ≡ some s = ground arith in
      let (at, taken, others) = first_signal-oldest k n x.id high xs s (ground arith) there in
      let above = first_signal-above k n x.id high xs s (ground arith) there in
      (at, ground (arith, taken, above), λ j m o. ground (arith, others j m o, above))
]
