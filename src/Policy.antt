-- ===== src/Policy.antt =====
-- crates/tysel-policy/src/lib.rs: the permissions of an execution profile
-- (`TrustMode` stands in crates/tysel-capability/src/lib.rs).
use tysel.Base.{
  ℕ, ◌+◌, leb, if◌then◌else◌, Text, codes, text_eq, map, Bool, true, false, ◌&&◌, Result,
  Bool-cases, inl, inr, ◌⊎◌, ◌≢◌, text_eq_iff, ok, err, ◌≡◌, refl, arith,
}

pub data TrustMode : Type 0 where
  trusted_service isolated_task : TrustMode

pub data Cap : Type 0 where
  sleep echo secret_ref read_body fetch sqlite web_socket postgres redis fs llm : Cap

pub record Policy : Type 0 where
  pub mode : TrustMode

abbrev pub trusted : Policy
trusted = record { mode = trusted_service }

abbrev pub isolated : Policy
isolated = record { mode = isolated_task }

-- `to_ascii_lowercase` of a byte.
abbrev pub to_lower : ℕ → ℕ
to_lower c = if leb 65 c && leb c 90 then c + 32 else c

abbrev pub eq_ignore_ascii_case : Text → Text → Bool
eq_ignore_ascii_case s t = text_eq (map to_lower s) (map to_lower t)

unfoldable pub from_profile : Text → Policy
from_profile profile = if eq_ignore_ascii_case profile (codes "isolated") then isolated else trusted

-- The capabilities that `matches!` lists for an isolated task.
abbrev pub isolated_allows : Cap → Bool
isolated_allows sleep = true
isolated_allows echo = true
isolated_allows secret_ref = true
isolated_allows read_body = true
isolated_allows _ = false

-- The capabilities that `matches!` lists for a service.
abbrev pub service_allows : Cap → Bool
service_allows sleep = true
service_allows echo = true
service_allows secret_ref = true
service_allows read_body = true
service_allows fetch = true
service_allows sqlite = true
service_allows web_socket = true
service_allows postgres = true
service_allows redis = true
service_allows fs = true
service_allows llm = true

abbrev pub app_allows : TrustMode → Cap → Bool
app_allows isolated_task cap = isolated_allows cap
app_allows trusted_service cap = service_allows cap

abbrev pub build_allows : Cap → Bool
build_allows cap = true

abbrev pub deployment_allows : Cap → Bool
deployment_allows cap = true

abbrev pub os_allows : Cap → Bool
os_allows cap = true

unfoldable pub allows : Policy → Cap → Bool
allows policy cap =
    build_allows cap && (app_allows policy.mode cap && (deployment_allows cap && os_allows cap))

abbrev pub deny_message : TrustMode → Text
deny_message isolated_task = codes "capability is not available in the isolated profile"
deny_message trusted_service = codes "capability is not available"

unfoldable pub require : Policy → Cap → Result Text (Unit {0})
require policy cap = if allows policy cap then ok tt else err (deny_message policy.mode)

-- The capabilities that touch nothing outside the task.
abbrev pub IsBasic : Cap → Type 0
IsBasic cap = (cap ≡ sleep) ⊎ (cap ≡ echo) ⊎ (cap ≡ secret_ref) ⊎ (cap ≡ read_body)

isolated-IsBasic :
    (cap : Cap)
    → ((require isolated cap ≡ ok tt) × IsBasic cap)
      ⊎ ((require isolated cap ≡ err (codes "capability is not available in the isolated profile"))
          × ¬ (IsBasic cap))
unfolding require allows
isolated-IsBasic sleep = inl (refl, inl refl)
isolated-IsBasic echo = inl (refl, inr (inl refl))
isolated-IsBasic secret_ref = inl (refl, inr (inr (inl refl)))
isolated-IsBasic read_body = inl (refl, inr (inr (inr refl)))
isolated-IsBasic fetch = inr (refl, ground arith)
isolated-IsBasic sqlite = inr (refl, ground arith)
isolated-IsBasic web_socket = inr (refl, ground arith)
isolated-IsBasic postgres = inr (refl, ground arith)
isolated-IsBasic redis = inr (refl, ground arith)
isolated-IsBasic fs = inr (refl, ground arith)
isolated-IsBasic llm = inr (refl, ground arith)

trusted_all : (cap : Cap) → require trusted cap ≡ ok tt
unfolding require allows
trusted_all sleep = refl
trusted_all echo = refl
trusted_all secret_ref = refl
trusted_all read_body = refl
trusted_all fetch = refl
trusted_all sqlite = refl
trusted_all web_socket = refl
trusted_all postgres = refl
trusted_all redis = refl
trusted_all fs = refl
trusted_all llm = refl

-- A profile whose name is "isolated", in upper or lower case, is granted sleeping, echoing, secret
-- references and reading the body, and is refused every other capability with the message of
-- the isolated profile. A profile of any other name is granted every capability.
pub require-from_profile :
    (profile : Text) (cap : Cap)
    → ((map to_lower profile ≢ codes "isolated") × (require (from_profile profile) cap ≡ ok tt))
      ⊎ ((map to_lower profile ≡ codes "isolated")
          × (((require (from_profile profile) cap ≡ ok tt) × IsBasic cap)
              ⊎ ((require (from_profile profile) cap
                    ≡ err (codes "capability is not available in the isolated profile"))
                  × ¬ (IsBasic cap))))
unfolding from_profile
require-from_profile profile cap =
    let spelled = text_eq_iff (map to_lower profile) (codes "isolated") in
    elim (Bool-cases (eq_ignore_ascii_case profile (codes "isolated"))) [
      | inl same ↦ inr (spelled.0 same, rw same (isolated-IsBasic cap))
      | inr other ↦ inl (λ e. cc (spelled.1 e, other), rw other (trusted_all cap))
    ]
