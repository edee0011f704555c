-- ===== src/Durable/Tx.antt =====
-- Methods of the store: an immediate transaction that commits its tables, or rolls back and fails.
use tysel.Base.{
  ℕ, ◌+◌, Text, Option, none, some, Bool, true, false, leb, if◌then◌else◌, Result, ok, err,
}
use tysel.Durable.{Tables, DurableError, integer_range, i64_max}

-- A failed transaction is rolled back when it is dropped, so an error carries no tables.
abbrev pub Tx : Type 0 → Type 0
Tx A = Tables → Result DurableError (A × Tables)

abbrev pub run_on {ℓ} :
    {A : Type 0} {B : Type ℓ}
    → Result DurableError (A × Tables)
    → (A → Tables → Result DurableError B)
    → Result DurableError B
run_on (ok (a, t)) f = f a t
run_on (err e) f = err e

infixl 5 ◌>>=◌ ◌>>◌
abbrev pub ◌>>=◌ : {A B : Type 0} → Tx A → (A → Tx B) → Tx B
◌>>=◌ m f t = run_on (m t) f

abbrev pub ◌>>◌ : {A B : Type 0} → Tx A → Tx B → Tx B
m >> k = m >>= λ _. k

abbrev pub return : {A : Type 0} → A → Tx A
return a t = ok (a, t)

abbrev pub fail : {A : Type 0} → DurableError → Tx A
fail e t = err e

-- `if test { return Err(e); }`
abbrev pub refuse_if : Bool → DurableError → Tx (Unit {0})
refuse_if true e t = err e
refuse_if false e t = ok (tt, t)

abbrev pub ok_or : {A : Type 0} → Option A → DurableError → Tx A
ok_or none e t = err e
ok_or (some a) e t = ok (a, t)

abbrev pub read : {A : Type 0} → (Tables → A) → Tx A
read f t = ok (f t, t)

abbrev pub write : (Tables → Tables) → Tx (Unit {0})
write f t = ok (tt, f t)

-- `to_sql_integer`
unfoldable pub to_sql_integer : ℕ → Text → Tx ℕ
to_sql_integer value field t =
    if leb value i64_max then ok (value, t) else err (integer_range field)

-- `checked_add` on `i64`; on `usize` the bound is larger, and the sums that use it stay below both.
unfoldable pub checked_add : ℕ → ℕ → Option ℕ
checked_add a b = if leb (a + b) i64_max then some (a + b) else none
