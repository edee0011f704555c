-- ===== src/Base/Results.antt =====
-- Fallible results, and methods that change a state and may fail after they have changed it.
use mathlib.Core.Path.{◌≡◌, refl, sym}
use mathlib.Core.Logic.{◌⊎◌, inl, inr}
use mathlib.Core.Option.{Option, none, some}

pub data Result {ℓ κ} (E : Type ℓ) (A : Type κ) : Type (ℓ ⊔ κ) where
  ok : A → Result E A
  err : E → Result E A

-- A method on `&mut self` that returns a `Result`: what was written before an error stays.
abbrev pub Method : Type 0 → Type 0 → Type 0 → Type 0
Method S E A = S → S × Result E A

abbrev pub then_on {ℓ} :
    {S E A : Type 0} {B : Type ℓ} → S × Result E A → (A → S → B) → (E → S → B) → B
then_on (s, ok a) f g = f a s
then_on (s, err e) f g = g e s

infixl 5 ◌>>=◌ ◌>>◌
abbrev pub ◌>>=◌ : {S E A B : Type 0} → Method S E A → (A → Method S E B) → Method S E B
◌>>=◌ m f s = then_on (m s) f (λ e s'. (s', err e))

abbrev pub ◌>>◌ : {S E A B : Type 0} → Method S E A → Method S E B → Method S E B
m >> k = m >>= λ _. k

abbrev pub return : {S E A : Type 0} → A → Method S E A
return a s = (s, ok a)

abbrev pub fail : {S E A : Type 0} → E → Method S E A
fail e s = (s, err e)

abbrev pub get : {S E : Type 0} → Method S E S
get s = (s, ok s)

abbrev pub put : {S E : Type 0} → S → Method S E (Unit {0})
put t s = (t, ok tt)

-- `?` on a plain result.
abbrev pub lift : {S E A : Type 0} → Result E A → Method S E A
lift (ok a) s = (s, ok a)
lift (err e) s = (s, err e)

-- `ok_or(e)?`
abbrev pub ok_or : {S E A : Type 0} → Option A → E → Method S E A
ok_or none e s = (s, err e)
ok_or (some a) e s = (s, ok a)

pub Result-cases {ℓ κ} :
    {E : Type ℓ} {A : Type κ} (r : Result E A) → ((a : A) × (r ≡ ok a)) ⊎ ((e : E) × (r ≡ err e))
Result-cases (ok a) = inl (a, refl)
Result-cases (err e) = inr (e, refl)

-- A chain that succeeds passed through its first part, here one that keeps the state.
pub then_on-ok {ℓ} :
    {S E A : Type 0} {B : Type ℓ} {b : B} (x : S × Result E A) (f : A → S → S × Result E B) (s : S)
    → x.0 ≡ s
    → (then_on x f (λ e t. (t, err e))).1 ≡ ok b
    → (a : A) × ((x ≡ (s, ok a)) × ((f a s).1 ≡ ok b))
then_on-ok (t, ok a) f s k h = (a, (rw k, rw (sym k) h))
then_on-ok (t, err e) f s k h = cc

pub lift-keeps : {S E A : Type 0} (r : Result E A) (s : S) → (lift r s).0 ≡ s
lift-keeps (ok a) s = refl
lift-keeps (err e) s = refl

pub ok_or-keeps : {S E A : Type 0} (o : Option A) (e : E) (s : S) → (ok_or o e s).0 ≡ s
ok_or-keeps none e s = refl
ok_or-keeps (some a) e s = refl

pub lift-ok : {S E A : Type 0} (r : Result E A) (s : S) (a : A) → lift r s ≡ (s, ok a) → r ≡ ok a
lift-ok (ok b) s a h = cc
lift-ok (err e) s a h = cc

pub ok_or-ok :
    {S E A : Type 0} (o : Option A) (e : E) (s : S) (a : A) → ok_or o e s ≡ (s, ok a) → o ≡ some a
ok_or-ok none e s a h = cc
ok_or-ok (some b) e s a h = cc

-- A chain that succeeds, with the state in between.
pub then_on-passes :
    {S E A B : Type 0} {b : B} {t : S} (x : S × Result E A) (f : A → S → S × Result E B)
    → then_on x f (λ e s. (s, err e)) ≡ (t, ok b)
    → (a : A) × ((s : S) × ((x ≡ (s, ok a)) × (f a s ≡ (t, ok b))))
then_on-passes (s, ok a) f h = (a, (s, (refl, h)))
then_on-passes (s, err e) f h = cc
