-- ===== src/Base/Maps.antt =====
-- Hash maps and tables as association lists with the key that was written last in front.
use Prim.Native.Nat.{ℕ}
use mathlib.Core.Path.{◌≡◌, refl}
use mathlib.Core.List.{List, [], ◌∷◌, map}
use mathlib.Core.Option.{Option, none, some}
use native.Mathlib.Omega.{arith}
use tysel.Base.Tests.{◌==◌, if◌then◌else◌}
use tysel.Base.Lists.{count}

module _ {ℓ} {V : Type ℓ} where
  unfoldable pub lookup : ℕ → List (ℕ × V) → Option V
  lookup k [] = none
  lookup k ((j, v) ∷ m) = if j == k then some v else lookup k m

  unfoldable pub remove : ℕ → List (ℕ × V) → List (ℕ × V)
  remove k [] = []
  remove k ((j, v) ∷ m) = let rest = remove k m in if j == k then rest else (j, v) ∷ rest

  unfoldable pub insert : ℕ → V → List (ℕ × V) → List (ℕ × V)
  insert k v m = (k, v) ∷ remove k m

  abbrev pub keys : List (ℕ × V) → List ℕ
  keys = map (λ e. e.0)

  pub lookup-remove :
      (j k : ℕ) (m : List (ℕ × V)) → lookup j (remove k m) ≡ (if k == j then none else lookup j m)
  unfolding lookup remove
  lookup-remove j k [] = ground arith
  lookup-remove j k ((i, v) ∷ m) = ground (arith, lookup-remove j k m)

  pub lookup-insert :
      (j k : ℕ) (v : V) (m : List (ℕ × V))
      → lookup j (insert k v m) ≡ (if k == j then some v else lookup j m)
  unfolding lookup insert
  lookup-insert j k v m = ground (arith, lookup-remove j k m)

  pub count-keys-remove :
      (j k : ℕ) (m : List (ℕ × V))
      → count j (keys (remove k m)) ≡ (if k == j then 0 else count j (keys m))
  unfolding remove
  count-keys-remove j k [] = ground arith
  count-keys-remove j k ((i, v) ∷ m) = ground (arith, count-keys-remove j k m)

  pub count-keys-insert :
      (j k : ℕ) (v : V) (m : List (ℕ × V))
      → count j (keys (insert k v m)) ≡ (if k == j then 1 else count j (keys m))
  unfolding insert
  count-keys-insert j k v m = ground (arith, count-keys-remove j k m)

  pub lookup-insert_self : (k : ℕ) (v : V) (m : List (ℕ × V)) → lookup k (insert k v m) ≡ some v
  unfolding lookup insert
  lookup-insert_self k v m = ground arith

  pub remove_absent : (k : ℕ) (m : List (ℕ × V)) → lookup k m ≡ none → remove k m ≡ m
  unfolding lookup remove
  remove_absent k [] h = refl
  remove_absent k ((i, v) ∷ m) h = ground (arith, remove_absent k m)

  pub lookup-keys : (k : ℕ) (m : List (ℕ × V)) → count k (keys m) ≡ 0 → lookup k m ≡ none
  unfolding lookup
  lookup-keys k [] h = refl
  lookup-keys k ((i, v) ∷ m) h = ground (arith, lookup-keys k m)
