-- ===== src/Prelude/Assoc.antt =====
-- Go maps as association lists. The order of the entries stands for Go's unspecified iteration order.
use mathlib.Core.Path.{◌≡◌, refl, ap}
use mathlib.Core.Bool.{Bool, false}
use mathlib.Core.Option.{Option, none, some}
use mathlib.Core.List.{List, [], ◌∷◌}
use native.Mathlib.Omega.{arith}
use oma_seal.Prelude.Tests.{if◌then◌else◌}
use oma_seal.Prelude.Equality.{Eq, ◌==◌, eq_iff}

abbrev pub Map {ℓ κ} : Type ℓ → Type κ → Type (ℓ ⊔ κ)
Map K V = List (K × V)

module _ {ℓ κ} {K : Type ℓ} {V : Type κ} ⦃e : Eq K⦄ where
  -- m[k], with the second result `ok`
  unfoldable pub lookup : K → Map K V → Option V
  lookup k [] = none
  lookup k ((j, v) ∷ m) = if j == k then some v else lookup k m

  -- delete(m, k)
  unfoldable pub remove : K → Map K V → Map K V
  remove k [] = []
  remove k ((j, v) ∷ m) = let rest = remove k m in if j == k then rest else (j, v) ∷ rest

  -- m[k] = v
  unfoldable pub insert : K → V → Map K V → Map K V
  insert k v [] = (k, v) ∷ []
  insert k v ((j, w) ∷ m) = if j == k then (k, v) ∷ m else (j, w) ∷ insert k v m

  pub lookup-insert :
      (j k : K) (v : V) (m : Map K V)
      → lookup j (insert k v m) ≡ (if k == j then some v else lookup j m)
  unfolding lookup insert
  lookup-insert j k v [] = refl
  lookup-insert j k v ((i, w) ∷ rest) =
      ground (arith, eq_iff i j, eq_iff k j, eq_iff i k, lookup-insert j k v rest)

  pub lookup-remove :
      (j k : K) (m : Map K V) → lookup j (remove k m) ≡ (if k == j then none else lookup j m)
  unfolding lookup remove
  lookup-remove j k [] = ground arith
  lookup-remove j k ((i, w) ∷ m) =
      ground (arith, eq_iff k j, eq_iff i k, eq_iff i j, lookup-remove j k m)

  pub lookup-insert_other :
      (j k : K) (v : V) (m : Map K V) → (k == j) ≡ false → lookup j (insert k v m) ≡ lookup j m
  lookup-insert_other j k v m h =
      rw (lookup-insert j k v m) (ap (λ (b : Bool). if b then some v else lookup j m) h)

  pub lookup-remove_other :
      (j k : K) (m : Map K V) → (k == j) ≡ false → lookup j (remove k m) ≡ lookup j m
  lookup-remove_other j k m h =
      rw (lookup-remove j k m) (ap (λ (b : Bool). if b then none else lookup j m) h)
