-- ===== src/Prelude/Equality.antt =====
-- Equality tests as an instance: on numbers and on lists (a Go string is the list of its bytes).
use Prim.Native.Nat.{ℕ}
use mathlib.Core.Path.{◌≡◌, refl}
use mathlib.Core.Logic.{◌↔◌}
use mathlib.Core.Bool.{Bool, true, false, ◌&&◌}
use mathlib.Core.List.{List, [], ◌∷◌}
use native.Mathlib.Omega.{arith}
use oma_seal.Prelude.Tests.{nat_beq, nat_beq_iff}

-- a test that decides equality
pub record Eq {ℓ} (T : Type ℓ) : Type ℓ where
  pub test : T → T → Bool
  pub test_iff : (s t : T) → (test s t ≡ true) ↔ (s ≡ t)

pub eq_iff {ℓ} : {T : Type ℓ} ⦃eq : Eq T⦄ (s t : T) → (eq.test s t ≡ true) ↔ (s ≡ t)
eq_iff ⦃eq⦄ = eq.test_iff

pub eq_refl {ℓ} : {T : Type ℓ} ⦃eq : Eq T⦄ (t : T) → eq.test t t ≡ true
eq_refl ⦃eq⦄ t = (eq.test_iff t t).1 refl

infix 50 ◌==◌
abbrev pub ◌==◌ {ℓ} : {T : Type ℓ} ⦃eq : Eq T⦄ → T → T → Bool
◌==◌ ⦃eq⦄ s t = eq.test s t

unfoldable pub bytes_beq : List ℕ → List ℕ → Bool
bytes_beq [] [] = true
bytes_beq [] (y ∷ ys) = false
bytes_beq (x ∷ xs) [] = false
bytes_beq (x ∷ xs) (y ∷ ys) = nat_beq x y && bytes_beq xs ys

pub bytes_beq_iff : (xs ys : List ℕ) → (bytes_beq xs ys ≡ true) ↔ (xs ≡ ys)
unfolding bytes_beq
bytes_beq_iff [] [] = (λ _. refl, λ _. refl)
bytes_beq_iff [] (y ∷ ys) = (λ e. cc, λ e. cc)
bytes_beq_iff (x ∷ xs) [] = (λ e. cc, λ e. cc)
bytes_beq_iff (x ∷ xs) (y ∷ ys) =
    (λ e. ground (arith, bytes_beq_iff xs ys), λ e. ground (arith, bytes_beq_iff xs ys))

instance abbrev pub bytes_eq : Eq (List ℕ)
bytes_eq = record { test = bytes_beq; test_iff = bytes_beq_iff }

instance abbrev pub nat_eq : Eq ℕ
nat_eq = record { test = nat_beq; test_iff = nat_beq_iff }
