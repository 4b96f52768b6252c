-- ===== src/Base/Eq.antt =====
-- Go's `==` on the types that the program compares, as an instance.
use mathlib.Core.Path.{◌≡◌, refl}
use mathlib.Core.Logic.{◌↔◌}
use mathlib.Core.Bool.{Bool, true, false, ◌&&◌}
use mathlib.Core.List.{List, [], ◌∷◌}
use Prim.Native.Nat.{ℕ}
use native.Mathlib.Omega.{arith}
use buzzhive.Base.Tests.{◌==◌ as eqb, ==_iff}

infix 50 ◌==◌
-- Types with a Boolean test that decides equality.
pub record HasEq {ℓ} (K : Type ℓ) : Type ℓ where
  pub equal : K → K → Bool
  pub equal_iff : (k j : K) → (equal k j ≡ true) ↔ (k ≡ j)

abbrev pub ◌==◌ {ℓ} : {K : Type ℓ} ⦃h : HasEq K⦄ → K → K → Bool
◌==◌ ⦃h⦄ k j = h.equal k j

abbrev pub nat_beq : ℕ → ℕ → Bool
nat_beq a b = eqb a b

instance abbrev pub nat_eq : HasEq ℕ
nat_eq = record { equal = nat_beq; equal_iff = ==_iff }

unfoldable pub bytes_beq : List ℕ → List ℕ → Bool
bytes_beq [] [] = true
bytes_beq (x ∷ xs) (y ∷ ys) = nat_beq x y && bytes_beq xs ys
bytes_beq _ _ = false

pub bytes_beq_iff : (s t : List ℕ) → (bytes_beq s t ≡ true) ↔ (s ≡ t)
unfolding bytes_beq
bytes_beq_iff [] [] = (λ _. refl, λ _. refl)
bytes_beq_iff [] (y ∷ ys) = (λ h. cc, λ h. cc)
bytes_beq_iff (x ∷ xs) [] = (λ h. cc, λ h. cc)
bytes_beq_iff (x ∷ xs) (y ∷ ys) =
    (λ h. ground (arith, bytes_beq_iff xs ys), λ h. ground (arith, bytes_beq_iff xs ys))

instance abbrev pub text_eq : HasEq (List ℕ)
text_eq = record { equal = bytes_beq; equal_iff = bytes_beq_iff }
