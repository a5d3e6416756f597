-- ===== src/Base/Keys.antt =====
-- The keys of a `std::map`: numbers, and texts as lists of bytes.
use Prim.Native.Nat.{ℕ}
use mathlib.Core.Path.{◌≡◌, refl}
use mathlib.Core.Logic.{◌↔◌}
use mathlib.Core.Bool.{Bool, true, false, ◌&&◌}
use mathlib.Core.List.{List, [], ◌∷◌}
use native.Mathlib.Omega.{arith}
use srf.Base.Tests.{ltb, ==_iff, ◌==◌ as nat_eq, if◌then◌else◌}

pub record Key (K : Type 0) : Type 0 where
  pub beq : K → K → Bool
  pub beq_iff : (a b : K) → (beq a b ≡ true) ↔ (a ≡ b)
  pub less : K → K → Bool

infix 50 ◌=?=◌
abbrev pub ◌=?=◌ : {K : Type 0} ⦃k : Key K⦄ → K → K → Bool
◌=?=◌ ⦃k⦄ = k.beq

instance abbrev pub nat_key : Key ℕ
nat_key = record { beq = nat_eq; beq_iff = ==_iff; less = ltb }

-- A `std::string`, as its bytes.
abbrev pub Text : Type 0
Text = List ℕ

abbrev pub text_beq : Text → Text → Bool
text_beq [] [] = true
text_beq [] (y ∷ ys) = false
text_beq (x ∷ xs) [] = false
text_beq (x ∷ xs) (y ∷ ys) = nat_eq x y && text_beq xs ys

pub text_beq_iff : (a b : Text) → (text_beq a b ≡ true) ↔ (a ≡ b)
text_beq_iff [] [] = ((λ h. refl), (λ h. refl))
text_beq_iff [] (y ∷ ys) = ((λ h. cc), (λ h. cc))
text_beq_iff (x ∷ xs) [] = ((λ h. cc), (λ h. cc))
text_beq_iff (x ∷ xs) (y ∷ ys) =
    ((λ h. ground (arith, text_beq_iff xs ys)), (λ h. ground (arith, text_beq_iff xs ys)))

abbrev pub text_less : Text → Text → Bool
text_less a [] = false
text_less [] (y ∷ ys) = true
text_less (x ∷ xs) (y ∷ ys) = let rest = text_less xs ys in if nat_eq x y then rest else ltb x y

instance abbrev pub text_key : Key Text
text_key = record { beq = text_beq; beq_iff = text_beq_iff; less = text_less }
