-- ===== src/Base/Bits.antt =====
-- `|` of disjoint fields and `&` with a mask of low ones, as arithmetic.
use Prim.Native.Nat.{
  ℕ, zero, suc, ◌+◌, ◌-◌, ◌*◌, ◌/◌, ◌%◌, ◌^◌, ◌≤◌, ◌<◌, min, max, bit_and, bit_or, digits,
  bit_and-bitwise, bit_or-bitwise,
}
use mathlib.Core.Path.{◌≡◌, refl, ap, ◌≡⟨◌⟩◌, ◌∎}
use native.Mathlib.Nat.{
  pow-suc, one-le-pow, mul-add-mod_self_right, mod-eq_of_lt, mod-lt, div-add-mod',
}
use native.Mathlib.Omega.{arith}

-- The digit recursion does not depend on its fuel, once that reaches the first number.
digits_enough :
    (e : ℕ → ℕ) (g : ℕ → ℕ → ℕ) (n m a b : ℕ) → a ≤ n → a ≤ m → digits e g n a b ≡ digits e g m a b
digits_enough e g zero zero a b p q = refl
digits_enough e g zero (suc m) zero b p q = refl
digits_enough e g zero (suc m) (suc a) b p q = absurd (omega arith)
digits_enough e g (suc n) zero zero b p q = refl
digits_enough e g (suc n) zero (suc a) b p q = absurd (omega arith)
digits_enough e g (suc n) (suc m) zero b p q = refl
digits_enough e g (suc n) (suc m) (suc a) b p q =
    omega (arith, digits_enough e g n m (suc a / 2) (b / 2) (omega arith) (omega arith))

pub bit_or_low : (a b : ℕ) → bit_or a b ≡ bit_or (a / 2) (b / 2) * 2 + max (a % 2) (b % 2)
bit_or_low zero b = omega (arith, bit_or-bitwise 0 b, bit_or-bitwise 0 (b / 2))
bit_or_low (suc a) b = omega (
  arith,
  bit_or-bitwise (suc a) b,
  bit_or-bitwise (suc a / 2) (b / 2),
  digits_enough (λ b. b) max a (suc a / 2) (suc a / 2) (b / 2) (omega arith) (omega arith),
)

pub bit_and_low : (a b : ℕ) → bit_and a b ≡ bit_and (a / 2) (b / 2) * 2 + min (a % 2) (b % 2)
bit_and_low zero b = omega (arith, bit_and-bitwise 0 b, bit_and-bitwise 0 (b / 2))
bit_and_low (suc a) b = omega (
  arith,
  bit_and-bitwise (suc a) b,
  bit_and-bitwise (suc a / 2) (b / 2),
  digits_enough (λ b. 0) min a (suc a / 2) (suc a / 2) (b / 2) (omega arith) (omega arith),
)

bit_or_none : (n a : ℕ) → a ≤ n → bit_or a 0 ≡ a
bit_or_none n zero h = refl
bit_or_none zero (suc a) h = absurd (omega arith)
bit_or_none (suc n) (suc a) h =
    omega (arith, bit_or_low (suc a) 0, bit_or_none n (suc a / 2) (omega arith))

bit_and_none : (n a : ℕ) → a ≤ n → bit_and a 0 ≡ 0
bit_and_none n zero h = refl
bit_and_none zero (suc a) h = absurd (omega arith)
bit_and_none (suc n) (suc a) h =
    omega (arith, bit_and_low (suc a) 0, bit_and_none n (suc a / 2) (omega arith))

-- A remainder by an even number, from the half and the lowest digit.
mod_double : (p a : ℕ) → 0 < p → a % (p * 2) ≡ a / 2 % p * 2 + a % 2
mod_double p a h =
    a % (p * 2)
    ≡⟨ ap (λ t. t % (p * 2)) whole ⟩ (a / 2 / p * (p * 2) + low) % (p * 2)
    ≡⟨ mul-add-mod_self_right (a / 2 / p) (p * 2) low ⟩ low % (p * 2)
    ≡⟨ mod-eq_of_lt {n = low} {m = p * 2} (omega (arith, mod-lt (a / 2) {m = p} h)) ⟩ low ∎
  where
    low : ℕ
    low = a / 2 % p * 2 + a % 2

    whole : a ≡ a / 2 / p * (p * 2) + low
    whole = omega (arith, div-add-mod' (a / 2) p)

-- A field of k bits below a number that was shifted past it.
pub bit_or_shifted : (k q r : ℕ) → r < 2 ^ k → bit_or (q * 2 ^ k) r ≡ q * 2 ^ k + r
bit_or_shifted zero q zero h = omega (arith, bit_or_none (q * 1) (q * 1) (omega arith))
bit_or_shifted zero q (suc r) h = absurd (omega arith)
bit_or_shifted (suc k) q r h = rw twice (
    ground (
      arith,
      bit_or_low (q * 2 ^ k * 2) r,
      bit_or_shifted k q (r / 2) (omega (arith, pow-suc 2 k)),
    ))
  where
    twice : q * 2 ^ suc k ≡ q * 2 ^ k * 2
    twice = omega (arith, ap (λ (t : ℕ). q * t) (pow-suc 2 k))

-- A mask of k ones keeps the k low bits.
pub bit_and_mask : (k a : ℕ) → bit_and a (2 ^ k - 1) ≡ a % 2 ^ k
bit_and_mask zero a = omega (arith, bit_and_none a a (omega arith))
bit_and_mask (suc k) a = rw (pow-suc 2 k) (
    ground (
      arith,
      bit_and_low a (2 ^ k * 2 - 1),
      bit_and_mask k (a / 2),
      one-le-pow k 2 (omega arith),
      mod_double (2 ^ k) a (one-le-pow k 2 (omega arith)),
    ))
