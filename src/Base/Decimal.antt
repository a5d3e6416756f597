-- ===== src/Base/Decimal.antt =====
-- Numbers as decimal text: `std::to_string`, and `>>` of a stream into an unsigned digit sequence.
use Prim.Native.Nat.{ℕ, zero, suc, ◌+◌, ◌-◌, ◌*◌, ◌/◌, ◌%◌, ◌^◌, ◌≤◌, ◌<◌}
use mathlib.Core.Path.{◌≡◌}
use mathlib.Core.Bool.{Bool, ◌&&◌}
use mathlib.Core.List.{[], ◌∷◌, ◌++◌}
use mathlib.Core.Logic.{◌≢◌, inl, inr}
use native.Mathlib.Nat.{pow-suc}
use native.Mathlib.Omega.{arith}
use srf.Base.Tests.{ltb, leb, if◌then◌else◌, Bool-cases}
use srf.Base.Lists.{All}
use srf.Base.Keys.{Text}

-- The digits of `n`, at most `fuel` of them.
digits_of : ℕ → ℕ → Text
digits_of zero n = []
digits_of (suc fuel) n =
    let higher = digits_of fuel (n / 10) in
    if ltb n 10 then (48 + n) ∷ [] else higher ++ ((48 + n % 10) ∷ [])

-- 20 digits are enough for 64 bits.
unfoldable pub to_string : ℕ → Text
unfolding digits_of
to_string n = digits_of 20 n

abbrev pub is_digit : ℕ → Bool
is_digit c = leb 48 c && leb c 57

-- The value of the leading digits, after those that made up `acc`.
unfoldable pub read_digits : ℕ → Text → ℕ
read_digits acc [] = acc
read_digits acc (c ∷ cs) =
    let rest = read_digits (acc * 10 + (c - 48)) cs in if is_digit c then rest else acc

abbrev pub Digits : Text → Type 0
Digits = All λ c. (48 ≤ c) × (c ≤ 57)

Digits-append : (s : Text) (d : ℕ) → Digits s → 48 ≤ d → d ≤ 57 → Digits (s ++ (d ∷ []))
Digits-append [] d h p q = ((p, q), tt)
Digits-append (c ∷ s) d h p q = (h.0, Digits-append s d h.1 p q)

read_digits-append :
    (acc : ℕ) (s : Text) (d : ℕ)
    → Digits s
    → 48 ≤ d
    → d ≤ 57
    → read_digits acc (s ++ (d ∷ [])) ≡ read_digits acc s * 10 + (d - 48)
unfolding read_digits
read_digits-append acc [] d h p q = ground arith
read_digits-append acc (c ∷ s) d (h, hs) p q =
    ground (arith, h.0, h.1, read_digits-append (acc * 10 + (c - 48)) s d hs p q)

-- The text is made of digits, and has at least one.
pub record IsDecimal (n : ℕ) (s : Text) : Type 0 where
  pub digits : Digits s
  pub some_digit : s ≢ []
  pub value : read_digits 0 s ≡ n

snoc-ne-nil : (s : Text) (d : ℕ) → s ++ (d ∷ []) ≢ []
snoc-ne-nil [] d h = cc h
snoc-ne-nil (c ∷ s) d h = cc h

last_digit : (n : ℕ) → n < 10 → IsDecimal n ((48 + n) ∷ [])
unfolding read_digits
last_digit n h = record {
  digits = ((omega arith, omega arith), tt);
  some_digit = λ e. cc e;
  value = ground arith;
}

next_digit : (n : ℕ) (s : Text) → IsDecimal (n / 10) s → IsDecimal n (s ++ ((48 + n % 10) ∷ []))
next_digit n s d = record {
  digits = Digits-append s (48 + n % 10) d.digits (omega arith) (omega arith);
  some_digit = snoc-ne-nil s _;
  value =
      omega
        (arith, read_digits-append 0 s (48 + n % 10) d.digits (omega arith) (omega arith), d.value);
}

more : (fuel : ℕ) {n : ℕ} → 10 ≤ n → n < 10 ^ suc fuel → 0 < fuel
more zero p h = absurd (omega arith)
more (suc fuel) p h = omega arith

digits_of-IsDecimal : (fuel n : ℕ) → n < 10 ^ fuel → 0 < fuel → IsDecimal n (digits_of fuel n)
unfolding digits_of
digits_of-IsDecimal zero n h p = absurd (omega arith)
digits_of-IsDecimal (suc fuel) n h p = elim (Bool-cases (ltb n 10)) [
  | inl small ↦ rw small (last_digit n (ground arith))
  | inr large ↦ rw large (
      next_digit n _ (
        digits_of-IsDecimal fuel (n / 10) (omega (arith, pow-suc 10 fuel))
          (more fuel (ground arith) h)))
]

pub to_string-IsDecimal : (n : ℕ) → n < 2 ^ 64 → IsDecimal n (to_string n)
unfolding to_string
to_string-IsDecimal n h = digits_of-IsDecimal 20 n (omega arith) (omega arith)
