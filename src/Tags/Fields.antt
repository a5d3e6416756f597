-- ===== src/Tags/Fields.antt =====
-- The fields of a tag.
use Prim.Native.Nat.{bit_and, bit_or}
use Prim.Native.Nat.{min}
use srf.Base.{
  ℕ, zero, suc, ◌+◌, ◌-◌, ◌*◌, ◌/◌, ◌%◌, ◌^◌, ◌≤◌, max, ◌≡◌, refl, ap, sym, ◌∙◌, arith,
  bit_and_mask, bit_and_low, bit_or_low,
}
use native.Mathlib.Nat.{pow-suc, div-one, div-div-eq-div-mul, mul_assoc}
use srf.Tags.{single, tag_decode_msg_type, tag_decode_mem_type, tag_decode_user_tag}

-- A mask of j ones above k zeros keeps the field that it covers, in its place.
pub bit_and_field : (j k a : ℕ) → bit_and a ((2 ^ j - 1) * 2 ^ k) ≡ a / 2 ^ k % 2 ^ j * 2 ^ k
bit_and_field j zero a =
    let e : (2 ^ j - 1) * 1 ≡ 2 ^ j - 1 = omega arith in
    rw (e, div-one a) (bit_and_mask j a ∙ omega arith)
bit_and_field j (suc k) a =
    let m = (2 ^ j - 1) * 2 ^ k in
    let twice : (2 ^ j - 1) * 2 ^ suc k ≡ m * 2 =
      ap (λ (t : ℕ). (2 ^ j - 1) * t) (pow-suc 2 k) ∙ omega arith in
    let half : m * 2 / 2 ≡ m = omega arith in
    let even : m * 2 % 2 ≡ 0 = omega arith in
    let halves : a / 2 / 2 ^ k ≡ a / 2 ^ suc k =
      div-div-eq-div-mul a 2 (2 ^ k) ∙ ap (λ (t : ℕ). a / t) (omega (arith, pow-suc 2 k)) in
    let low : bit_and a (m * 2) ≡ bit_and (a / 2) m * 2 =
      bit_and_low a (m * 2)
      ∙ ap (λ h. bit_and (a / 2) h * 2 + min (a % 2) (m * 2 % 2)) half
      ∙ ap (λ l. bit_and (a / 2) m * 2 + min (a % 2) l) even
      ∙ omega arith in
    ap (bit_and a) twice
    ∙ low
    ∙ ap (λ t. t * 2) (bit_and_field j k (a / 2) ∙ ap (λ d. d % 2 ^ j * 2 ^ k) halves)
    ∙ mul_assoc (a / 2 ^ suc k % 2 ^ j) (2 ^ k) 2
    ∙ ap (λ (t : ℕ). a / 2 ^ suc k % 2 ^ j * t) (sym (pow-suc 2 k))

pub tag_decode_user_tag-eq_mod : (t : ℕ) → tag_decode_user_tag t ≡ t % 2 ^ 48
unfolding tag_decode_user_tag
tag_decode_user_tag-eq_mod t = bit_and_mask 48 t

pub tag_decode_msg_type-single : (t : ℕ) → tag_decode_msg_type t ≡ single (t / 2 ^ 60 % 16 * 2 ^ 60)
unfolding tag_decode_msg_type
tag_decode_msg_type-single t = ap single (bit_and_field 4 60 t)

pub tag_decode_mem_type-bit : (t : ℕ) → tag_decode_mem_type t ≡ t / 2 ^ 56 % 2 * 2 ^ 56
unfolding tag_decode_mem_type
tag_decode_mem_type-bit t = bit_and_field 1 56 t

bit_or_comm_from : (n a b : ℕ) → a ≤ n → b ≤ n → bit_or a b ≡ bit_or b a
bit_or_comm_from zero a b p q = let e : a ≡ b = omega arith in rw e refl
bit_or_comm_from (suc n) a b p q =
    bit_or_low a b
    ∙ ap (λ t. t * 2 + max (a % 2) (b % 2))
        (bit_or_comm_from n (a / 2) (b / 2) (omega arith) (omega arith))
    ∙ ap (λ t. bit_or (b / 2) (a / 2) * 2 + t) (omega arith)
    ∙ sym (bit_or_low b a)

pub bit_or_comm : (a b : ℕ) → bit_or a b ≡ bit_or b a
bit_or_comm a b = bit_or_comm_from (a + b) a b (omega arith) (omega arith)
