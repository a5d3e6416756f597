-- ===== src/Ranges/Parsing.antt =====
-- `parse_ints` reads back what `print_ranges` writes.
use srf.Base.{
  ℕ, suc, ◌-◌, ◌≤◌, ◌<◌, ◌≡◌, ◌≢◌, refl, ap, ◌∙◌, List, [], ◌∷◌, ◌++◌, map, some, Text, arith, ◌==◌,
  Bool-cases, inl, inr, All, to_string, to_string-IsDecimal, IsDecimal,
}
use mathlib.Core.List.{append_assoc, append-nil}
use srf.ParseInts.{
  comma, dash, int_max, split_from, split_string_to_array, convert_string2_int, range, parse_range,
  parse_tokens, parse_ints,
}
use srf.ParseInts.Split.{Free, split_from-piece, split_from-last}
use srf.Ranges.{Run, print_range, print_from, print_ranges, find_ranges}
use srf.Ranges.Runs.{Rising, numbers, expand, Fits, expand-find_ranges, find_ranges-Fits}

Digits-Free : (sep : ℕ) (s : Text) → sep < 48 → All (λ c. (48 ≤ c) × (c ≤ 57)) s → Free sep s
Digits-Free sep [] h d = tt
Digits-Free sep (c ∷ s) h d = (omega (arith, d.0), Digits-Free sep s h d.1)

Free-append : (sep : ℕ) (s t : Text) → Free sep s → Free sep t → Free sep (s ++ t)
Free-append sep [] t h k = k
Free-append sep (c ∷ s) t h k = (h.0, Free-append sep s t h.1 k)

convert-IsDecimal :
    (n : ℕ) (s : Text) → n ≤ int_max → IsDecimal n s → convert_string2_int s ≡ some n
unfolding convert_string2_int
convert-IsDecimal n [] h d = absurd (d.some_digit refl)
convert-IsDecimal n (c ∷ s) h d = ground (arith, d.digits.0.0, d.digits.0.1, d.value)

abbrev decimal : (n : ℕ) → n < int_max → IsDecimal n (to_string n)
decimal n h = to_string-IsDecimal n (omega arith)

range-numbers :
    (low high : ℕ) → Fits int_max (low, high) → range low high ≡ some (numbers (low, high))
unfolding range
range-numbers low high (p, q) = ground arith

Free-decimal : (sep n : ℕ) → sep < 48 → n < int_max → Free sep (to_string n)
Free-decimal sep n h k = Digits-Free sep (to_string n) h (decimal n k).digits

split_decimal : (n : ℕ) → n < int_max → split_from dash [] (to_string n) ≡ to_string n ∷ []
split_decimal n h =
    split_from-last dash [] (to_string n) (Free-decimal dash n (omega arith) h)
      (decimal n h).some_digit

-- One range, as text, is a token that parses to its numbers.
print_range-parse :
    (p : Run)
    → Fits int_max p
    → parse_range (split_string_to_array (print_range p) dash) ≡ some (numbers p)
unfolding print_range parse_range split_string_to_array
print_range-parse (low, high) (p, q) = elim (Bool-cases (low == high)) [
  | inl same ↦
      let e : suc high - low ≡ 1 = ground arith in
      rw (same, split_decimal low (omega arith), convert_decimal low (omega arith), e)
  | inr other ↦
      rw
        (
          other,
          split_from-piece dash [] (to_string low) (to_string high)
              (Free-decimal dash low (omega arith) (omega arith)),
          split_decimal high q,
          convert_decimal low (omega arith),
          convert_decimal high q,
        )
        (range-numbers low high (p, q))
]
  where
    convert_decimal : (n : ℕ) → n < int_max → convert_string2_int (to_string n) ≡ some n
    convert_decimal n h = convert-IsDecimal n (to_string n) (omega arith) (decimal n h)

append-ne-nil : (s t : Text) → s ≢ [] → s ++ t ≢ []
append-ne-nil [] t h = absurd (h refl)
append-ne-nil (c ∷ s) t h = λ e. cc e

print_range-token : (p : Run) → Fits int_max p → Free comma (print_range p) × (print_range p ≢ [])
unfolding print_range
print_range-token (low, high) (p, q) = elim (Bool-cases (low == high)) [
  | inl same ↦
      rw same
        (Free-decimal comma low (omega arith) (omega arith), (decimal low (omega arith)).some_digit)
  | inr other ↦ rw other (
    Free-append comma (to_string low) (dash ∷ to_string high)
        (Free-decimal comma low (omega arith) (omega arith))
        (omega arith, Free-decimal comma high (omega arith) q),
    append-ne-nil (to_string low) _ (decimal low (omega arith)).some_digit,
  )
]

-- What `print_from` adds to a text that is not empty.
after_first : List Run → Text
after_first [] = []
after_first (p ∷ ps) = comma ∷ (print_range p ++ after_first ps)

print_from-append : (r : Text) (ps : List Run) → r ≢ [] → print_from r ps ≡ r ++ after_first ps
unfolding print_from after_first
print_from-append r [] h = rw append-nil
print_from-append [] (p ∷ ps) h = absurd (h refl)
print_from-append (c ∷ r) (p ∷ ps) h =
    print_from-append ((c ∷ r) ++ (comma ∷ print_range p)) ps (λ e. cc e)
    ∙ append_assoc (c ∷ r) (comma ∷ print_range p) (after_first ps)

split_tokens :
    (p : Run) (ps : List Run)
    → All (Fits int_max) (p ∷ ps)
    → split_from comma [] (print_range p ++ after_first ps) ≡ map print_range (p ∷ ps)
unfolding after_first
split_tokens p [] h = rw (append-nil (print_range p)) (
    split_from-last comma [] (print_range p) (print_range-token p h.0).0
      (print_range-token p h.0).1)
split_tokens p (q ∷ ps) h =
    split_from-piece comma [] (print_range p) (print_range q ++ after_first ps)
      (print_range-token p h.0).0
    ∙ ap (λ l. print_range p ∷ l) (split_tokens q ps h.1)

parse_tokens-expand :
    (ps : List Run) → All (Fits int_max) ps → parse_tokens (map print_range ps) ≡ some (expand ps)
unfolding parse_tokens
parse_tokens-expand [] h = refl
parse_tokens-expand (p ∷ ps) h = rw (print_range-parse p h.0, parse_tokens-expand ps h.1)

-- Ranges below the largest int are read back, from their text, as the numbers they stand for.
pub parse_ints-print_ranges :
    (ps : List Run) → All (Fits int_max) ps → parse_ints (print_ranges ps) ≡ some (expand ps)
unfolding parse_ints print_ranges split_string_to_array parse_tokens
parse_ints-print_ranges [] h = refl
parse_ints-print_ranges (p ∷ ps) h =
    ap (λ t. parse_tokens (split_from comma [] t))
      (print_from-append (print_range p) ps (print_range-token p h.0).1)
    ∙ ap parse_tokens (split_tokens p ps h)
    ∙ parse_tokens-expand (p ∷ ps) h

-- Every strictly ascending list of numbers below the largest int survives a round trip through
-- `find_ranges`, `print_ranges` and `parse_ints`.
pub parse_ints-round_trip :
    (xs : List ℕ)
    → Rising 0 xs
    → All (λ x. x < int_max) xs
    → parse_ints (print_ranges (find_ranges xs)) ≡ some xs
parse_ints-round_trip xs r b =
    parse_ints-print_ranges (find_ranges xs) (find_ranges-Fits int_max xs r b)
    ∙ ap some (expand-find_ranges xs r)
