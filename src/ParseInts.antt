-- ===== src/ParseInts.antt =====
-- src/internal/utils/parse_ints.{hpp,cpp}: lists such as "1,4-7" to integers. `none` is a call that
-- does not return: a failed CHECK, a LOG(FATAL), or the overflow of the loop counter.
pub mod Split
mod Tests
use srf.Base.{
  ℕ, zero, suc, ◌+◌, ◌-◌, ◌^◌, Bool, false, ◌||◌, ◌&&◌, List, [], ◌∷◌, ◌++◌, Option, none, some,
  Text, ltb, leb, ◌==◌, if◌then◌else◌, is_digit, read_digits,
}

abbrev pub comma : ℕ
comma = b','

abbrev pub dash : ℕ
dash = b'-'

-- The tokens that `getline` reads, with `temp` read of the current one. What follows the last
-- separator is a token only if it is not empty.
pub split_from : ℕ → Text → Text → List Text
split_from splitter [] [] = []
split_from splitter (t ∷ temp) [] = (t ∷ temp) ∷ []
split_from splitter temp (c ∷ cs) =
    let next = split_from splitter [] cs in
    let longer = split_from splitter (temp ++ (c ∷ [])) cs in
    if c == splitter then temp ∷ next else longer

unfoldable pub split_string_to_array : Text → ℕ → List Text
unfolding split_from
split_string_to_array str splitter = split_from splitter [] str

is_space : ℕ → Bool
is_space c = c == 32 || (leb 9 c && leb c 13)

skip_space : Text → Text
unfolding is_space
skip_space [] = []
skip_space (c ∷ cs) = if is_space c then skip_space cs else c ∷ cs

skip_plus : Text → Text
skip_plus [] = []
skip_plus (c ∷ cs) = if c == b'+' then cs else c ∷ cs

starts_with_digit : Text → Bool
starts_with_digit [] = false
starts_with_digit (c ∷ cs) = is_digit c

abbrev pub int_max : ℕ
int_max = 2 ^ 31 - 1

-- `ss >> x` for an int. The texts that reach it are split at every dash, so none is negative.
unfoldable pub convert_string2_int : Text → Option ℕ
unfolding skip_space skip_plus starts_with_digit
convert_string2_int str =
    if starts_with_digit number && leb (read_digits 0 number) int_max
    then some (read_digits 0 number)
    else none
  where
    number : Text
    number = skip_plus (skip_space str)

-- start, start + 1, ..., n numbers
abbrev pub count_from : ℕ → ℕ → List ℕ
count_from start zero = []
count_from start (suc n) = start ∷ count_from (suc start) n

-- for (int i = start; i <= stop; i++): with stop at the largest int the counter overflows.
unfoldable pub range : ℕ → ℕ → Option (List ℕ)
range start stop =
    if ltb stop start
    then some []
    else if stop == int_max
    then none
    else some (count_from start (suc stop - start))

abbrev one : Option ℕ → Option (List ℕ)
one none = none
one (some i) = some (i ∷ [])

abbrev both : Option ℕ → Option ℕ → Option (List ℕ)
both none stop = none
both (some i) none = none
both (some i) (some j) = range i j

unfoldable pub parse_range : List Text → Option (List ℕ)
parse_range (a ∷ []) = one (convert_string2_int a)
parse_range (a ∷ b ∷ []) = both (convert_string2_int a) (convert_string2_int b)
parse_range _ = none

abbrev pub append_to : Option (List ℕ) → Option (List ℕ) → Option (List ℕ)
append_to none ys = none
append_to (some xs) none = none
append_to (some xs) (some ys) = some (xs ++ ys)

unfoldable pub parse_tokens : List Text → Option (List ℕ)
parse_tokens [] = some []
parse_tokens (token ∷ tokens) =
    append_to (parse_range (split_string_to_array token dash)) (parse_tokens tokens)

unfoldable pub parse_ints : Text → Option (List ℕ)
parse_ints str = parse_tokens (split_string_to_array str comma)
