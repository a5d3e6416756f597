-- ===== src/ParseInts/Tests.antt =====
-- Texts that parse, and texts that do not.
use srf.Base.{◌≡◌, refl, [], ◌∷◌, none, some, read_digits}
use srf.ParseInts.{
  split_string_to_array, convert_string2_int, range, parse_range, parse_tokens, parse_ints,
}

-- "1,4-6"
mixed : parse_ints (b'1' ∷ b',' ∷ b'4' ∷ b'-' ∷ b'6' ∷ []) ≡ some (1 ∷ 4 ∷ 5 ∷ 6 ∷ [])
unfolding parse_ints parse_tokens parse_range split_string_to_array convert_string2_int range
    read_digits
mixed = refl

-- An empty token is refused, a trailing comma is not.
empty_token : parse_ints (b'1' ∷ b',' ∷ b',' ∷ b'2' ∷ []) ≡ none
unfolding parse_ints parse_tokens parse_range split_string_to_array convert_string2_int range
    read_digits
empty_token = refl

trailing_comma : parse_ints (b'1' ∷ b',' ∷ []) ≡ some (1 ∷ [])
unfolding parse_ints parse_tokens parse_range split_string_to_array convert_string2_int range
    read_digits
trailing_comma = refl
