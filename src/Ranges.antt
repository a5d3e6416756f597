-- ===== src/Ranges.antt =====
-- src/internal/utils/ranges.hpp, at T = std::uint32_t: runs of consecutive numbers, and their text.
pub mod Runs
pub mod Parsing
mod Tests
use srf.Base.{
  ℕ, zero, suc, ◌+◌, ◌%◌, ◌^◌, List, [], ◌∷◌, ◌++◌, Text, length, leb, ◌==◌, if◌then◌else◌,
  to_string,
}
use srf.ParseInts.{comma, dash}

-- The arithmetic of T.
abbrev pub modulus : ℕ
modulus = 2 ^ 32

abbrev pub Run : Type 0
Run = ℕ × ℕ

insert_sorted : ℕ → List ℕ → List ℕ
insert_sorted x [] = x ∷ []
insert_sorted x (y ∷ ys) = if leb x y then x ∷ y ∷ ys else y ∷ insert_sorted x ys

-- std::sort
unfoldable pub sort : List ℕ → List ℕ
unfolding insert_sorted
sort [] = []
sort (x ∷ xs) = insert_sorted x (sort xs)

-- The inner loop: `high`, and what is left.
pub take_run : ℕ → ℕ → ℕ → List ℕ → ℕ × List ℕ
take_run low i high [] = (high, [])
take_run low i high (x ∷ xs) =
    let longer = take_run low ((i + 1) % modulus) x xs in
    if (low + i) % modulus == x then longer else (high, x ∷ xs)

-- The outer loop; each round takes at least one number.
pub runs : ℕ → List ℕ → List Run
runs zero values = []
runs (suc fuel) [] = []
runs (suc fuel) (x ∷ xs) = let (high, rest) = take_run x 0 x (x ∷ xs) in (x, high) ∷ runs fuel rest

unfoldable pub find_ranges : List ℕ → List Run
unfolding runs take_run
find_ranges values = let copy = sort values in runs (length copy) copy

pub print_range : Run → Text
print_range (first, second) =
    if first == second then to_string first else to_string first ++ (dash ∷ to_string second)

separator : Text → Text
separator [] = []
separator (c ∷ cs) = comma ∷ []

-- std::accumulate
pub print_from : Text → List Run → Text
unfolding print_range separator
print_from r [] = r
print_from r (p ∷ ps) = print_from (r ++ (separator r ++ print_range p)) ps

unfoldable pub print_ranges : List Run → Text
unfolding print_from
print_ranges ranges = print_from [] ranges
