-- ===== src/Ranges/Tests.antt =====
-- Ranges of small lists.
use srf.Base.{ℕ, ◌≡◌, refl, List, [], ◌∷◌, some, arith, to_string}
use srf.ParseInts.{parse_ints}
use srf.Ranges.{find_ranges, print_ranges, sort}
use srf.Ranges.Parsing.{parse_ints-round_trip}

abbrev cpus : List ℕ
cpus = 0 ∷ 1 ∷ 2 ∷ 7 ∷ 10 ∷ 11 ∷ []

ranges_run : find_ranges (7 ∷ 2 ∷ 0 ∷ 1 ∷ 11 ∷ 10 ∷ []) ≡ (0, 2) ∷ (7, 7) ∷ (10, 11) ∷ []
unfolding find_ranges sort
ranges_run = refl

-- "0-2,7,10-11"
print_runs :
    print_ranges (find_ranges cpus)
    ≡ b'0' ∷ b'-' ∷ b'2' ∷ b',' ∷ b'7' ∷ b',' ∷ b'1' ∷ b'0' ∷ b'-' ∷ b'1' ∷ b'1' ∷ []
unfolding find_ranges sort print_ranges to_string
print_runs = refl

parse_ints-round_trip_example : parse_ints (print_ranges (find_ranges cpus)) ≡ some cpus
parse_ints-round_trip_example = parse_ints-round_trip cpus (omega arith) (omega arith)
