-- ===== src/Bitmap/Tests.antt =====
-- The cpus 0-2,7.
use srf.Base.{◌≡◌, ◌/◌, List, [], ◌∷◌, some, length, arith, ok, nat_key}
use srf.Bitmap.ListBits.{ListBits, list_bits}
use srf.Bitmap.{vec, weight, split, of_text, str}
use srf.Bitmap.Taking.{split-shares, flat, Fair}
use srf.Bitmap.Visits.{of_text-str}

abbrev four : ListBits
four = (0 ∷ 1 ∷ 2 ∷ 7 ∷ [], omega arith)

split-shares_example :
    (bs : List ListBits) × (split 3 four ≡ ok bs)
    × (flat bs ≡ vec four)
    × (length bs ≡ 3)
    × Fair (weight four / 3) bs
split-shares_example = split-shares 3 four (omega arith)

of_text-str_example : (c : ListBits) × (of_text (str four) ≡ some c) × (vec c ≡ vec four)
of_text-str_example = of_text-str four (omega arith)
