-- ===== src/SharedBits/Tests.antt =====
-- Objects 3 and 4 on shared cpus.
use srf.Base.{ℕ, ◌≡◌, refl, [], ◌∷◌, arith, nat_key, bind, ok}
use srf.Base.Map.{Map, find, insert}
use srf.Bitmap.{vec, for_each_bit}
use srf.SharedBits.{insert_object, bitmap_of}
use srf.Bitmap.ListBits.{ListBits, list_bits}

abbrev two_cpus : ListBits
two_cpus = (0 ∷ 2 ∷ [], omega arith)

abbrev shared : Map ℕ ListBits
shared = (2, (4 ∷ 9 ∷ [], omega arith)) ∷ []

third_object :
    bind (insert_object two_cpus 3 shared) (λ m. ok (vec (bitmap_of 2 m))) ≡ ok (3 ∷ 4 ∷ 9 ∷ [])
unfolding insert_object bitmap_of find insert for_each_bit vec
third_object = refl
