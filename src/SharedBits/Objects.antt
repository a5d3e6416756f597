-- ===== src/SharedBits/Objects.antt =====
-- The objects of a resource after an insertion, and their number.
use srf.Base.{
  ℕ, suc, ◌+◌, ◌<◌, ◌≡◌, refl, sym, ap, ◌∙◌, Bool, ◌||◌, ◌&&◌, List, [], ◌∷◌, some, Option-cases,
  inl, inr, nat_key, contains, ok, length, arith, ◌==◌, if◌then◌else◌, Bool-cases, ==_iff,
}
use srf.Base.Map.{Map, find, find-insert}
use srf.Ranges.{modulus}
use srf.Bitmap.Indexes.{contains-add}
use srf.Bitmap.Interface.{Hwloc}
use srf.Bitmap.{vec, on}
use srf.Bitmap.Visits.{visit, for_each_bit-visit}
use srf.SharedBits.{or_new, switch_on, insert_object, for_objects, object_count, bitmap_of}

visit-counts : (i c : ℕ) (xs : List ℕ) → visit (λ idx bit count. suc count) i xs c ≡ length xs + c
visit-counts i c [] = omega arith
visit-counts i c (x ∷ xs) = visit-counts (suc i) (suc c) xs ∙ omega arith

module _ {B : Type 0} ⦃hwloc : Hwloc B⦄ where
  abbrev pub has : ℕ → ℕ → Map ℕ B → Bool
  has bit o m = contains o (vec (bitmap_of bit m))

  has-switch_on :
      (object bit j o : ℕ) (m : Map ℕ B)
      → object < modulus
      → has j o (switch_on object bit m) ≡ ((bit == j) && (object == o)) || has j o m
  unfolding switch_on bitmap_of
  has-switch_on object bit j o m h =
      ap (λ f. contains o (vec (or_new f))) (find-insert bit j added m) ∙ either
    where
      added : B
      added = on object (or_new (find bit m))

      contents : contains o (vec added) ≡ (object == o) || contains o (vec (or_new (find bit m)))
      contents =
          ap (contains o) (hwloc.indexes-set object (or_new (find bit m)) h)
          ∙ contains-add o object (vec (or_new (find bit m)))

      either :
          contains o (vec (or_new (if bit == j then some added else find j m)))
          ≡ ((bit == j) && (object == o)) || has j o m
      either = elim (Bool-cases (bit == j)) [
        | inl same ↦ rw same (
            contents
            ∙ ap (λ n. (object == o) || contains o (vec (or_new (find n m))))
                ((==_iff bit j).0 same))
        | inr other ↦ rw other refl
      ]

  has-visit :
      (object j o i : ℕ) (bits : List ℕ) (m : Map ℕ B)
      → object < modulus
      → has j o (visit (λ idx bit. switch_on object bit) i bits m)
        ≡ (contains j bits && (object == o)) || has j o m
  unfolding contains
  has-visit object j o i [] m h = refl
  has-visit object j o i (bit ∷ bits) m h =
      has-visit object j o (suc i) bits (switch_on object bit m) h
      ∙ ap (λ t. (contains j bits && (object == o)) || t) (has-switch_on object bit j o m h)
      ∙ spread (contains j bits) (object == o) (bit == j) (has j o m)
    where
      spread : (p q r s : Bool) → (p && q) || ((r && q) || s) ≡ ((r || p) && q) || s
      spread p q r s = ground arith

  -- For an object below 2 ^ 32, `insert` adds the object to exactly the resources of the bitmap, and keeps what was there.
  pub insert_object-has :
      (bitmap : B) (object : ℕ) (m : Map ℕ B)
      → object < modulus
      → (m' : Map ℕ B) × (insert_object bitmap object m ≡ ok m')
        × ((j o : ℕ) → has j o m' ≡ (contains j (vec bitmap) && (object == o)) || has j o m)
  unfolding insert_object
  insert_object-has bitmap object m h = (
    visit (λ idx bit. switch_on object bit) 0 (vec bitmap) m,
    for_each_bit-visit (λ idx bit. switch_on object bit) bitmap m,
    λ j o. has-visit object j o 0 (vec bitmap) m h,
  )

  -- The number of objects of a resource is the size of its bitmap.
  pub object_count-length :
      (bit : ℕ) (m : Map ℕ B) → object_count bit m ≡ ok (length (vec (bitmap_of bit m)))
  unfolding object_count for_objects bitmap_of
  object_count-length bit m = elim (Option-cases (find bit m)) [
    | inl missing ↦
        rw (object_count, for_objects, missing) (ap (λ l. ok (length l)) (sym hwloc.indexes-alloc))
    | inr (b, found) ↦
        rw (object_count, for_objects, found)
          (for_each_bit-visit (λ idx bit count. suc count) b 0
            ∙ ap ok (visit-counts 0 0 (vec b) ∙ omega arith))
  ]
