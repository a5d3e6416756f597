-- ===== src/Bitmap/Visits.antt =====
-- Visiting the cpus of a bitmap: `for_each_bit`, `append`, and the text of a bitmap.
use srf.Base.{
  ℕ, suc, ◌<◌, ◌≡◌, refl, sym, ap, ◌∙◌, List, [], ◌∷◌, ◌++◌, Option, none, some, length, ok, All,
  contains, ◌||◌, nat_key, ◌=?=◌, Bool, true, false,
}
use mathlib.Core.List.{append-nil, append_assoc}
use srf.ParseInts.{int_max}
use srf.Ranges.Runs.{Rising}
use srf.Ranges.Parsing.{parse_ints-round_trip}
use srf.Bitmap.Indexes.{
  after, above, add, head, above-Rising, above-next, contains-add, add-last, All-snoc, All-below,
}
use srf.Bitmap.Interface.{Hwloc}
use srf.Bitmap.{new_bitmap, vec, on, each_bit, for_each_bit, append, all_on, of_text, str}

or-swap : (p q r : Bool) → p || (q || r) ≡ (q || p) || r
or-swap true true r = refl
or-swap true false r = refl
or-swap false true r = refl
or-swap false false r = refl

-- The calls of `lambda`, in order, from the index `i` on.
abbrev pub visit : {S : Type 0} → (ℕ → ℕ → S → S) → ℕ → List ℕ → S → S
visit lambda i [] s = s
visit lambda i (bit ∷ bits) s = visit lambda (suc i) bits (lambda i bit s)

module _ {B : Type 0} ⦃hwloc : Hwloc B⦄ where
  each_bit-visit :
      {S : Type 0} (lambda : ℕ → ℕ → S → S) (i : ℕ) (prev : Option ℕ) (b : B) (s : S)
      (bits : List ℕ)
      → above (after prev) (vec b) ≡ bits
      → each_bit lambda (length bits) i prev b s ≡ ok (visit lambda i bits s)
  unfolding each_bit
  each_bit-visit lambda i prev b s [] h = refl
  each_bit-visit lambda i prev b s (bit ∷ bits) h =
      rw (each_bit, found) (each_bit-visit lambda (suc i) (some bit) b (lambda i bit s) bits left)
    where
      found : hwloc.next prev b ≡ some bit
      found = hwloc.next_lem prev b ∙ ap head h

      left : above (suc bit) (vec b) ≡ bits
      left = above-next 0 (after prev) bit (vec b) bits (hwloc.indexes-Rising b) h

  -- `for_each_bit` calls its function for every cpu of the set once, in ascending order, with the
  -- number of the calls before.
  pub for_each_bit-visit :
      {S : Type 0} (lambda : ℕ → ℕ → S → S) (b : B) (s : S)
      → for_each_bit lambda b s ≡ ok (visit lambda 0 (vec b) s)
  unfolding for_each_bit
  for_each_bit-visit lambda b s =
      rw (hwloc.weight_lem b)
        (each_bit-visit lambda 0 none b s (vec b) (above-Rising 0 (vec b) (hwloc.indexes-Rising b)))

  all_on-ascending :
      (m : ℕ) (xs out : List ℕ) (b : B)
      → hwloc.indexes b ≡ out
      → All (λ x. x < m) out
      → Rising m xs
      → hwloc.indexes (all_on xs b) ≡ out ++ xs
  all_on-ascending m [] out b e u r = e ∙ sym (append-nil out)
  all_on-ascending m (x ∷ xs) out b e u r =
      all_on-ascending (suc x) xs (out ++ (x ∷ [])) (on x b) added (All-snoc x out below) r.2
      ∙ append_assoc out (x ∷ []) xs
    where
      below : All (λ y. y < x) out
      below = All-below m x out r.0 u

      added : hwloc.indexes (on x b) ≡ out ++ (x ∷ [])
      added = hwloc.indexes-set x b r.1 ∙ ap (add x) e ∙ add-last x out below

  -- The text of a set of cpus below the largest int is read back as the same set.
  pub of_text-str :
      (b : B)
      → All (λ x. x < int_max) (vec b)
      → (c : B) × (of_text (str b) ≡ some c) × (vec c ≡ vec b)
  unfolding of_text str
  of_text-str b h = (
    all_on (vec b) new_bitmap,
    rw (of_text, parse_ints-round_trip (vec b) (hwloc.indexes-Rising b) h),
    all_on-ascending 0 (vec b) [] new_bitmap hwloc.indexes-alloc tt (hwloc.indexes-Rising b),
  )

  visit-contains :
      (a i m : ℕ) (xs : List ℕ) (b : B)
      → Rising m xs
      → contains a (hwloc.indexes (visit (λ idx bit s. on bit s) i xs b))
        ≡ contains a xs || contains a (vec b)
  unfolding contains
  visit-contains a i m [] b r = refl
  visit-contains a i m (x ∷ xs) b r =
      visit-contains a (suc i) (suc x) xs (on x b) r.2
      ∙ ap (λ l. contains a xs || contains a l) (hwloc.indexes-set x b r.1)
      ∙ ap (λ t. contains a xs || t) (contains-add a x (vec b))
      ∙ or-swap (contains a xs) (x =?= a) (contains a (vec b))

  -- After `append`, the set has the cpus of both.
  pub append-contains :
      (bitmap b : B)
      → (c : B) × (append bitmap b ≡ ok c)
        × ((a : ℕ) → contains a (vec c) ≡ contains a (vec bitmap) || contains a (vec b))
  unfolding append
  append-contains bitmap b = (
    visit (λ idx bit s. on bit s) 0 (vec bitmap) b,
    for_each_bit-visit (λ idx bit s. on bit s) bitmap b,
    λ a. visit-contains a 0 0 (vec bitmap) b (hwloc.indexes-Rising bitmap),
  )
