-- ===== src/Factories/Dedicated.antt =====
-- The factories of dedicated queues and cpus.
use srf.Base.{
  ℕ, zero, suc, ◌+◌, ◌≤◌, ◌<◌, ◌≡◌, refl, sym, ap, ◌∙◌, List, [], ◌∷◌, ◌++◌, Option, none, some, ok,
  throws, Exception, length, arith, ltb, leb, Bool-cases, inl, inr, All,
}
use mathlib.Core.Path.{subst}
use mathlib.Core.List.{append-nil, append_assoc}
use srf.Ranges.Runs.{Rising}
use srf.Bitmap.Indexes.{
  after, take, drop, above, add, head, above-Rising, above-next, Rising-weaken, add-last, All-snoc,
  All-below,
}
use srf.Bitmap.Interface.{Hwloc}
use srf.Bitmap.{new_bitmap, vec, on}
use srf.Factories.{single_use_queues, single_use_cpus}

-- A call that succeeds does not mark its queues as used: every next call for as many gets the same
-- queues.
pub single_use_queues-again :
    (queues out : List ℕ) (count offset offset' : ℕ)
    → single_use_queues queues count offset ≡ (ok out, offset')
    → single_use_queues queues count offset' ≡ (ok out, offset')
unfolding single_use_queues
single_use_queues-again queues out count offset offset' h =
    subst (λ o. single_use_queues queues count o ≡ (ok out, offset')) (sym kept ∙ ap (λ r. r.1) h) h
  where
    kept : (single_use_queues queues count offset).1 ≡ offset
    kept = elim (Bool-cases (ltb (length queues) (offset + count))) [
      | inl few ↦ rw (single_use_queues, few)
      | inr many ↦ rw (single_use_queues, many)
    ]

above-Rising_self : (m l : ℕ) (xs : List ℕ) → Rising l xs → Rising m (above m xs)
above-Rising_self m l [] r = tt
above-Rising_self m l (x ∷ xs) (a, b, c) = elim (Bool-cases (leb m x)) [
  | inl reached ↦ rw reached (ground arith, b, c)
  | inr lower ↦ rw lower (above-Rising_self m (suc x) xs c)
]

module _ {B : Type 0} ⦃hwloc : Hwloc B⦄ where
  -- The cpus that no call has handed out.
  abbrev pub left_over : B → Option ℕ → List ℕ
  left_over cpus prev = above (after prev) (vec cpus)

  single_use_cpus-takes :
      (cpus : B) (count m : ℕ) (this_set : B) (prev : Option ℕ) (out xs : List ℕ)
      → vec this_set ≡ out
      → left_over cpus prev ≡ xs
      → Rising m xs
      → All (λ x. x < m) out
      → count ≤ length xs
      → (s : B) × (prev' : Option ℕ) × (single_use_cpus cpus count this_set prev ≡ (ok s, prev'))
        × (vec s ≡ out ++ take count xs)
        × (left_over cpus prev' ≡ drop count xs)
  unfolding single_use_cpus
  single_use_cpus-takes cpus zero m s prev out xs e f r u h =
      (s, prev, refl, e ∙ sym (append-nil out), f)
  single_use_cpus-takes cpus (suc count) m s prev out [] e f r u h = absurd (omega arith)
  single_use_cpus-takes cpus (suc count) m s prev out (y ∷ ys) e f r u h =
      let below = All-below m y out r.0 u in
      let found : hwloc.next prev cpus ≡ some y = hwloc.next_lem prev cpus ∙ ap head f in
      let added : vec (on y s) ≡ out ++ (y ∷ []) =
        hwloc.indexes-set y s r.1 ∙ ap (add y) e ∙ add-last y out below in
      let left : left_over cpus (some y) ≡ ys =
        above-next 0 (after prev) y (vec cpus) ys (hwloc.indexes-Rising cpus) f in
      let rest =
        single_use_cpus-takes cpus count (suc y) (on y s) (some y) (out ++ (y ∷ [])) ys added left
          r.2 (All-snoc y out below) (omega arith) in
      (
        rest.0,
        rest.1,
        rw (single_use_cpus, found) rest.2,
        rest.3 ∙ append_assoc out (y ∷ []) (take count ys),
        rest.4,
      )

  single_use_cpus-exhausted :
      (cpus : B) (count : ℕ) (this_set : B) (prev : Option ℕ) (xs : List ℕ)
      → left_over cpus prev ≡ xs
      → length xs < count
      → single_use_cpus cpus count this_set prev ≡ (throws Exception.cpus_exhausted, none)
  unfolding single_use_cpus
  single_use_cpus-exhausted cpus zero s prev xs f h = absurd (omega arith)
  single_use_cpus-exhausted cpus (suc count) s prev [] f h =
      rw (single_use_cpus, hwloc.next_lem prev cpus ∙ ap head f)
  single_use_cpus-exhausted cpus (suc count) s prev (y ∷ ys) f h =
      rw (single_use_cpus, hwloc.next_lem prev cpus ∙ ap head f)
        (single_use_cpus-exhausted cpus count (on y s) (some y) ys
          (above-next 0 (after prev) y (vec cpus) ys (hwloc.indexes-Rising cpus) f) (omega arith))

  left_over-Rising : (cpus : B) (prev : Option ℕ) → Rising 0 (left_over cpus prev)
  left_over-Rising cpus prev =
      Rising-weaken (left_over cpus prev) (omega arith)
        (above-Rising_self (after prev) 0 (vec cpus) (hwloc.indexes-Rising cpus))

  -- A call is granted exactly when enough cpus are left. It takes the lowest of them.
  pub single_use_cpus-cases :
      (cpus : B) (count : ℕ) (prev : Option ℕ)
      → (count ≤ length (left_over cpus prev)
          → (s : B) × (prev' : Option ℕ) × (single_use_cpus cpus count new_bitmap prev
              ≡ (ok s, prev'))
            × (vec s ≡ take count (left_over cpus prev))
            × (left_over cpus prev' ≡ drop count (left_over cpus prev)))
        × (length (left_over cpus prev) < count
            → single_use_cpus cpus count new_bitmap prev ≡ (throws Exception.cpus_exhausted, none))
  single_use_cpus-cases cpus count prev = (
    λ h.
        single_use_cpus-takes cpus count 0 new_bitmap prev [] (left_over cpus prev)
          hwloc.indexes-alloc refl (left_over-Rising cpus prev) tt h,
    λ h. single_use_cpus-exhausted cpus count new_bitmap prev (left_over cpus prev) refl h,
  )

  -- After a call that is refused, the factory hands out its cpus from the first one again.
  pub refused_starts_over :
      (cpus : B) (count more : ℕ) (prev : Option ℕ)
      → length (left_over cpus prev) < more
      → count ≤ length (vec cpus)
      → (s : B) × (prev' : Option ℕ) × (single_use_cpus cpus count new_bitmap
            (single_use_cpus cpus more new_bitmap prev).1
          ≡ (ok s, prev'))
        × (vec s ≡ take count (vec cpus))
  refused_starts_over cpus count more prev h l =
      let anew = above-Rising 0 (vec cpus) (hwloc.indexes-Rising cpus) in
      let taken = (single_use_cpus-cases cpus count none).0 (rw anew l) in
      (
        taken.0,
        taken.1,
        ap (λ r. single_use_cpus cpus count new_bitmap r.1)
              ((single_use_cpus-cases cpus more prev).1 h)
            ∙ taken.2,
        taken.3 ∙ ap (take count) anew,
      )
