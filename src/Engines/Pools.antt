-- ===== src/Engines/Pools.antt =====
-- The pools of the groups: every loop ends.
use srf.Base.{
  ℕ, zero, suc, ◌+◌, ◌≤◌, ◌<◌, ◌≡◌, refl, sym, ap, ◌∙◌, true, false, List, [], ◌∷◌, Option, none,
  some, Text, text_key, length, arith, Bool-cases, Option-cases, inl, inr, ok, Ensures-ok,
}
use srf.Base.Map.{insert}
use srf.Bitmap.Indexes.{head, drop, above-Rising, length-drop}
use srf.Bitmap.Interface.{Hwloc}
use srf.Bitmap.{vec, on, new_bitmap, pop}
use srf.Bitmap.Taking.{pop-takes}
use srf.EngineGroups.{EngineType, fiber, thread, process, EngineFactoryOptions, Groups}
use srf.Engines.{
  EngineFactoryCpuSets, store_pool, dedicate_group, dedicate, next_shared, pick, overlap,
  allot_groups,
}
use srf.Engines.Counts.{own, dedicated, widest}

drop-nil : (m : ℕ) → drop m [] ≡ []
drop-nil zero = refl
drop-nil (suc m) = refl

pub drop-drop : (m n : ℕ) (xs : List ℕ) → drop m (drop n xs) ≡ drop (n + m) xs
drop-drop m zero xs = let e : 0 + m ≡ m = omega arith in rw e
drop-drop m (suc n) [] = let e : suc n + m ≡ suc (n + m) = omega arith in rw e (drop-nil m)
drop-drop m (suc n) (x ∷ xs) =
    let e : suc n + m ≡ suc (n + m) = omega arith in rw e (drop-drop m n xs)

head-some : (xs : List ℕ) → 0 < length xs → (i : ℕ) × (head xs ≡ some i)
head-some [] l = absurd (omega arith)
head-some (x ∷ xs) l = (x, refl)

module _ {B : Type 0} ⦃hwloc : Hwloc B⦄ where
  dedicate_group-takes :
      (name : Text) (o : EngineFactoryOptions) (c : EngineFactoryCpuSets B) (b : B)
      → own o ≤ length (vec b)
      → (r : EngineFactoryCpuSets B × B) × (dedicate_group name o c b ≡ ok r)
        × (vec r.1 ≡ drop (own o) (vec b))
  unfolding dedicate_group
  dedicate_group-takes name o c b h = elim (Bool-cases o.allow_overlap) [
    | inl shares ↦
        ((marked, b), rw (dedicate_group, shares), ap (λ n. drop n (vec b)) (sym (own_none shares)))
    | inr alone ↦
        let p =
          Ensures-ok _ (pop o.cpu_count b) (pop-takes o.cpu_count b (rw (sym (own_all alone)) h)) in
        (
          (store_pool o.engine_type name p.0 marked, (pop o.cpu_count b).1),
          rw (dedicate_group, alone, p.1),
          p.2.1 ∙ ap (λ n. drop n (vec b)) (sym (own_all alone)),
        )
  ]
    where
      marked : EngineFactoryCpuSets B
      marked = record c { reusable = insert name o.reusable c.reusable }

      own_none : o.allow_overlap ≡ true → own o ≡ 0
      own_none e = ground arith

      own_all : o.allow_overlap ≡ false → own o ≡ o.cpu_count
      own_all e = ground arith

  dedicate-takes :
      (groups : Groups) (c : EngineFactoryCpuSets B) (b : B)
      → dedicated groups ≤ length (vec b)
      → (r : EngineFactoryCpuSets B × B) × (dedicate groups c b ≡ ok r)
        × (vec r.1 ≡ drop (dedicated groups) (vec b))
  unfolding dedicate
  dedicate-takes [] c b h = ((c, b), refl, refl)
  dedicate-takes ((name, o) ∷ groups) c b h =
      let one = dedicate_group-takes name o c b (omega arith) in
      let rest =
        dedicate-takes groups one.0.0 one.0.1
          (rw one.2 (omega (arith, length-drop (own o) (vec b) (omega arith)))) in
      (
        rest.0,
        rw (dedicate, one.1) rest.1,
        rest.2 ∙ ap (drop (dedicated groups)) one.2 ∙ drop-drop (dedicated groups) (own o) (vec b),
      )

  pub first-returns : (b : B) → 0 < length (vec b) → (i : ℕ) × (hwloc.next none b ≡ some i)
  first-returns b h =
      let one = head-some (vec b) h in
      (
        one.0,
        hwloc.next_lem none b ∙ ap head (above-Rising 0 (vec b) (hwloc.indexes-Rising b)) ∙ one.1,
      )

  next_shared-returns :
      (idx : Option ℕ) (b : B) → 0 < length (vec b) → (i : ℕ) × (next_shared 2 idx b ≡ some i)
  unfolding next_shared
  next_shared-returns idx b h = elim (Option-cases (hwloc.next idx b)) [
    | inl exhausted ↦ (first_of.0, rw (next_shared, exhausted, first_of.1))
    | inr (i, found) ↦ (i, rw (next_shared, found))
  ]
    where
      first_of : (i : ℕ) × (hwloc.next none b ≡ some i)
      first_of = first-returns b h

  pick-returns :
      (n : ℕ) (idx : Option ℕ) (b this_set : B)
      → n ≤ length (vec b)
      → (r : Option ℕ × B) × (pick n idx b this_set ≡ some r)
  unfolding pick
  pick-returns n idx b this_set h = go n idx this_set (λ l. omega arith)
    where
      go :
          (n : ℕ) (idx : Option ℕ) (s : B)
          → (0 < n → 0 < length (vec b))
          → (r : Option ℕ × B) × (pick n idx b s ≡ some r)
      go zero idx s l = ((idx, s), refl)
      go (suc n) idx s l =
          let one = next_shared-returns idx b (l (omega arith)) in
          let rest = go n (some one.0) (on one.0 s) (λ k. l (omega arith)) in
          (rest.0, rw (pick, one.1) rest.1)

  store_pool-shared :
      (e : EngineType) (name : Text) (b : B) (c : EngineFactoryCpuSets B)
      → (store_pool e name b c).shared_cpus_set ≡ c.shared_cpus_set
  unfolding store_pool
  store_pool-shared fiber name b c = refl
  store_pool-shared thread name b c = refl
  store_pool-shared process name b c = refl

  overlap-shares :
      (name : Text) (o : EngineFactoryOptions) (groups : Groups) (idx idx' : Option ℕ)
      (b this_set : B) (c : EngineFactoryCpuSets B)
      → o.allow_overlap ≡ true
      → pick o.cpu_count idx b new_bitmap ≡ some (idx', this_set)
      → overlap ((name, o) ∷ groups) idx b c
        ≡ overlap groups idx' b (store_pool o.engine_type name this_set c)
  unfolding overlap
  overlap-shares name o groups idx idx' b this_set c shares picked = rw (overlap, shares, picked)

  overlap-alone :
      (name : Text) (o : EngineFactoryOptions) (groups : Groups) (idx : Option ℕ) (b : B)
      (c : EngineFactoryCpuSets B)
      → o.allow_overlap ≡ false
      → overlap ((name, o) ∷ groups) idx b c ≡ overlap groups idx b c
  unfolding overlap
  overlap-alone name o groups idx b c alone = rw (overlap, alone)

  overlap-returns :
      (groups : Groups) (idx : Option ℕ) (b : B) (c : EngineFactoryCpuSets B)
      → widest groups ≤ length (vec b)
      → (d : EngineFactoryCpuSets B) × (overlap groups idx b c ≡ ok d)
        × (d.shared_cpus_set ≡ c.shared_cpus_set)
  unfolding overlap
  overlap-returns [] idx b c h = (c, refl, refl)
  overlap-returns ((name, o) ∷ groups) idx b c h = elim (Bool-cases o.allow_overlap) [
    | inl shares ↦
        let one = pick-returns o.cpu_count idx b new_bitmap (ground arith) in
        let next = store_pool o.engine_type name one.0.1 c in
        let rest = overlap-returns groups one.0.0 b next (omega arith) in
        (
          rest.0,
          overlap-shares name o groups idx one.0.0 b one.0.1 c shares one.1 ∙ rest.1,
          rest.2 ∙ store_pool-shared o.engine_type name one.0.1 c,
        )
    | inr alone ↦
        let rest = overlap-returns groups idx b c (omega arith) in
        (rest.0, overlap-alone name o groups idx b c alone ∙ rest.1, rest.2)
  ]

  pub allot_groups-returns :
      (groups : Groups) (c : EngineFactoryCpuSets B) (b : B)
      → widest groups + dedicated groups ≤ length (vec b)
      → (d : EngineFactoryCpuSets B) × (allot_groups groups c b ≡ ok d)
        × (vec d.shared_cpus_set ≡ drop (dedicated groups) (vec b))
  unfolding allot_groups
  allot_groups-returns groups c b h =
      let one = dedicate-takes groups c b (omega arith) in
      let rest =
        overlap-returns groups none one.0.1 (record one.0.0 { shared_cpus_set = one.0.1 })
          (rw one.2 (omega (arith, length-drop (dedicated groups) (vec b) (omega arith)))) in
      (rest.0, rw (allot_groups, one.1) rest.1, ap vec rest.2 ∙ one.2)
