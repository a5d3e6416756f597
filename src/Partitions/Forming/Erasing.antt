-- ===== src/Partitions/Forming/Erasing.antt =====
-- A map that a key is erased from.
use srf.Base.{
  ℕ, suc, ◌≡◌, refl, ap, ◌∙◌, true, false, not, ◌&&◌, List, [], ◌∷◌, none, some, nat_key, length,
  contains, not-contains_iff, Distinct, ◌==◌, ==_iff, Bool-cases, inl, inr, arith,
}
use srf.Base.Map.{Map, keys, erase}
use srf.Partitions.{device_best_match}
use srf.Partitions.Devices.{last_id, device_best_match-last}

module _ {V : Type 0} where
  pub contains-erase :
      (a b : ℕ) (m : Map ℕ V)
      → contains b (keys (erase a m)) ≡ (contains b (keys m) && not (a == b))
  unfolding contains erase
  contains-erase a b [] = refl
  contains-erase a b ((c, v) ∷ m) = ground (arith, contains-erase a b m)

  erase-missing :
      (a : ℕ) (m : Map ℕ V) → contains a (keys m) ≡ false → length (erase a m) ≡ length m
  unfolding contains erase
  erase-missing a [] h = refl
  erase-missing a ((c, v) ∷ m) h = ground (arith, erase-missing a m)

  pub length-erase :
      (a : ℕ) (m : Map ℕ V)
      → Distinct (keys m)
      → contains a (keys m) ≡ true
      → suc (length (erase a m)) ≡ length m
  unfolding contains erase
  length-erase a [] d h = absurd cc
  length-erase a ((c, v) ∷ m) (d, ds) h = elim (Bool-cases (c == a)) [
    | inl this ↦ rw this (
        ap suc
          (erase-missing a m (rw ((==_iff c a).0 this) at ((not-contains_iff c (keys m)).1 d))))
    | inr other ↦ rw other (ap suc (length-erase a m ds (rw other at h)))
  ]

  pub Distinct-erase : (a : ℕ) (m : Map ℕ V) → Distinct (keys m) → Distinct (keys (erase a m))
  unfolding erase
  Distinct-erase a [] d = tt
  Distinct-erase a ((c, v) ∷ m) (d, ds) = elim (Bool-cases (c == a)) [
    | inl this ↦ rw this (Distinct-erase a m ds)
    | inr other ↦ rw other (
      (not-contains_iff c (keys (erase a m))).0
          (ground (arith, contains-erase a c m, (not-contains_iff c (keys m)).1 d)),
      Distinct-erase a m ds,
    )
  ]

last_id-contains :
    (k : ℕ) (ks : List ℕ)
    → (id : ℕ) × (last_id (some k) ks ≡ some id) × (contains id (k ∷ ks) ≡ true)
unfolding contains
last_id-contains k [] = (k, refl, ground arith)
last_id-contains k (l ∷ ks) = let r = last_id-contains l ks in (r.0, r.1, ground (arith, r.2))

module _ {CpuSet : Type 0} (overlap : CpuSet → CpuSet → ℕ) where
  -- A gpu is chosen, if there is one, and taken from those that remain.
  pub device_best_match-takes :
      (cpu_set gpu : CpuSet) (k : ℕ) (gpus : Map ℕ CpuSet)
      → (id : ℕ) × (device_best_match overlap cpu_set ((k, gpu) ∷ gpus)
          ≡ (some id, erase id ((k, gpu) ∷ gpus)))
        × (contains id (k ∷ keys gpus) ≡ true)
  unfolding device_best_match
  device_best_match-takes cpu_set gpu k gpus =
      let r = last_id-contains k (keys gpus) in
      let chosen = device_best_match-last overlap cpu_set ((k, gpu) ∷ gpus) ∙ r.1 in
      (r.0, both r.0 chosen, r.2)
    where
      both :
          (id : ℕ)
          → (device_best_match overlap cpu_set ((k, gpu) ∷ gpus)).0 ≡ some id
          → device_best_match overlap cpu_set ((k, gpu) ∷ gpus)
            ≡ (some id, erase id ((k, gpu) ∷ gpus))
      both id h =
          ap (λ t. (t, elim t [ none ↦ (k, gpu) ∷ gpus | some g ↦ erase g ((k, gpu) ∷ gpus) ])) h
