-- ===== src/Partitions/Devices.antt =====
-- Which gpus the partitions get, and over what the partitions are made.
use srf.Base.{
  ℕ, ◌/◌, ◌%◌, ◌≡◌, refl, ap, ◌∙◌, Bool, true, false, ◌&&◌, List, [], ◌∷◌, Option, none, some, ok,
  fatal, nat_key, length, ◌==◌, Bool-cases, inl, inr, ==_iff, arith, if_true,
}
use native.Mathlib.Nat.{mod-one, zero-mod}
use srf.Base.Map.{Map, keys}
use srf.Partitions.{
  PlacementStrategy, best_match_from, device_best_match, cpu_strategy, symmetric, partition_size,
  gpus_per_partition,
}

-- The id of the last of some gpus, or `top`.
abbrev pub last_id : Option ℕ → List ℕ → Option ℕ
last_id top [] = top
last_id top (k ∷ ks) = last_id (some k) ks

module _ {CpuSet : Type 0} (overlap : CpuSet → CpuSet → ℕ) where
  best_match_from-last :
      (cpu_set : CpuSet) (top : Option ℕ) (gpus : Map ℕ CpuSet)
      → best_match_from overlap cpu_set top 0 gpus ≡ last_id top (keys gpus)
  unfolding best_match_from
  best_match_from-last cpu_set top [] = refl
  best_match_from-last cpu_set top ((gpu_id, info) ∷ gpus) =
      ap (λ t. best_match_from overlap cpu_set t 0 gpus) (if_true (some gpu_id) top (ground arith))
      ∙ best_match_from-last cpu_set (some gpu_id) gpus

  -- Whatever the cpus of the partition and of the gpus, the gpu that is chosen is the one with the highest id, not
  -- the one whose cpus overlap most.
  pub device_best_match-last :
      (cpu_set : CpuSet) (remaining_gpus : Map ℕ CpuSet)
      → (device_best_match overlap cpu_set remaining_gpus).0 ≡ last_id none (keys remaining_gpus)
  unfolding device_best_match
  device_best_match-last cpu_set remaining_gpus = best_match_from-last cpu_set none remaining_gpus

gpus_per_partition-even :
    (gpu_count size : ℕ)
    → gpu_count % size ≡ 0
    → gpus_per_partition gpu_count size ≡ ok (gpu_count / size)
unfolding gpus_per_partition
gpus_per_partition-even gpu_count size h =
    if_true (ok (gpu_count / size)) fatal ((==_iff (gpu_count % size) 0).1 h)

both_true : (a b : Bool) → (a && b) ≡ true → (a ≡ true) × (b ≡ true)
both_true true b h = (refl, h)
both_true false b h = absurd cc

symmetric-even :
    (gpu_count numa_count : ℕ) (weights : List ℕ)
    → symmetric gpu_count numa_count weights ≡ true
    → gpu_count % numa_count ≡ 0
unfolding symmetric
symmetric-even gpu_count numa_count weights h =
    let parts = both_true (numa_count == length weights) _ h in
    let rest = both_true (gpu_count % length weights == 0) _ parts.1 in
    ap (λ k. gpu_count % k) ((==_iff numa_count (length weights)).0 parts.0)
    ∙ (==_iff (gpu_count % length weights) 0).0 rest.0

-- With at least one gpu on a NUMA node if there is one at all, the strategy that is chosen divides the gpus evenly, so
-- the check of the number of gpus passes, with as many gpus for each of the partitions.
pub cpu_strategy-divides :
    (strategy : PlacementStrategy) (gpu_count numa_count : ℕ) (weights : List ℕ)
    → (weights ≡ [] → gpu_count ≡ 0)
    → let size = partition_size (cpu_strategy strategy gpu_count numa_count weights) numa_count in
      gpus_per_partition gpu_count size ≡ ok (gpu_count / size)
unfolding cpu_strategy gpus_per_partition symmetric
cpu_strategy-divides PlacementStrategy.per_machine gpu_count numa_count weights h =
    gpus_per_partition-even gpu_count 1 (mod-one gpu_count)
cpu_strategy-divides PlacementStrategy.per_numa_node gpu_count numa_count [] h =
    gpus_per_partition-even gpu_count numa_count
      (ap (λ k. k % numa_count) (h refl) ∙ zero-mod numa_count)
cpu_strategy-divides PlacementStrategy.per_numa_node gpu_count numa_count (w ∷ ws) h =
    elim (Bool-cases (symmetric gpu_count numa_count (w ∷ ws))) [
      | inl even ↦ rw even (
          gpus_per_partition-even gpu_count numa_count
            (symmetric-even gpu_count numa_count (w ∷ ws) even))
      | inr uneven ↦ rw uneven (gpus_per_partition-even gpu_count 1 (mod-one gpu_count))
    ]
