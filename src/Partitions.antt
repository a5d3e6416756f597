-- ===== src/Partitions.antt =====
-- src/internal/system/partitions.cpp: how the cpus and gpus of a machine are split into partitions.
pub mod Cores
pub mod Devices
pub mod Forming
mod Tests
use srf.Base.{
  ℕ, suc, ◌+◌, ◌-◌, ◌*◌, ◌/◌, ◌%◌, Bool, true, ◌&&◌, List, [], ◌∷◌, Option, none, some, nat_key,
  Outcome, ok, fatal, length, ltb, ◌==◌, if◌then◌else◌,
}
use srf.Base.Map.{Map, erase}

-- div_even: the number of cores `nr` of share `me`, and the first of them, `sr`.
unfoldable pub div_even : ℕ → ℕ → ℕ → ℕ × ℕ
div_even n np me =
    let nr = n / np in
    let ne = n % np in (nr, if ltb me ne then (nr + 1) * me else (nr + 1) * ne + nr * (me - ne))

pub data PlacementStrategy : Type 0 where
  per_machine per_numa_node : PlacementStrategy

pub data PlacementResources : Type 0 where
  dedicated shared : PlacementResources

-- gpu_bitmap.weight() != div
abbrev pub all_equal : ℕ → List ℕ → Bool
all_equal div [] = true
all_equal div (w ∷ ws) = w == div && all_equal div ws

-- The numbers of gpus of the NUMA nodes that have gpus, in `weights`.
unfoldable pub symmetric : ℕ → ℕ → List ℕ → Bool
symmetric gpu_count numa_count weights =
    numa_count == length weights
    && (gpu_count % length weights == 0 && all_equal (gpu_count / length weights) weights)

unfoldable pub cpu_strategy : PlacementStrategy → ℕ → ℕ → List ℕ → PlacementStrategy
cpu_strategy PlacementStrategy.per_machine gpu_count numa_count weights =
    PlacementStrategy.per_machine
cpu_strategy PlacementStrategy.per_numa_node gpu_count numa_count [] =
    PlacementStrategy.per_numa_node
cpu_strategy PlacementStrategy.per_numa_node gpu_count numa_count (w ∷ ws) =
    if symmetric gpu_count numa_count (w ∷ ws)
    then PlacementStrategy.per_numa_node
    else PlacementStrategy.per_machine

unfoldable pub device_to_host_strategy : PlacementResources → ℕ → ℕ → PlacementResources
device_to_host_strategy PlacementResources.shared cpu_count gpu_count = PlacementResources.shared
device_to_host_strategy PlacementResources.dedicated cpu_count gpu_count =
    if ltb cpu_count gpu_count then PlacementResources.shared else PlacementResources.dedicated

-- The objects that the host partitions are made over: the machine, or the NUMA nodes.
abbrev pub partition_size : PlacementStrategy → ℕ → ℕ
partition_size PlacementStrategy.per_machine numa_count = 1
partition_size PlacementStrategy.per_numa_node numa_count = numa_count

-- A machine has a NUMA node at least, so that the size is not 0.
unfoldable pub gpus_per_partition : ℕ → ℕ → Outcome ℕ
gpus_per_partition gpu_count size = if gpu_count % size == 0 then ok (gpu_count / size) else fatal

-- Sets of cpus: `overlap` is the weight of the intersection, `covers` says whether the first contains the second.
module _ {CpuSet : Type 0} (overlap : CpuSet → CpuSet → ℕ) where
  -- The loop, with top_idx, where `none` is -1, and the successor of top_score, which no turn changes.
  pub best_match_from : CpuSet → Option ℕ → ℕ → Map ℕ CpuSet → Option ℕ
  best_match_from cpu_set top_idx top_score [] = top_idx
  best_match_from cpu_set top_idx top_score ((gpu_id, info) ∷ gpus) =
      best_match_from cpu_set
        (if ltb top_score (suc (overlap cpu_set info)) then some gpu_id else top_idx) top_score gpus

  -- The gpu that is chosen, and the gpus that remain.
  unfoldable pub device_best_match : CpuSet → Map ℕ CpuSet → Option ℕ × Map ℕ CpuSet
  unfolding best_match_from
  device_best_match cpu_set remaining_gpus =
      let top_idx = best_match_from cpu_set none 0 remaining_gpus in
      (top_idx, elim top_idx [ none ↦ remaining_gpus | some gpu_id ↦ erase gpu_id remaining_gpus ])

module _ {CpuSet : Type 0} (weight : CpuSet → ℕ) (covers : CpuSet → CpuSet → Bool) where
  first_containing : List CpuSet → CpuSet → Outcome CpuSet
  first_containing [] cpu_set = fatal
  first_containing (partition ∷ partitions) cpu_set =
      let rest = first_containing partitions cpu_set in
      if covers partition cpu_set then ok partition else rest

  unfoldable pub host_partition_containing : List CpuSet → CpuSet → Outcome CpuSet
  unfolding first_containing
  host_partition_containing partitions cpu_set =
      if ltb 0 (weight cpu_set) then first_containing partitions cpu_set else fatal
