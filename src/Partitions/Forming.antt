-- ===== src/Partitions/Forming.antt =====
-- src/internal/system/partitions.cpp: the loops that fill the partitions, with host_partition.cpp and
-- device_partition.cpp. What hwloc says of the machine is a parameter.
mod Erasing
pub mod Assigning
pub mod Filling
pub mod Whole
mod Tests
use srf.Base.{
  ℕ, suc, zero, ◌+◌, ◌-◌, ◌/◌, max, List, [], ◌∷◌, ◌++◌, Option, none, some, nat_key, Outcome, ok,
  throws, fatal, Exception, M, and_then, ◌>>◌, check, length, get_elem?, leb, ◌==◌,
}
use srf.Base.Map.{Map}
use srf.Partitions.{PlacementResources, div_even, gpus_per_partition, device_best_match}

-- The gpus and their cpus, and of each of the objects that the host partitions are made over: its cpus, its memory,
-- the number of its cores, where `none` is an error, and the cpus of a core.
pub record Topology (CpuSet : Type 0) : Type 0 where
  pub gpu_info : Map ℕ CpuSet
  pub cpuset : ℕ → CpuSet
  pub total_memory : ℕ → ℕ
  pub core_count : ℕ → Option ℕ
  pub core : ℕ → ℕ → CpuSet

pub record HostPartition (CpuSet : Type 0) : Type 0 where
  pub cpu_set : CpuSet
  pub host_memory : ℕ
  pub device_partition_ids : List ℕ

pub record DevicePartition : Type 0 where
  pub cuda_device_id : ℕ
  pub host_partition_id : ℕ

-- m_host_partitions, m_device_partitions and remaining_gpus
pub record Forming (CpuSet : Type 0) : Type 0 where
  pub host_partitions : List (HostPartition CpuSet)
  pub device_partitions : List DevicePartition
  pub remaining_gpus : Map ℕ CpuSet

abbrev pub unformed : {CpuSet : Type 0} → Topology CpuSet → Forming CpuSet
unformed topology = record {
  host_partitions = [];
  device_partitions = [];
  remaining_gpus = topology.gpu_info;
}

unfoldable pub push_host : {CpuSet : Type 0} → CpuSet → ℕ → Forming CpuSet → Forming CpuSet
push_host cpu_set memory s = record s {
  host_partitions =
      s.host_partitions
      ++ (record { cpu_set = cpu_set; host_memory = memory; device_partition_ids = [] } ∷ []);
}

-- m_host_partitions[i].add_device_partition_id(id)
unfoldable pub add_device_partition_id :
    {CpuSet : Type 0} → ℕ → ℕ → List (HostPartition CpuSet) → List (HostPartition CpuSet)
add_device_partition_id i id [] = []
add_device_partition_id zero id (h ∷ hs) =
    record h { device_partition_ids = h.device_partition_ids ++ (id ∷ []) } ∷ hs
add_device_partition_id (suc i) id (h ∷ hs) = h ∷ add_device_partition_id i id hs

-- The gpu that was chosen goes to the host partition that was pushed last.
unfoldable pub place :
    {CpuSet : Type 0}
    → Forming CpuSet
    → Option ℕ × Map ℕ CpuSet
    → Outcome (Unit {0}) × Forming CpuSet
unfolding add_device_partition_id
place s (none, remaining) = (throws Exception.out_of_range, s)
place s (some id, remaining) =
    let host_partition_id = length s.host_partitions - 1 in
    (
      ok tt,
      record {
        host_partitions =
            add_device_partition_id host_partition_id (length s.device_partitions)
              s.host_partitions;
        device_partitions =
            s.device_partitions
            ++ (record { cuda_device_id = id; host_partition_id = host_partition_id } ∷ []);
        remaining_gpus = remaining;
      },
    )

module _ {CpuSet : Type 0} (append : CpuSet → CpuSet → CpuSet) (empty : CpuSet)
    (topology : Topology CpuSet) where
  -- The cpus of `nc` cores, from core `ic` on.
  unfoldable pub append_cores : ℕ → CpuSet → ℕ → ℕ → CpuSet
  append_cores p_id cpu_set ic zero = cpu_set
  append_cores p_id cpu_set ic (suc nc) =
      append_cores p_id (append cpu_set (topology.core p_id ic)) (suc ic) nc

  -- The shares of `core_count` cores from share `i` on, of which `left` are left.
  unfoldable pub split_cores : ℕ → ℕ → ℕ → ℕ → ℕ → List CpuSet
  unfolding append_cores div_even
  split_cores p_id core_count count i zero = []
  split_cores p_id core_count count i (suc left) =
      let (nc, sc) = div_even core_count count i in
      append_cores p_id empty sc nc ∷ split_cores p_id core_count count (suc i) left

module _ {CpuSet : Type 0} (overlap : CpuSet → CpuSet → ℕ) where
  unfoldable pub assign_to :
      Option (HostPartition CpuSet) → Map ℕ CpuSet → M (Forming CpuSet) (Unit {0})
  unfolding device_best_match place
  assign_to none gpus s = (fatal, s)
  assign_to (some host) [] s = (ok tt, s)
  assign_to (some host) (gpu ∷ gpus) s =
      place s (device_best_match overlap host.cpu_set (gpu ∷ gpus))

  -- A gpu for that host partition, if one remains.
  unfoldable pub assign_gpu : M (Forming CpuSet) (Unit {0})
  unfolding assign_to
  assign_gpu s =
      assign_to (get_elem? s.host_partitions (length s.host_partitions - 1)) s.remaining_gpus s

  -- The partitions of one object, of which `left` are left.
  unfoldable pub form_shared : ℕ → M (Forming CpuSet) (Unit {0})
  unfolding assign_gpu
  form_shared zero s = (ok tt, s)
  form_shared (suc left) s = (assign_gpu >> form_shared left) s

  unfoldable pub form_dedicated : List CpuSet → ℕ → M (Forming CpuSet) (Unit {0})
  unfolding assign_gpu push_host
  form_dedicated [] memory s = (ok tt, s)
  form_dedicated (cpu_set ∷ cpu_sets) memory s =
      ((λ s. assign_gpu (push_host cpu_set memory s)) >> form_dedicated cpu_sets memory) s

module _ {CpuSet : Type 0} (overlap : CpuSet → CpuSet → ℕ) (append : CpuSet → CpuSet → CpuSet)
    (empty : CpuSet) (topology : Topology CpuSet) (strategy : PlacementResources) where
  -- The body of the loop over the objects.
  unfoldable pub form_partition : ℕ → ℕ → M (Forming CpuSet) (Unit {0})
  unfolding split_cores form_shared form_dedicated push_host
  form_partition count p_id s = elim strategy [
    | PlacementResources.dedicated ↦ elim (topology.core_count p_id) [
      | none ↦ (fatal, s)
      | some core_count ↦
          (check (leb count core_count)
              >> form_dedicated overlap
                  (split_cores append empty topology p_id core_count count 0 count)
                  (topology.total_memory p_id / count))
            s
    ]
    | PlacementResources.shared ↦
        form_shared overlap count (push_host (topology.cpuset p_id) (topology.total_memory p_id) s)
  ]

  unfoldable pub form_from : ℕ → ℕ → ℕ → M (Forming CpuSet) (Unit {0})
  unfolding form_partition
  form_from count p_id zero s = (ok tt, s)
  form_from count p_id (suc left) s =
      (form_partition count p_id >> form_from count (suc p_id) left) s

  -- From the number of gpus for each of the objects on.
  unfoldable pub form : ℕ → M (Forming CpuSet) (Unit {0})
  unfolding form_from gpus_per_partition
  form partition_size s =
      let gpu_count = length topology.gpu_info in
      and_then (gpus_per_partition gpu_count partition_size, s)
        λ gpus.
          form_from (max gpus 1) 0 partition_size
          >> ((λ s. check (gpu_count == length s.device_partitions) s) >> λ s.
              check (length s.remaining_gpus == 0) s)
