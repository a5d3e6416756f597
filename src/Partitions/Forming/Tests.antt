-- ===== src/Partitions/Forming/Tests.antt =====
-- A machine with two gpus, whose four cores are split.
use srf.Base.{
  ℕ, ◌*◌, ◌/◌, max, ◌<◌, ◌≡◌, refl, List, [], ◌∷◌, ◌++◌, some, nat_key, ok, length, contains, All,
  Distinct, arith,
}
use srf.Base.Map.{erase}
use srf.Partitions.{PlacementResources}
use srf.Partitions.Forming.{Topology, Forming, form, unformed}
use srf.Partitions.Forming.Assigning.{assigned}
use srf.Partitions.Forming.Filling.{hosts_per}
use srf.Partitions.Forming.Whole.{form-assigns}

abbrev machine : Topology (List ℕ)
machine = record {
  gpu_info = (0, 0 ∷ 1 ∷ []) ∷ (1, 2 ∷ 3 ∷ []) ∷ [];
  cpuset = λ p. 0 ∷ 1 ∷ 2 ∷ 3 ∷ [];
  total_memory = λ p. 1024;
  core_count = λ p. some 4;
  core = λ p i. i ∷ [];
}

abbrev common_cpus : List ℕ → List ℕ → ℕ
common_cpus a b = length b

abbrev all_cpus : List ℕ → List ℕ → List ℕ
all_cpus a b = a ++ b

form-assigns_example :
    (t : Forming (List ℕ)) × (form common_cpus all_cpus [] machine PlacementResources.dedicated 1
        (unformed machine)
      ≡ (ok tt, t))
    × Distinct (assigned t)
    × ((a : ℕ) → contains a (assigned t) ≡ contains a (0 ∷ 1 ∷ []))
    × All (λ d. d.host_partition_id < length t.host_partitions) t.device_partitions
    × (length t.host_partitions ≡ 1 * hosts_per PlacementResources.dedicated (max (2 / 1) 1))
form-assigns_example =
    form-assigns common_cpus all_cpus [] machine PlacementResources.dedicated 1
      (((λ e. absurd omega arith), tt), (tt, tt)) refl λ p. (4, refl, omega arith)

-- The first host partition gets the second gpu.
last_gpu_first :
    (form common_cpus all_cpus [] machine PlacementResources.dedicated 1
      (unformed machine)).1.device_partitions
    ≡ (record { cuda_device_id = 1; host_partition_id = 0 }
        ∷ record { cuda_device_id = 0; host_partition_id = 1 }
        ∷ [])
unfolding form contains erase
last_gpu_first = refl
