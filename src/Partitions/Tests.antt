-- ===== src/Partitions/Tests.antt =====
-- Ten cores in four shares, and two gpus on two NUMA nodes.
use srf.Base.{ℕ, ◌+◌, ◌/◌, ◌%◌, ◌≤◌, ◌<◌, ◌≡◌, refl, [], ◌∷◌, ok, none, arith}
use srf.Partitions.{
  PlacementStrategy, div_even, device_best_match, cpu_strategy, partition_size, gpus_per_partition,
}
use srf.Partitions.Cores.{div_even-shares}
use srf.Partitions.Devices.{cpu_strategy-divides, device_best_match-last, last_id}

-- The shares start at the cores 0, 3, 6 and 8 with two cores each, so that the cores 2 and 5 are in none.
four_shares :
    (div_even 10 4 0 ≡ (2, 0))
    × (div_even 10 4 1 ≡ (2, 3))
    × (div_even 10 4 2 ≡ (2, 6))
    × (div_even 10 4 3 ≡ (2, 8))
unfolding div_even
four_shares = (refl, refl, refl, refl)

div_even-shares_example :
    ((div_even 10 4 1).1 + (div_even 10 4 1).0 ≤ 10)
    × ((div_even 10 4 1).0 ≡ 10 / 4)
    × (1 < 10 % 4 → (div_even 10 4 2).1 ≡ (div_even 10 4 1).1 + (div_even 10 4 1).0 + 1)
    × (10 % 4 ≤ 1 → (div_even 10 4 2).1 ≡ (div_even 10 4 1).1 + (div_even 10 4 1).0)
div_even-shares_example = div_even-shares 10 4 1 (omega arith)

-- The first gpu has all the cpus of the partition, and the second has none.
abbrev gpu_only : ℕ → ℕ → ℕ
gpu_only a b = b

device_best_match-last_example :
    (device_best_match gpu_only 8 ((0, 8) ∷ (1, 0) ∷ [])).0 ≡ last_id none (0 ∷ 1 ∷ [])
device_best_match-last_example = device_best_match-last gpu_only 8 ((0, 8) ∷ (1, 0) ∷ [])

cpu_strategy-divides_example :
    gpus_per_partition 2
      (partition_size (cpu_strategy PlacementStrategy.per_numa_node 2 2 (1 ∷ 1 ∷ [])) 2)
    ≡ ok (2 / partition_size (cpu_strategy PlacementStrategy.per_numa_node 2 2 (1 ∷ 1 ∷ [])) 2)
cpu_strategy-divides_example =
    cpu_strategy-divides PlacementStrategy.per_numa_node 2 2 (1 ∷ 1 ∷ []) λ h. absurd cc
