-- ===== src/Partitions/Forming/Filling.antt =====
-- The loops over the objects and their shares.
use srf.Base.{
  ℕ, suc, zero, ◌+◌, ◌-◌, ◌*◌, ◌/◌, ◌<◌, ◌≤◌, ◌≡◌, refl, ap, ◌∙◌, true, List, [], ◌∷◌, some,
  nat_key, Outcome, ok, M, and_then, length, length-append, All-weaken, leb, arith,
}
use srf.Base.Map.{Map}
use srf.Partitions.{PlacementResources}
use srf.Partitions.Forming.{
  Topology, Forming, push_host, split_cores, assign_gpu, form_shared, form_dedicated,
  form_partition, form_from,
}
use srf.Partitions.Forming.Assigning.{IsPartial, assign_gpu-Assigns}

module _ {CpuSet : Type 0} (gpus : Map ℕ CpuSet) where
  -- A call that makes `n` assignments, as long as gpus remain, and `k` host partitions.
  pub record Fills (r : Outcome (Unit {0}) × Forming CpuSet) (s : Forming CpuSet) (n k : ℕ)
      : Type 0 where
    pub next : Forming CpuSet
    pub fills : r ≡ (ok tt, next)
    pub partial : IsPartial gpus next
    pub hosts : length next.host_partitions ≡ length s.host_partitions + k
    pub left : length next.remaining_gpus ≡ length s.remaining_gpus - n

  Fills-and_then :
      (r : Outcome (Unit {0}) × Forming CpuSet) (f : M (Forming CpuSet) (Unit {0}))
      (s : Forming CpuSet) (n k m l n' k' : ℕ)
      → (a : Fills r s n k) → Fills (f a.next) a.next m l
      → n + m ≡ n'
      → k + l ≡ k'
      → Fills (and_then r λ _. f) s n' k'
  Fills-and_then r f s n k m l n' k' a b c d = record {
    next = b.next;
    fills = rw a.fills b.fills;
    partial = b.partial;
    hosts = omega (arith, a.hosts, b.hosts);
    left = omega (arith, a.left, b.left);
  }

  push_host-IsPartial :
      (cpu_set : CpuSet) (memory : ℕ) (s : Forming CpuSet)
      → IsPartial gpus s
      → IsPartial gpus (push_host cpu_set memory s)
  unfolding push_host
  push_host-IsPartial cpu_set memory s i = record {
    once = i.once;
    apart = i.apart;
    covered = i.covered;
    disjoint = i.disjoint;
    counted = i.counted;
    hosted =
        All-weaken s.device_partitions
          (λ d h. omega (
            arith,
            h,
            length-append s.host_partitions (
                (record { cpu_set = cpu_set; host_memory = memory; device_partition_ids = [] })
                ∷ []),
          ))
          i.hosted;
  }

  push_host-hosts :
      (cpu_set : CpuSet) (memory : ℕ) (s : Forming CpuSet)
      → length (push_host cpu_set memory s).host_partitions ≡ length s.host_partitions + 1
  unfolding push_host
  push_host-hosts cpu_set memory s = length-append s.host_partitions _

  push_host-remaining :
      (cpu_set : CpuSet) (memory : ℕ) (s : Forming CpuSet)
      → (push_host cpu_set memory s).remaining_gpus ≡ s.remaining_gpus
  unfolding push_host
  push_host-remaining cpu_set memory s = refl

  module _ (overlap : CpuSet → CpuSet → ℕ) where
    assign-Fills :
        (s : Forming CpuSet)
        → IsPartial gpus s
        → 0 < length s.host_partitions
        → Fills (assign_gpu overlap s) s 1 0
    assign-Fills s i p =
        let a = assign_gpu-Assigns overlap gpus s i p in
        record {
          next = a.next;
          fills = a.assigns;
          partial = a.partial;
          hosts = omega (arith, a.hosts);
          left = a.left;
        }

    form_shared-Fills :
        (n : ℕ) (s : Forming CpuSet)
        → IsPartial gpus s
        → 0 < length s.host_partitions
        → Fills (form_shared overlap n s) s n 0
    unfolding form_shared
    form_shared-Fills zero s i p = record {
      next = s;
      fills = refl;
      partial = i;
      hosts = omega arith;
      left = omega arith;
    }
    form_shared-Fills (suc n) s i p =
        let a = assign-Fills s i p in
        let b = form_shared-Fills n (a.next) a.partial (omega (arith, p, a.hosts)) in
        Fills-and_then (assign_gpu overlap s) (form_shared overlap n) s 1 0 n 0 (suc n) 0 a b
          (omega arith) (omega arith)

    -- A host partition and a gpu for it.
    push-Fills :
        (cpu_set : CpuSet) (memory : ℕ) (s : Forming CpuSet)
        → IsPartial gpus s
        → Fills (assign_gpu overlap (push_host cpu_set memory s)) s 1 1
    push-Fills cpu_set memory s i =
        let t = push_host cpu_set memory s in
        let h = push_host-hosts cpu_set memory s in
        let a = assign-Fills t (push_host-IsPartial cpu_set memory s i) (omega (arith, h)) in
        record {
          next = a.next;
          fills = a.fills;
          partial = a.partial;
          hosts = omega (arith, a.hosts, h);
          left = a.left ∙ ap (λ m. length m - 1) (push_host-remaining cpu_set memory s);
        }

    form_dedicated-Fills :
        (cpu_sets : List CpuSet) (memory : ℕ) (s : Forming CpuSet)
        → IsPartial gpus s
        → Fills (form_dedicated overlap cpu_sets memory s) s (length cpu_sets) (length cpu_sets)
    unfolding form_dedicated
    form_dedicated-Fills [] memory s i = record {
      next = s;
      fills = refl;
      partial = i;
      hosts = omega arith;
      left = omega arith;
    }
    form_dedicated-Fills (c ∷ cs) memory s i =
        let a = push-Fills c memory s i in
        let b = form_dedicated-Fills cs memory (a.next) a.partial in
        Fills-and_then (assign_gpu overlap (push_host c memory s))
          (form_dedicated overlap cs memory) s 1 1 (length cs) (length cs) (suc (length cs))
          (suc (length cs)) a b (omega arith) (omega arith)

length-split_cores :
    {CpuSet : Type 0} (append : CpuSet → CpuSet → CpuSet) (empty : CpuSet)
    (topology : Topology CpuSet) (p_id cores count i left : ℕ)
    → length (split_cores append empty topology p_id cores count i left) ≡ left
unfolding split_cores
length-split_cores append empty topology p_id cores count i zero = refl
length-split_cores append empty topology p_id cores count i (suc left) =
    ap suc (length-split_cores append empty topology p_id cores count (suc i) left)

-- How many host partitions are made over an object.
abbrev pub hosts_per : PlacementResources → ℕ → ℕ
hosts_per PlacementResources.dedicated count = count
hosts_per PlacementResources.shared count = 1

-- To be split, every object has a core for each share.
abbrev pub HasCores : {CpuSet : Type 0} → Topology CpuSet → PlacementResources → ℕ → Type 0
HasCores topology PlacementResources.dedicated count =
    (p_id : ℕ) → (cores : ℕ) × (topology.core_count p_id ≡ some cores) × (count ≤ cores)
HasCores topology PlacementResources.shared count = Unit {0}

module _ {CpuSet : Type 0} (overlap : CpuSet → CpuSet → ℕ) (append : CpuSet → CpuSet → CpuSet)
    (empty : CpuSet) (topology : Topology CpuSet) where
  form_partition-Fills :
      (strategy : PlacementResources) (count p_id : ℕ) (s : Forming CpuSet)
      → HasCores topology strategy count
      → IsPartial topology.gpu_info s
      → Fills topology.gpu_info
          (form_partition overlap append empty topology strategy count p_id s)
          s
          count
          (hosts_per strategy count)
  unfolding form_partition
  form_partition-Fills PlacementResources.dedicated count p_id s h i =
      let (cores, found, enough) = h p_id in
      let sets = split_cores append empty topology p_id cores count 0 count in
      let fits : leb count cores ≡ true = ground arith in
      let f =
        form_dedicated-Fills topology.gpu_info overlap sets (topology.total_memory p_id / count) s
          i in
      let size = length-split_cores append empty topology p_id cores count 0 count in
      record {
        next = f.next;
        fills = rw (form_partition, found, fits) f.fills;
        partial = f.partial;
        hosts = omega (arith, f.hosts, size);
        left = omega (arith, f.left, size);
      }
  form_partition-Fills PlacementResources.shared count p_id s h i =
      let t = push_host (topology.cpuset p_id) (topology.total_memory p_id) s in
      let more =
        push_host-hosts topology.gpu_info (topology.cpuset p_id) (topology.total_memory p_id) s in
      let f =
        form_shared-Fills topology.gpu_info overlap count t
          (push_host-IsPartial topology.gpu_info (topology.cpuset p_id) (topology.total_memory p_id)
            s i)
          (omega (arith, more)) in
      record {
        next = f.next;
        fills = f.fills;
        partial = f.partial;
        hosts = omega (arith, f.hosts, more);
        left =
            f.left
            ∙ ap (λ m. length m - count)
                (push_host-remaining topology.gpu_info (topology.cpuset p_id)
                  (topology.total_memory p_id) s);
      }

  pub form_from-Fills :
      (strategy : PlacementResources) (count p_id left : ℕ) (s : Forming CpuSet)
      → HasCores topology strategy count
      → IsPartial topology.gpu_info s
      → Fills topology.gpu_info
          (form_from overlap append empty topology strategy count p_id left s)
          s
          (left * count)
          (left * hosts_per strategy count)
  unfolding form_from
  form_from-Fills strategy count p_id zero s h i = record {
    next = s;
    fills = refl;
    partial = i;
    hosts = omega arith;
    left = omega arith;
  }
  form_from-Fills strategy count p_id (suc left) s h i =
      let a = form_partition-Fills strategy count p_id s h i in
      let b = form_from-Fills strategy count (suc p_id) left (a.next) h a.partial in
      Fills-and_then topology.gpu_info
        (form_partition overlap append empty topology strategy count p_id s)
        (form_from overlap append empty topology strategy count (suc p_id) left) s count
        (hosts_per strategy count) (left * count) (left * hosts_per strategy count)
        (suc left * count) (suc left * hosts_per strategy count) a b (omega arith) (omega arith)
