-- ===== src/Partitions/Forming/Whole.antt =====
-- The partitions, once they are formed.
use srf.Base.{
  ℕ, ◌*◌, ◌/◌, ◌%◌, max, ◌<◌, ◌≤◌, ◌≡◌, refl, sym, ap, ◌∙◌, Bool, true, false, ◌||◌, [], ◌∷◌,
  nat_key, ok, length, contains, All, Distinct, ==_iff, arith, leb, Bool-cases, inl, inr,
}
use native.Mathlib.Nat.{div-add-mod}
use srf.Base.Map.{Map, keys}
use srf.Partitions.{PlacementResources, gpus_per_partition}
use srf.Partitions.Forming.{Topology, Forming, form, unformed}
use srf.Partitions.Forming.Assigning.{assigned, IsPartial}
use srf.Partitions.Forming.Filling.{HasCores, hosts_per, form_from-Fills}

none_left : {V : Type 0} (m : Map ℕ V) → length m ≡ 0 → m ≡ []
none_left [] h = refl
none_left (e ∷ m) h = absurd omega arith

or_false : (x y c : Bool) → (x || y) ≡ c → y ≡ false → x ≡ c
or_false true y c h k = h
or_false false y c h k = sym k ∙ h

leb-le : (a b : ℕ) → leb a b ≡ true → a ≤ b
leb-le a b h = ground arith

leb-gt : (a b : ℕ) → leb a b ≡ false → b < a
leb-gt a b h = ground arith

-- As many turns as there are gpus, or more.
enough : (total size : ℕ) → total % size ≡ 0 → total ≤ size * max (total / size) 1
enough total size h =
    let q = total / size in
    let whole : size * q ≡ total = omega (arith, div-add-mod total size, h) in
    elim (Bool-cases (leb 1 q)) [
      | inl some_each ↦
          let e : max q 1 ≡ q = omega (arith, leb-le 1 q some_each) in rw e (omega (arith, whole))
      | inr none_each ↦
          let e : q ≡ 0 = omega (arith, leb-gt 1 q none_each) in
          let nothing : total ≡ 0 = sym whole ∙ ap (λ k. size * k) e ∙ omega arith in
          omega (arith, nothing)
    ]

module _ {CpuSet : Type 0} (topology : Topology CpuSet) where
  unformed-IsPartial :
      Distinct (keys topology.gpu_info) → IsPartial topology.gpu_info (unformed topology)
  unfolding contains
  unformed-IsPartial d = record {
    once = tt;
    apart = d;
    covered = λ a. refl;
    disjoint = λ a. refl;
    counted = omega arith;
    hosted = tt;
  }

module _ {CpuSet : Type 0} (overlap : CpuSet → CpuSet → ℕ) (append : CpuSet → CpuSet → CpuSet)
    (empty : CpuSet) (topology : Topology CpuSet) where
  -- Over a number of objects that divides the number of the gpus, each with a core for each share if the cores are
  -- split, the partitions are formed and all checks pass: every gpu of the machine is assigned, once, to a host
  -- partition that there is, and each object has one host partition, or one for each share if the cores are split.
  pub form-assigns :
      (strategy : PlacementResources) (partition_size : ℕ)
      → Distinct (keys topology.gpu_info)
      → length topology.gpu_info % partition_size ≡ 0
      → HasCores topology strategy (max (length topology.gpu_info / partition_size) 1)
      → (t : Forming CpuSet) × (form overlap append empty topology strategy partition_size
            (unformed topology)
          ≡ (ok tt, t))
        × Distinct (assigned t)
        × ((a : ℕ) → contains a (assigned t) ≡ contains a (keys topology.gpu_info))
        × All (λ d. d.host_partition_id < length t.host_partitions) t.device_partitions
        × (length t.host_partitions
            ≡ partition_size
              * hosts_per strategy (max (length topology.gpu_info / partition_size) 1))
  unfolding form gpus_per_partition contains
  form-assigns strategy size d h c =
      let total = length topology.gpu_info in
      let count = max (total / size) 1 in
      let f =
        form_from-Fills overlap append empty topology strategy count 0 size (unformed topology) c
          (unformed-IsPartial topology d) in
      let t = f.next in
      let gone : length t.remaining_gpus ≡ 0 = omega (arith, f.left, enough total size h) in
      let all : total ≡ length t.device_partitions = omega (arith, f.partial.counted, gone) in
      let empty_now = none_left t.remaining_gpus gone in
      (
        t,
        rw
            (
              (==_iff (total % size) 0).1 h,
              f.fills,
              (==_iff total (length t.device_partitions)).1 all,
              gone,
            )
            refl,
        f.partial.once,
        λ a.
            or_false (contains a (assigned t)) _ _ (f.partial.covered a)
              (ap (λ m. contains a (keys m)) empty_now),
        f.partial.hosted,
        omega (arith, f.hosts),
      )
