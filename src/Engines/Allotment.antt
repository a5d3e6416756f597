-- ===== src/Engines/Allotment.antt =====
-- With enough cpus, every group gets its pool and the shared cpus are the highest ones.
use srf.Base.{
  ℕ, suc, ◌+◌, ◌-◌, ◌%◌, ◌≤◌, ◌<◌, ◌≡◌, ◌≢◌, refl, ap, ◌∙◌, Bool, true, false, text_key, length,
  arith, ok, throws, Exception, Ensures-ok, ltb, ◌==◌,
}
use native.Mathlib.Nat.{mod-eq_of_lt}
use srf.Base.Map.{insert}
use srf.Bitmap.Indexes.{drop, length-drop, length-take}
use srf.Bitmap.Interface.{Hwloc}
use srf.Bitmap.{vec, on, new_bitmap, pop}
use srf.Bitmap.Taking.{pop-takes}
use srf.EngineGroups.{
  EngineType, fiber, thread, process, EngineGroups, Groups, Options, size, main_name,
  engine_groups_map, tally, no_tally, min_cpu_count,
}
use srf.Engines.{
  EngineFactoryCpuSets, default_pool, main_pool, mark_reusable, new_config, allot,
  generate_engine_factory_cpu_sets,
}
use srf.Engines.Counts.{dedicated, widest, min_cpu_count-tally}
use srf.Engines.Pools.{drop-drop, first-returns, allot_groups-returns}

-- What the groups need at least, without the cpu for main.
abbrev pub demand : Options → ℕ
demand o = widest (engine_groups_map o) + dedicated (engine_groups_map o)

counted :
    (o : Options)
    → suc (demand o) < size
    → min_cpu_count (tally (engine_groups_map o) no_tally) ≡ demand o
counted o h = min_cpu_count-tally (engine_groups_map o) (omega arith)

next_count : (o : Options) → suc (demand o) < size → (demand o + 1) % size ≡ suc (demand o)
next_count o h = mod-eq_of_lt (omega arith) ∙ omega arith

module _ {B : Type 0} ⦃hwloc : Hwloc B⦄ where
  default_pool-returns :
      (e : EngineType) (b : B) (c : EngineFactoryCpuSets B)
      → e ≢ process
      → (d : EngineFactoryCpuSets B) × (default_pool e b c ≡ ok d)
  unfolding default_pool
  default_pool-returns fiber b c h = (_, refl)
  default_pool-returns thread b c h = (_, refl)
  default_pool-returns process b c h = absurd (h refl)

  main_pool-returns :
      (d : Bool) (b : B) (c : EngineFactoryCpuSets B)
      → 0 < length (vec b)
      → (e : EngineFactoryCpuSets B) × (main_pool d b c ≡ ok e)
  unfolding main_pool
  main_pool-returns true b c h = (c, refl)
  main_pool-returns false b c h =
      let one = first-returns b h in
      (
        record c { fiber_cpu_sets = insert main_name (on one.0 new_bitmap) c.fiber_cpu_sets },
        rw (main_pool, one.1),
      )

  allot-returns :
      (g : EngineGroups) (groups : Groups) (n : ℕ) (has_fibers : Bool) (cpu_set : B)
      → 0 < n
      → n + (widest groups + dedicated groups) ≤ length (vec cpu_set)
      → g.default_engine_type ≢ process
      → (config : EngineFactoryCpuSets B) × (allot g groups n has_fibers cpu_set ≡ ok config)
        × (vec config.shared_cpus_set ≡ drop (n + dedicated groups) (vec cpu_set))
  unfolding allot
  allot-returns g groups n has_fibers cpu_set some_left enough usable =
      let p = Ensures-ok _ (pop n cpu_set) (pop-takes n cpu_set (omega arith)) in
      let c = default_pool-returns g.default_engine_type p.0 (new_config has_fibers) usable in
      let d =
        main_pool-returns g.dedicated_main_thread p.0 c.0
          (rw p.2.0 (omega (arith, length-take n (vec cpu_set) (omega arith)))) in
      let r =
        allot_groups-returns groups (mark_reusable d.0) (pop n cpu_set).1
          (rw p.2.1 (omega (arith, length-drop n (vec cpu_set) (omega arith)))) in
      (
        r.0,
        rw (allot, p.1, c.1, d.1) r.1,
        r.2 ∙ ap (drop (dedicated groups)) p.2.1 ∙ drop-drop (dedicated groups) n (vec cpu_set),
      )

  -- A set with a cpu, but fewer than the groups need and one more, is refused, if the numbers asked for
  -- do not overflow.
  pub generate-refused :
      (o : Options) (cpu_set : B)
      → 0 < length (vec cpu_set)
      → suc (demand o) < size
      → length (vec cpu_set) < suc (demand o)
      → generate_engine_factory_cpu_sets o cpu_set ≡ throws Exception.insufficient_cpus
  unfolding generate_engine_factory_cpu_sets
  generate-refused o cpu_set some_cpu fits few =
      rw (generate_engine_factory_cpu_sets, nonzero, counted o fits, short)
    where
      nonzero : (hwloc.weight cpu_set == 0) ≡ false
      nonzero = ground (arith, hwloc.weight_lem cpu_set)

      short : ltb (hwloc.weight cpu_set) ((demand o + 1) % size) ≡ true
      short = ground (arith, hwloc.weight_lem cpu_set, next_count o fits)

  -- With a cpu more than the groups need, no overflow of the numbers asked for and a default engine
  -- type that is not process, every loop ends and no check fails. The shared cpus are the
  -- highest ones: as many as the widest group that overlaps asks for.
  pub generate-returns :
      (o : Options) (cpu_set : B)
      → suc (demand o) < size
      → suc (demand o) ≤ length (vec cpu_set)
      → o.engine_factories.default_engine_type ≢ process
      → (config : EngineFactoryCpuSets B) × (generate_engine_factory_cpu_sets o cpu_set ≡ ok config)
        × (vec config.shared_cpus_set
            ≡ drop (length (vec cpu_set) - widest (engine_groups_map o)) (vec cpu_set))
  unfolding generate_engine_factory_cpu_sets
  generate-returns o cpu_set fits enough usable = (
    allotted.0,
    rw (generate_engine_factory_cpu_sets, nonzero, counted o fits, plenty) allotted.1,
    allotted.2 ∙ ap (λ n. drop n (vec cpu_set)) (omega (arith, hwloc.weight_lem cpu_set)),
  )
    where
      nonzero : (hwloc.weight cpu_set == 0) ≡ false
      nonzero = ground (arith, hwloc.weight_lem cpu_set)

      plenty : ltb (hwloc.weight cpu_set) ((demand o + 1) % size) ≡ false
      plenty = ground (arith, hwloc.weight_lem cpu_set, next_count o fits)

      allotted :
          (config : EngineFactoryCpuSets B) × (allot o.engine_factories
              (engine_groups_map o)
              (hwloc.weight cpu_set - demand o)
              (tally (engine_groups_map o) no_tally).has_fibers
              cpu_set
            ≡ ok config)
          × (vec config.shared_cpus_set
              ≡ drop
                  (hwloc.weight cpu_set - demand o + dedicated (engine_groups_map o))
                  (vec cpu_set))
      allotted =
          allot-returns o.engine_factories (engine_groups_map o) (hwloc.weight cpu_set - demand o)
            (tally (engine_groups_map o) no_tally).has_fibers cpu_set
            (omega (arith, hwloc.weight_lem cpu_set)) (omega (arith, hwloc.weight_lem cpu_set))
            usable
