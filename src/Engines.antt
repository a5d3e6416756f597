-- ===== src/Engines.antt =====
-- src/internal/system/engine_factory_cpu_sets.cpp: the cpus of each engine factory.
pub mod Counts
pub mod Pools
pub mod Allotment
mod Tests
use srf.Base.{
  ℕ, zero, suc, ◌+◌, ◌-◌, ◌%◌, ◌^◌, Bool, true, false, ◌&&◌, ◌||◌, [], ◌∷◌, Option, none, some,
  Text, text_key, Outcome, ok, throws, fatal, Exception, bind, ltb, ◌==◌, if◌then◌else◌,
}
use srf.Base.Map.{Map, find, insert}
use srf.Bitmap.{new_bitmap, on, first, next, weight, pop}
use srf.Bitmap.Interface.{Hwloc}
use srf.EngineGroups.{
  EngineType, EngineFactoryOptions, EngineGroups, Options, Groups, size, main_name,
  default_engine_factory_name, engine_groups_map, Tally, tally, no_tally, min_cpu_count, fiber,
  thread, process,
}

pub record EngineFactoryCpuSets (B : Type 0) : Type 0 where
  pub fiber_cpu_sets : Map Text B
  pub thread_cpu_sets : Map Text B
  pub reusable : Map Text Bool
  pub shared_cpus_set : B
  pub shared_cpus_has_fibers : Bool

module _ {B : Type 0} where
  -- Nothing is stored for another engine type.
  pub store_pool : EngineType → Text → B → EngineFactoryCpuSets B → EngineFactoryCpuSets B
  store_pool fiber name bits c = record c { fiber_cpu_sets = insert name bits c.fiber_cpu_sets }
  store_pool thread name bits c = record c { thread_cpu_sets = insert name bits c.thread_cpu_sets }
  store_pool process name bits c = c

  unfoldable pub is_reusable : Text → EngineFactoryCpuSets B → Outcome Bool
  is_reusable name c = elim (find name c.reusable) [ none ↦ fatal | some b ↦ ok b ]

module _ {B : Type 0} ⦃hwloc : Hwloc B⦄ where
  -- The pool of one group that does not overlap, and its entry in `reusable`.
  pub dedicate_group :
      Text
      → EngineFactoryOptions
      → EngineFactoryCpuSets B
      → B
      → Outcome (EngineFactoryCpuSets B × B)
  unfolding store_pool
  dedicate_group name o c remaining =
      if o.allow_overlap
      then ok (marked, remaining)
      else bind popped.0 (λ this_set. ok (store_pool o.engine_type name this_set marked, popped.1))
    where
      marked : EngineFactoryCpuSets B
      marked = record c { reusable = insert name o.reusable c.reusable }

      popped : Outcome B × B
      popped = pop o.cpu_count remaining

  pub dedicate : Groups → EngineFactoryCpuSets B → B → Outcome (EngineFactoryCpuSets B × B)
  unfolding dedicate_group
  dedicate [] c remaining = ok (c, remaining)
  dedicate ((name, o) ∷ groups) c remaining =
      bind (dedicate_group name o c remaining) (λ r. dedicate groups r.0 r.1)

  -- The do-while loop: a second round starts at the first cpu. `none`: it does not end.
  pub next_shared : ℕ → Option ℕ → B → Option ℕ
  next_shared zero idx remaining = none
  next_shared (suc fuel) idx remaining =
      let again = next_shared fuel none remaining in
      elim (next idx remaining) [ none ↦ again | some i ↦ some i ]

  -- `count` more cpus for `this_set`; the result has the new idx.
  pub pick : ℕ → Option ℕ → B → B → Option (Option ℕ × B)
  unfolding next_shared
  pick zero idx remaining this_set = some (idx, this_set)
  pick (suc count) idx remaining this_set = elim (next_shared 2 idx remaining) [
    | none ↦ none
    | some i ↦ pick count (some i) remaining (on i this_set)
  ]

  -- The pools that overlap; `fatal` is a loop that does not end.
  pub overlap : Groups → Option ℕ → B → EngineFactoryCpuSets B → Outcome (EngineFactoryCpuSets B)
  unfolding pick store_pool
  overlap [] idx remaining c = ok c
  overlap ((name, o) ∷ groups) idx remaining c =
      let skipped = overlap groups idx remaining c in
      if o.allow_overlap
      then elim (pick o.cpu_count idx remaining new_bitmap) [
        | none ↦ fatal
        | some (idx', this_set) ↦
            overlap groups idx' remaining (store_pool o.engine_type name this_set c)
      ]
      else skipped

  -- The default pool; another engine type is a LOG(FATAL).
  pub default_pool : EngineType → B → EngineFactoryCpuSets B → Outcome (EngineFactoryCpuSets B)
  unfolding store_pool
  default_pool fiber bits c = ok (store_pool fiber default_engine_factory_name bits c)
  default_pool thread bits c = ok (store_pool thread default_engine_factory_name bits c)
  default_pool process bits c = fatal

  -- Without a thread of its own, main runs on the first cpu of the default pool.
  pub main_pool : Bool → B → EngineFactoryCpuSets B → Outcome (EngineFactoryCpuSets B)
  main_pool true default_bits c = ok c
  main_pool false default_bits c = elim (first default_bits) [
    | none ↦ fatal
    | some cpu ↦
        ok (record c { fiber_cpu_sets = insert main_name (on cpu new_bitmap) c.fiber_cpu_sets })
  ]

  abbrev pub mark_reusable : EngineFactoryCpuSets B → EngineFactoryCpuSets B
  mark_reusable c = record c {
    reusable = insert main_name true (insert default_engine_factory_name true c.reusable);
  }

  abbrev pub new_config : Bool → EngineFactoryCpuSets B
  new_config has_fibers = record {
    fiber_cpu_sets = [];
    thread_cpu_sets = [];
    reusable = [];
    shared_cpus_set = new_bitmap;
    shared_cpus_has_fibers = has_fibers;
  }

  -- From the pools for the groups on.
  pub allot_groups : Groups → EngineFactoryCpuSets B → B → Outcome (EngineFactoryCpuSets B)
  unfolding dedicate overlap
  allot_groups groups c remaining =
      bind (dedicate groups c remaining)
        λ r. overlap groups none r.1 (record r.0 { shared_cpus_set = r.1 })

  -- After the counting.
  pub allot : EngineGroups → Groups → ℕ → Bool → B → Outcome (EngineFactoryCpuSets B)
  unfolding default_pool main_pool allot_groups
  allot g groups default_count has_fibers cpu_set = bind popped.0 λ default_bits.
      bind (default_pool g.default_engine_type default_bits (new_config has_fibers)) λ c.
        bind (main_pool g.dedicated_main_thread default_bits c)
          λ d. allot_groups groups (mark_reusable d) popped.1
    where
      popped : Outcome B × B
      popped = pop default_count cpu_set

  unfoldable pub generate_engine_factory_cpu_sets : Options → B → Outcome (EngineFactoryCpuSets B)
  unfolding engine_groups_map tally allot
  generate_engine_factory_cpu_sets options cpu_set =
      if weight cpu_set == 0
      then fatal
      else if ltb (weight cpu_set) ((needed + 1) % size)
      then throws Exception.insufficient_cpus
      else allot options.engine_factories groups (weight cpu_set - needed) counts.has_fibers cpu_set
    where
      groups : Groups
      groups = engine_groups_map options

      counts : Tally
      counts = tally groups no_tally

      needed : ℕ
      needed = min_cpu_count counts
