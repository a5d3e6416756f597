-- ===== src/Factories/Tests.antt =====
-- Three queues in turn, and four dedicated cpus.
use srf.Base.{
  ℕ, ◌≡◌, refl, ◌+◌, ◌%◌, ◌<◌, [], ◌∷◌, List, Option, some, ok, length, get_elem?, arith, true,
  contains,
}
use srf.Bitmap.{vec, new_bitmap}
use srf.Bitmap.Indexes.{take}
use srf.Bitmap.ListBits.{ListBits, list_bits}
use srf.EngineGroups.{fiber}
use srf.Factories.{
  reusable_queues, single_use_cpus, make_engine_factory, build_engines, reusable_fibers, on_queues,
}
use srf.Factories.Cycle.{reusable_queues-cycle}
use srf.Factories.Dedicated.{refused_starts_over}

abbrev queues : List ℕ
queues = 4 ∷ 5 ∷ 9 ∷ []

abbrev cpus : ListBits
cpus = (0 ∷ 2 ∷ 4 ∷ 6 ∷ [], omega arith)

cycle_runs : reusable_queues queues 4 2 ≡ (ok (9 ∷ 4 ∷ 5 ∷ 9 ∷ []), 0)
unfolding reusable_queues
cycle_runs = refl

factory_runs :
    make_engine_factory cpus fiber cpus true ≡ ok (reusable_fibers (0 ∷ 2 ∷ 4 ∷ 6 ∷ []) 0)
unfolding make_engine_factory contains
factory_runs = refl

seats_run :
    build_engines {B = ListBits} 2 (reusable_fibers queues 1)
    ≡ (ok (on_queues (5 ∷ 9 ∷ [])), reusable_fibers queues 0)
unfolding build_engines reusable_queues
seats_run = refl

reusable_queues-cycle_example :
    (out : List ℕ) × (reusable_queues queues 4 2 ≡ (ok out, (2 + 4) % 3))
    × (length out ≡ 4)
    × ((i : ℕ) → i < 4 → get_elem? out i ≡ get_elem? queues ((2 + i) % 3))
reusable_queues-cycle_example = reusable_queues-cycle queues 4 2 (omega arith)

refused_starts_over_example :
    (s : ListBits) × (prev' : Option ℕ) × (single_use_cpus cpus 2 new_bitmap
        (single_use_cpus cpus 4 new_bitmap (some 0)).1
      ≡ (ok s, prev'))
    × (vec s ≡ take 2 (vec cpus))
refused_starts_over_example = refused_starts_over cpus 2 4 (some 0) (omega arith) (omega arith)
