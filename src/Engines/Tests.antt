-- ===== src/Engines/Tests.antt =====
-- Two dedicated threads and a fiber that shares its cpu, on eight cpus and on three.
use srf.Base.{◌-◌, ◌≡◌, ◌≢◌, refl, true, false, [], ◌∷◌, arith, ok}
use srf.Bitmap.{vec}
use srf.Bitmap.ListBits.{ListBits, list_bits}
use srf.Bitmap.Indexes.{drop}
use srf.EngineGroups.{Options, EngineGroups, fiber, thread, process, engine_groups_map}
use srf.Engines.{EngineFactoryCpuSets, generate_engine_factory_cpu_sets}
use srf.Engines.Counts.{widest}
use srf.Engines.Allotment.{demand, generate-returns}

abbrev groups : EngineGroups
groups = record {
  dedicated_main_thread = false;
  dedicated_network_thread = false;
  default_engine_type = fiber;
  map =
      (
        b'i' ∷ b'o' ∷ [],
        record { cpu_count = 2; engine_type = thread; reusable = false; allow_overlap = false },
      )
      ∷ (
        b't' ∷ b'm' ∷ [],
        record { cpu_count = 1; engine_type = fiber; reusable = true; allow_overlap = true },
      )
      ∷ [];
}

abbrev options : Options
options = record { architect_url = []; engine_factories = groups }

abbrev eight : ListBits
eight = (0 ∷ 1 ∷ 2 ∷ 3 ∷ 4 ∷ 5 ∷ 6 ∷ 7 ∷ [], omega arith)

abbrev three : ListBits
three = (0 ∷ 1 ∷ 2 ∷ [], omega arith)

demand_runs : demand options ≡ 3
unfolding engine_groups_map
demand_runs = refl

usable : fiber ≢ process
usable h = cc

generate-returns_example :
    (config : EngineFactoryCpuSets ListBits) × (generate_engine_factory_cpu_sets options eight
      ≡ ok config)
    × (vec config.shared_cpus_set ≡ drop (8 - widest (engine_groups_map options)) (vec eight))
generate-returns_example =
    generate-returns options eight (omega (arith, demand_runs)) (omega (arith, demand_runs)) usable
