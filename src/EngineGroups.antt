-- ===== src/EngineGroups.antt =====
-- include/srf/options/engine_groups.hpp, and the counting of cpus in
-- src/internal/system/engine_factory_cpu_sets.cpp.
use srf.Base.{
  ℕ, ◌+◌, ◌%◌, ◌^◌, max, Bool, true, false, not, ◌||◌, [], ◌∷◌, Text, text_key, if◌then◌else◌,
}
use srf.Base.Map.{Map, insert}

pub data EngineType : Type 0 where
  fiber thread process : EngineType

pub record EngineFactoryOptions : Type 0 where
  pub cpu_count : ℕ
  pub engine_type : EngineType
  pub reusable : Bool
  pub allow_overlap : Bool

pub record EngineGroups : Type 0 where
  pub dedicated_main_thread : Bool
  pub dedicated_network_thread : Bool
  pub default_engine_type : EngineType
  pub map : Map Text EngineFactoryOptions

-- What the code reads of the Options.
pub record Options : Type 0 where
  pub architect_url : Text
  pub engine_factories : EngineGroups

abbrev pub Groups : Type 0
Groups = Map Text EngineFactoryOptions

-- std::size_t
abbrev pub size : ℕ
size = 2 ^ 64

abbrev pub main_name : Text
main_name = b'm' ∷ b'a' ∷ b'i' ∷ b'n' ∷ []

abbrev pub network_name : Text
network_name = b's' ∷ b'r' ∷ b'f' ∷ b'_' ∷ b'n' ∷ b'e' ∷ b't' ∷ b'w' ∷ b'o' ∷ b'r' ∷ b'k' ∷ []

abbrev pub default_engine_factory_name : Text
default_engine_factory_name = b'd' ∷ b'e' ∷ b'f' ∷ b'a' ∷ b'u' ∷ b'l' ∷ b't' ∷ []

abbrev pub is_fiber : EngineType → Bool
is_fiber fiber = true
is_fiber thread = false
is_fiber process = false

abbrev pub is_empty : Text → Bool
is_empty [] = true
is_empty (c ∷ cs) = false

abbrev pub set_engine_factory_options : Text → EngineFactoryOptions → EngineGroups → EngineGroups
set_engine_factory_options group_name options g = record g { map = insert group_name options g.map }

unfoldable pub add_main : EngineGroups → Groups → Groups
add_main g m =
    if g.dedicated_main_thread
    then insert main_name
        (record { cpu_count = 1; engine_type = fiber; reusable = true; allow_overlap = false }) m
    else m

unfoldable pub add_network : Options → Groups → Groups
add_network o m =
    if is_empty o.architect_url
    then m
    else insert network_name
        (record {
          cpu_count = 1;
          engine_type = fiber;
          reusable = true;
          allow_overlap = not o.engine_factories.dedicated_network_thread;
        })
        m

-- engine_groups_map
unfoldable pub engine_groups_map : Options → Groups
unfolding add_main add_network
engine_groups_map o = add_network o (add_main o.engine_factories o.engine_factories.map)

-- shared_cpu_count, shared_cpus_has_fibers and engine_cpu_count: a type that is missing from the
-- latter counts 0.
pub record Tally : Type 0 where
  pub shared : ℕ
  pub has_fibers : Bool
  pub fibers : ℕ
  pub threads : ℕ
  pub processes : ℕ

unfoldable pub add_count : EngineType → ℕ → Tally → Tally
add_count fiber n t = record t { fibers = (t.fibers + n) % size }
add_count thread n t = record t { threads = (t.threads + n) % size }
add_count process n t = record t { processes = (t.processes + n) % size }

unfoldable pub tally_group : EngineFactoryOptions → Tally → Tally
unfolding add_count
tally_group o t =
    if o.allow_overlap
    then record t {
      shared = max t.shared o.cpu_count;
      has_fibers = is_fiber o.engine_type || t.has_fibers;
    }
    else add_count o.engine_type o.cpu_count t

unfoldable pub tally : Groups → Tally → Tally
unfolding tally_group
tally [] t = t
tally ((name, o) ∷ groups) t = tally groups (tally_group o t)

abbrev pub no_tally : Tally
no_tally = record { shared = 0; has_fibers = false; fibers = 0; threads = 0; processes = 0 }

-- The sum over engine_cpu_count.
abbrev pub min_cpu_count : Tally → ℕ
min_cpu_count t = (((t.shared + t.fibers) % size + t.threads) % size + t.processes) % size
