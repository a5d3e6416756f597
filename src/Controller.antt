-- ===== src/Controller.antt =====
-- src/internal/pipeline/controller.cpp: the control messages of a pipeline, applied to its instance.
mod Stopping
mod Refusing
pub mod Removal
pub mod Creating
pub mod Growth
mod Tests
use srf.Base.{
  ℕ, List, [], ◌∷◌, none, some, nat_key, Outcome, ok, throws, Exception, M, and_then, ◌>>◌,
  contains, if◌then◌else◌,
}
use srf.Base.Map.{Map, find, keys}
use srf.Pipeline.{Pipeline}
use srf.Service.{
  Service, ServiceState, Hook, new_service, running, stopping, killing, advance_below,
}
use srf.Instances.{
  Instance, create_segment, stop_segment, update, do_service_stop, do_service_kill, for_each,
}

-- SegmentAddresses: the partition of each segment's address.
abbrev pub SegmentAddresses : Type 0
SegmentAddresses = Map ℕ ℕ

-- ControlMessage; only an update carries addresses.
pub data ControlMessage : Type 0 where
  update_message : SegmentAddresses → ControlMessage
  stop_message kill_message : ControlMessage

-- `service` is the part of the instance that it has as a Service.
pub record Controller (I : Type 0) : Type 0 where
  pub pipeline : Instance I
  pub service : Service
  pub current_segments : SegmentAddresses

-- std::set_difference
unfoldable pub set_difference : List ℕ → List ℕ → List ℕ
set_difference [] ys = []
set_difference (x ∷ xs) ys =
    let rest = set_difference xs ys in if contains x ys then rest else x ∷ rest

module _ {I : Type 0} (definition : Pipeline I) (partitions : ℕ) (type_of : I → ℕ)
    (build : ℕ → Outcome (Unit {0})) where
  -- new_segments_map.at(address), and the segment's creation
  unfoldable pub create_at : SegmentAddresses → ℕ → M (Instance I) (Unit {0})
  unfolding create_segment
  create_at new_segments_map address p = elim (find address new_segments_map) [
    | none ↦ (throws Exception.out_of_range, p)
    | some partition_id ↦ create_segment definition partitions type_of build address partition_id p
  ]

-- service_stop and service_kill of the instance: `below` and the new state, and the hook.
advance : {I : Type 0} → ServiceState → M (Instance I) (Unit {0}) → M (Controller I) (Unit {0})
unfolding advance_below
advance new_state act c =
    let (execute, service) = advance_below new_state new_state c.service in
    and_then (execute, record c { service = service })
      λ execute c.
        if execute
        then (let (outcome, p) = act c.pipeline in (outcome, record c { pipeline = p }))
        else (ok tt, c)

module _ {I : Type 0} (definition : Pipeline I) (partitions : ℕ) (type_of : I → ℕ)
    (build : ℕ → Outcome (Unit {0})) (hook : ℕ → Hook → Outcome (Unit {0}))
    (shuffle : List ℕ → List ℕ) where
  -- What an update does to the pipeline's instance.
  unfoldable pub reassign : SegmentAddresses → List ℕ → M (Instance I) (Unit {0})
  unfolding set_difference create_at for_each stop_segment update
  reassign new_segments_map cur_segments =
      for_each (create_at definition partitions type_of build new_segments_map)
        (set_difference (keys new_segments_map) cur_segments)
      >> (for_each (stop_segment definition hook)
            (set_difference cur_segments (keys new_segments_map))
          >> update hook shuffle)

  unfoldable pub update_segments : SegmentAddresses → M (Controller I) (Unit {0})
  unfolding reassign
  update_segments new_segments_map c =
      let (outcome, p) = reassign new_segments_map (keys c.current_segments) c.pipeline in
      and_then (outcome, record c { pipeline = p })
        λ _ c. (ok tt, record c { current_segments = new_segments_map })

  unfoldable pub on_data : ControlMessage → M (Controller I) (Unit {0})
  unfolding update_segments advance do_service_stop do_service_kill
  on_data (update_message addresses) = update_segments addresses
  on_data stop_message = advance stopping (do_service_stop definition hook)
  on_data kill_message = advance killing (do_service_kill definition hook)

-- The constructor starts the instance.
abbrev pub new_controller : {I : Type 0} → Instance I → Controller I
new_controller p = record {
  pipeline = p;
  service = record new_service { state = running };
  current_segments = [];
}
