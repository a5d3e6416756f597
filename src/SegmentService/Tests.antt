-- ===== src/SegmentService/Tests.antt =====
-- A segment with a node between two ports.
use srf.Base.{
  ℕ, ◌≡◌, ◌≢◌, refl, ap, arith, nat_key, true, List, [], ◌∷◌, ◌++◌, Option, none, some, Text,
  text_key, Outcome, ok, throws, fatal, Exception, thrown, All, contains, if◌then◌else◌, ◌⊎◌,
}
use srf.Base.Map.{find}
use srf.Service.{new_service, running}
use srf.Builder.{Builder, Node, BuilderCall, makes_object, makes_dynamic_edge, construct_builder}
use srf.Segment.{Definition}
use srf.Pipeline.{Pipeline}
use srf.Instances.{Segment, Instance, new_instance, construct, create_segment}
use srf.SegmentService.Fresh.{do_service_start-create_segment}
use srf.SegmentService.{
  Part, egress, node, ingress, Running, names_of, runners_of, ignited, Event, completed, stores,
  stops, kills, begins_join, ends_join, build_segment, new_running, do_service_start,
  do_service_await_join,
}
use srf.SegmentService.Preparing.{IsPrepared}
use srf.SegmentService.Starting.{do_service_start-every_or_none}
use srf.SegmentService.Joining.{waited, after_wait, do_service_await_join-first}

abbrev i_name : Text
i_name = 105 ∷ []

abbrev n_name : Text
n_name = 110 ∷ []

abbrev o_name : Text
o_name = 111 ∷ []

abbrev converter : Node
converter = record { sink_type = some 7; source_type = some 8 }

abbrev built : Builder
built = record {
  name = 114 ∷ [];
  objects = [];
  nodes = (n_name, converter) ∷ [];
  ingress_ports = (i_name, record { address = 65536; data_type = 7 }) ∷ [];
  egress_ports = (o_name, record { address = 65536; data_type = 8 }) ∷ [];
  edges = [];
}

abbrev constructed : Running
constructed = record {
  builder = built;
  taken = λ p. [];
  connected = o_name ∷ [];
  egress_runners = [];
  runners = [];
  ingress_runners = [];
  service = record new_service { state = running };
  joined = [];
}

abbrev launches : Part → Text → Outcome (Unit {0})
launches p n = ok tt

ready_ports : (p : Part) → All (IsPrepared launches constructed p) (names_of p constructed)
unfolding contains
ready_ports egress = ((refl, refl), tt)
ready_ports node = ((refl, refl), tt)
ready_ports ingress = ((refl, refl), tt)

-- Without its manifold, the egress port keeps the node from being launched.
unconnected_aborts : (do_service_start launches (record constructed { connected = [] })).0 ≡ fatal
unfolding do_service_start contains
unconnected_aborts = refl

do_service_start-every_or_none_example :
    (((do_service_start launches constructed).0 ≡ ok tt)
      × ((p : Part) → All (IsPrepared launches constructed p) (names_of p constructed))
      × ((p : Part) (n : Text)
          → find n (runners_of p (do_service_start launches constructed).1) ≡ (
              if contains n (names_of p constructed)
              then some ignited
              else find n (runners_of p constructed))))
    ⊎ (((do_service_start launches constructed).0 ≢ ok tt)
        × ((p : Part) (n : Text)
            → find n (runners_of p (do_service_start launches constructed).1)
              ≡ find n (runners_of p constructed)))
do_service_start-every_or_none_example = do_service_start-every_or_none launches constructed

abbrev started : Running
started = record constructed {
  egress_runners = (o_name, ignited) ∷ [];
  runners = (n_name, ignited) ∷ [];
}

-- The rest of a segment that is joined, while a port is still launched.
abbrev after_failure : List Event
after_failure =
    completed n_name true ∷ stops ∷ begins_join ∷ kills ∷ ends_join ∷ stores ingress i_name ∷ []

-- Only the node fails.
abbrev node_fails : Part → Text → Option Exception
node_fails egress n = none
node_fails node n = some (thrown 3)
node_fails ingress n = none

do_service_await_join-first_example :
    ((do_service_await_join node_fails started ≡ (ok tt, after_wait started))
      × All (λ r. node_fails r.0 r.1 ≡ none) (waited started))
    ⊎ ((before after : List (Part × Text)) × (p : Part) × (n : Text) × (e : Exception) × (waited
            started
          ≡ before ++ ((p, n) ∷ after))
        × All (λ r. node_fails r.0 r.1 ≡ none) before
        × (node_fails p n ≡ some e)
        × (do_service_await_join node_fails started ≡ (throws e, after_wait started)))
do_service_await_join-first_example = do_service_await_join-first node_fails started

-- The segment's definition, and what its initializer calls.
abbrev relay : Definition ℕ
relay = record {
  name = 114 ∷ [];
  id = 1;
  ingress_initializers = (i_name, 7) ∷ [];
  egress_initializers = (o_name, 8) ∷ [];
}

abbrev pipeline : Pipeline ℕ
pipeline = record { segments = (1, relay) ∷ []; segment_hasher = []; port_hasher = [] }

abbrev calls : Definition ℕ → List BuilderCall
calls d =
    makes_object n_name converter
    ∷ makes_dynamic_edge 7 7 i_name n_name
    ∷ makes_dynamic_edge 8 8 n_name o_name
    ∷ []

abbrev made : Segment ℕ
made = record {
  definition = relay;
  rank = 0;
  partition_id = 0;
  connected = [];
  service = new_service;
}

made_is : construct pipeline 1 (λ i. i) (build_segment pipeline (λ i. i) calls) 65536 0 ≡ ok made
unfolding construct build_segment find
made_is = refl

different : ◌≢◌ {A = Text} i_name o_name
different e = absurd (omega (arith, ap {B = ℕ} (λ l. elim l [ [] ↦ 0 | c ∷ _ ↦ c ]) e))

do_service_start-create_segment_example :
    (p' : Instance ℕ) × (s' : Segment ℕ) × (create_segment pipeline 1
        (λ i. i)
        (build_segment pipeline (λ i. i) calls)
        65536
        0
        new_instance
      ≡ (ok tt, p'))
    × (find 65536 p'.segments ≡ some s')
    × ((do_service_start launches
          (new_running (construct_builder (λ i. i) (calls relay) relay 0).1 s'.connected)).0
        ≡ ok tt)
unfolding find
do_service_start-create_segment_example =
    do_service_start-create_segment launches (λ p n. refl) pipeline 1 (λ i. i) calls 65536 0
      new_instance made (omega arith) refl made_is (((λ e. absurd (different e)), tt), (tt, tt))
      (λ n m h. absurd cc)
