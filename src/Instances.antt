-- ===== src/Instances.antt =====
-- src/internal/pipeline/instance.cpp with the segments and manifolds that it owns:
-- src/internal/segment/instance.cpp and the ports of include/srf/segment.
pub mod Loops
pub mod Joining
pub mod Attaching
pub mod Wiring
pub mod Turns
pub mod Creation
pub mod Consistency
pub mod Settling
pub mod Starting
pub mod Resuming
pub mod Readiness
mod Tests
use srf.Base.{
  ℕ, Bool, true, false, not, List, [], ◌∷◌, Option, none, some, Text, text_key, nat_key, Outcome,
  ok, throws, fatal, Exception, M, and_then, ◌>>=◌, ◌>>◌, check, ltb, contains, if◌then◌else◌,
}
use srf.Base.Map.{Map, find, insert, erase, keys}
use srf.Addresses.{segment_address_decode, segment_address_encode}
use srf.Segment.{Definition, ingress_port_names, egress_port_names}
use srf.Pipeline.{Pipeline, find_segment}
use srf.Service.{
  Service, Hook, new_service, service_start, service_await_live, service_stop, service_kill,
  service_await_join,
}
use srf.Manifold.{Manifold, make_manifold, do_add_input, do_add_output, refresh}

-- segment::Instance: what it was constructed from, and its egress ports that are connected to a manifold.
pub record Segment (I : Type 0) : Type 0 where
  pub definition : Definition I
  pub rank : ℕ
  pub partition_id : ℕ
  pub connected : List Text
  pub service : Service

-- m_joinable is set when the promise is.
pub record Instance (I : Type 0) : Type 0 where
  pub manifolds : Map Text Manifold
  pub segments : Map ℕ (Segment I)
  pub joinable : Bool

module _ {I : Type 0} where
  abbrev pub new_instance : Instance I
  new_instance = record { manifolds = []; segments = []; joinable = false }

  unfoldable pub mark_joinable : M (Instance I) (Unit {0})
  mark_joinable p = (ok tt, record p { joinable = true })

  abbrev pub segment_address : Segment I → ℕ
  unfolding segment_address_encode
  segment_address s = segment_address_encode s.definition.id s.rank

  -- EgressPort::connect_to_manifold
  unfoldable pub connect_egress : Text → ℕ → M (Segment I × Manifold) (Unit {0})
  unfolding segment_address
  connect_egress name type (s, m) =
      (check (not (contains name s.connected)) >> λ (s, m). (
        ok tt,
        (
          record s { connected = name ∷ s.connected },
          do_add_input (record { address = segment_address s; data_type = type }) m,
        ),
      ))
        (s, m)

  -- IngressPort::connect_to_manifold
  unfoldable pub connect_ingress : ℕ → M (Segment I × Manifold) (Unit {0})
  unfolding segment_address
  connect_ingress type (s, m) =
      (ok tt, (s, do_add_output (record { address = segment_address s; data_type = type }) m))

unfoldable pub for_each : {S K : Type 0} → (K → M S (Unit {0})) → List K → M S (Unit {0})
for_each act [] s = (ok tt, s)
for_each act (k ∷ ks) s = (act k >> for_each act ks) s

-- What is left to throw once the rest was awaited.
abbrev pub after_exception : Exception → Outcome (Unit {0}) → Outcome (Unit {0})
after_exception e (ok _) = throws e
after_exception e (throws _) = throws e
after_exception e fatal = fatal

-- The loops over the map of manifolds, whose keys they do not change.
unfoldable pub each_manifold : M Manifold (Unit {0}) → M (Map Text Manifold) (Unit {0})
each_manifold act [] = (ok tt, [])
each_manifold act ((name, m) ∷ ms) =
    let (outcome, m) = act m in
    and_then (outcome, (name, m) ∷ ms)
      λ _ _. let (outcome, ms) = each_manifold act ms in (outcome, (name, m) ∷ ms)

-- The type of the data of the port that an initializer makes.
module _ {I : Type 0} (type_of : I → ℕ) where
  -- segment::Instance::attach_manifold: an egress port is looked for first.
  unfoldable pub attach_manifold : M (Segment I × Manifold) (Unit {0})
  unfolding connect_egress connect_ingress
  attach_manifold (s, m) = elim (find m.port_name s.definition.egress_initializers) [
    | some i ↦ connect_egress m.port_name (type_of i) (s, m)
    | none ↦ elim (find m.port_name s.definition.ingress_initializers) [
      | some i ↦ connect_ingress (type_of i) (s, m)
      | none ↦ (throws Exception.invalid_manifold, (s, m))
    ]
  ]

  -- segment::Instance::create_manifold
  unfoldable pub create_manifold : Text → Segment I → Outcome Manifold
  create_manifold name s = elim (find name s.definition.egress_initializers) [
    | some i ↦ ok (make_manifold name (type_of i))
    | none ↦ elim (find name s.definition.ingress_initializers) [
      | some i ↦ ok (make_manifold name (type_of i))
      | none ↦ fatal
    ]
  ]

  -- get_manifold, or a new one that the instance keeps.
  unfoldable pub obtain_manifold : Text → Segment I → M (Map Text Manifold) Manifold
  unfolding create_manifold
  obtain_manifold name s ms = elim (find name ms) [
    | some m ↦ (ok m, ms)
    | none ↦ elim (create_manifold name s) [
      | ok m ↦ (ok m, insert name m ms)
      | throws e ↦ (throws e, ms)
      | fatal ↦ (fatal, ms)
    ]
  ]

  -- A turn of the loops over port names. A manifold is shared, so a change to it is one to the map's.
  unfoldable pub configure : Text → M (Segment I × Map Text Manifold) (Unit {0})
  unfolding obtain_manifold attach_manifold
  configure name (s, ms) =
      let (manifold, ms) = obtain_manifold name s ms in
      and_then (manifold, (s, ms))
        λ m _. let (outcome, (s, m)) = attach_manifold (s, m) in (outcome, (s, insert name m ms))

  unfoldable pub configure_all : List Text → M (Segment I × Map Text Manifold) (Unit {0})
  unfolding configure
  configure_all [] s = (ok tt, s)
  configure_all (name ∷ names) s = (configure name >> configure_all names) s

-- `partitions` is the number of resource partitions. `build` says how the construction of the builder of a
-- segment ends, which calls the author's initializers.
module _ {I : Type 0} (definition : Pipeline I) (partitions : ℕ) (type_of : I → ℕ)
    (build : ℕ → Outcome (Unit {0})) where
  -- segment::Instance::Instance
  unfoldable pub construct : ℕ → ℕ → Outcome (Segment I)
  unfolding segment_address_decode find_segment
  construct addr partition_id =
      let (id, rank) = segment_address_decode addr in
      elim (find_segment id definition) [
        | ok d ↦ elim (build addr) [
          | ok _ ↦ ok (record {
            definition = d;
            rank = rank;
            partition_id = partition_id;
            connected = [];
            service = new_service;
          })
          | throws e ↦ throws e
          | fatal ↦ fatal
        ]
        | throws e ↦ throws e
        | fatal ↦ fatal
      ]

  unfoldable pub create_segment : ℕ → ℕ → M (Instance I) (Unit {0})
  unfolding construct configure_all
  create_segment addr partition_id p = and_then (check (ltb partition_id partitions) p) λ _ p.
      elim (find addr p.segments) [
        | some _ ↦ (fatal, p)
        | none ↦
            and_then (construct addr partition_id, p)
              λ s p.
                let (outcome, (s, ms)) =
                  (configure_all type_of (egress_port_names s.definition)
                      >> configure_all type_of (ingress_port_names s.definition))
                    (s, p.manifolds) in
                and_then (outcome, record p { manifolds = ms })
                  λ _ p. (ok tt, record p { segments = insert addr s p.segments })
      ]

module _ {I : Type 0} where
  -- A call of the service of the segment at an address.
  unfoldable pub serve : M Service (Unit {0}) → ℕ → M (Instance I) (Unit {0})
  serve act addr p = elim (find addr p.segments) [
    | none ↦ (fatal, p)
    | some s ↦
        let (outcome, service) = act s.service in
        (outcome, record p { segments = insert addr (record s { service = service }) p.segments })
  ]

  pub remove_segment : ℕ → M (Instance I) (Unit {0})
  remove_segment addr p = elim (find addr p.segments) [
    | none ↦ (fatal, p)
    | some _ ↦ (ok tt, record p { segments = erase addr p.segments })
  ]

-- `hook` says how the hooks of the services of the segments end.
module _ {I : Type 0} (hook : ℕ → Hook → Outcome (Unit {0})) where
  pub join_segment : ℕ → M (Instance I) (Unit {0})
  unfolding serve service_await_join
  join_segment addr = serve (service_await_join (hook addr)) addr

  unfoldable pub start_segment : ℕ → M (Instance I) (Unit {0})
  unfolding serve service_start service_await_live
  start_segment addr =
      serve (service_start (hook addr)) addr >> serve (service_await_live (hook addr)) addr

  -- The segments' loop of update, and the end.
  unfoldable pub resume : M (Instance I) (Unit {0})
  unfolding start_segment for_each
  resume p = (for_each start_segment (keys p.segments) >> mark_joinable) p

  -- update, with the order that the shuffles of the pick lists give
  unfoldable pub update : (List ℕ → List ℕ) → M (Instance I) (Unit {0})
  unfolding each_manifold refresh resume
  update shuffle p =
      let (outcome, ms) = each_manifold (refresh shuffle) p.manifolds in
      and_then (outcome, record p { manifolds = ms }) λ _. resume

  -- Every segment is joined, and the first exception thrown again at the end.
  unfoldable pub join_all : List ℕ → M (Instance I) (Unit {0})
  unfolding serve service_await_join
  join_all [] p = (ok tt, p)
  join_all (addr ∷ addrs) p =
      let (first, p) = serve (service_await_join (hook addr)) addr p in
      let (rest, q) = join_all addrs p in
      elim first [ ok _ ↦ (rest, q) | throws e ↦ (after_exception e rest, q) | fatal ↦ (fatal, p) ]

  -- The wait for m_joinable_future does not end before the instance is joinable.
  unfoldable pub do_service_await_join : Instance I → Option (Outcome (Unit {0}) × Instance I)
  unfolding join_all
  do_service_await_join p = if p.joinable then some (join_all (keys p.segments) p) else none

module _ {I : Type 0} (definition : Pipeline I) (hook : ℕ → Hook → Outcome (Unit {0})) where
  unfoldable pub stop_segment : ℕ → M (Instance I) (Unit {0})
  unfolding serve service_stop segment_address_decode find_segment
  stop_segment addr p = elim (find addr p.segments) [
    | none ↦ (fatal, p)
    | some _ ↦
        and_then (find_segment (segment_address_decode addr).0 definition, p)
          λ _. serve (service_stop (hook addr)) addr
  ]

  unfoldable pub do_service_stop : M (Instance I) (Unit {0})
  unfolding stop_segment for_each
  do_service_stop = do mark_joinable; λ p. for_each stop_segment (keys p.segments) p

  unfoldable pub do_service_kill : M (Instance I) (Unit {0})
  unfolding stop_segment serve service_kill for_each
  do_service_kill = do
    mark_joinable
    λ p.
        for_each (λ addr. stop_segment addr >> serve (service_kill (hook addr)) addr)
          (keys p.segments) p
