-- ===== src/SegmentService/Fresh.antt =====
-- A segment that an instance of the pipeline creates, from the definition that the builder reads.
use srf.Base.{
  ℕ, ◌≡◌, ◌<◌, refl, ◌∙◌, true, List, none, some, Text, text_key, nat_key, Outcome, ok, contains,
  All, All-weaken, All-contains, Distinct, if_true,
}
use srf.Base.Map.{find, keys, =?=_refl}
use srf.Base.Ascending.{Ascending-Distinct}
use srf.Segment.{Definition, port_names, egress_port_names}
use srf.Pipeline.{Pipeline}
use srf.Builder.{Builder, BuilderCall, construct_builder}
use srf.Builder.Ports.{IsNamed, construct_builder-IsNamed}
use srf.Instances.{Segment, Instance, construct, create_segment}
use srf.Instances.Attaching.{Named}
use srf.Instances.Creation.{create_segment-wires}
use srf.SegmentService.{
  Part, egress, node, ingress, Running, names_of, build_segment, new_running, do_service_start,
}
use srf.SegmentService.Preparing.{IsPrepared}
use srf.SegmentService.Starting.{do_service_start-returns}

module _ (launch_control : Part → Text → Outcome (Unit {0}))
    (launches : (p : Part) (n : Text) → launch_control p n ≡ ok tt) where
  built-returns :
      (ports connected : List Text) (b : Builder)
      → IsNamed ports b
      → ((n : Text) → contains n ports ≡ true → contains n connected ≡ true)
      → (do_service_start launch_control (new_running b connected)).0 ≡ ok tt
  built-returns ports connected b i h =
      do_service_start-returns launch_control s (λ p. refl) distinct prepared
    where
      s : Running
      s = new_running b connected

      distinct : (p : Part) → Distinct (names_of p s)
      distinct egress = Ascending-Distinct (keys b.egress_ports) i.egress_names
      distinct node = Ascending-Distinct (keys b.nodes) i.node_names
      distinct ingress = Ascending-Distinct (keys b.ingress_ports) i.ingress_names

      prepared : (p : Part) → All (IsPrepared launch_control s p) (names_of p s)
      prepared egress =
          All-weaken (keys b.egress_ports) (λ n k. (launches egress n, h n (i.known n k)))
            (All-contains (keys b.egress_ports))
      prepared node =
          All-weaken (keys b.nodes) (λ n k. (launches node n, refl)) (All-contains (keys b.nodes))
      prepared ingress =
          All-weaken (keys b.ingress_ports) (λ n k. (launches ingress n, refl))
            (All-contains (keys b.ingress_ports))

  module _ {I : Type 0} (definition : Pipeline I) (partitions : ℕ) (type_of : I → ℕ)
      (initializer : Definition I → List BuilderCall) where
    -- A segment created at a free address, on a partition that exists, from a definition whose ports have different
    -- names and whose initializer does not fail, can be started once its launchers can be prepared: whatever the
    -- initializer made, each egress port of the builder was given its manifold when the segment was created.
    pub do_service_start-create_segment :
        (addr partition_id : ℕ) (p : Instance I) (s : Segment I)
        → partition_id < partitions
        → find addr p.segments ≡ none
        → construct definition partitions type_of
            (build_segment definition type_of initializer)
            addr
            partition_id
          ≡ ok s
        → Distinct (port_names s.definition)
        → Named p.manifolds
        → (p' : Instance I) × (s' : Segment I) × (create_segment definition partitions type_of
              (build_segment definition type_of initializer)
              addr
              partition_id
              p
            ≡ (ok tt, p'))
          × (find addr p'.segments ≡ some s')
          × ((do_service_start launch_control (
                new_running
                  (construct_builder type_of (initializer s.definition) s.definition s.rank).1
                  s'.connected)).0
              ≡ ok tt)
    do_service_start-create_segment addr partition_id p s l f k d h =
        let w =
          create_segment-wires definition partitions type_of
            (build_segment definition type_of initializer) addr partition_id p s l f k d h in
        (
          w.0,
          w.1,
          w.2,
          w.3 addr ∙ if_true (some w.1) (find addr p.segments) (=?=_refl addr),
          built-returns (egress_port_names s.definition) (w.1).connected _
              (construct_builder-IsNamed type_of (initializer s.definition) s.definition s.rank)
              ((w.4).all_connected),
        )
