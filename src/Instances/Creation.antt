-- ===== src/Instances/Creation.antt =====
-- A new segment is wired to the manifolds of all its ports.
use srf.Base.{
  ℕ, ◌≡◌, ◌<◌, refl, sym, ap, ◌∙◌, Bool, true, false, List, [], ◌++◌, none, some, Text, text_key,
  nat_key, Outcome, ok, and_then, contains, All-weaken, All-both, All-contains, Distinct,
  Distinct-left, Distinct-right, Distinct-disjoint, Bool-cases, inl, inr, arith, ◌=?=◌, if_true,
  if_false, if◌then◌else◌, ltb, check, ◌>>◌,
}
use mathlib.Core.List.{append-nil}
use srf.Base.Map.{Map, find, insert, keys, find-insert, find-none}
use srf.Segment.{egress_port_names, ingress_port_names, port_names}
use srf.Pipeline.{Pipeline}
use srf.Manifold.{Manifold, Port}
use srf.Instances.{Segment, Instance, segment_address, configure_all, construct, create_segment}
use srf.Instances.Attaching.{queued_inputs, queued_outputs, Named}
use srf.Instances.Wiring.{loop}
use srf.Instances.Turns.{
  port_of, egress_of, ingress_of, EgressReady, IngressReady, connect, egress-turn, egress-tail,
  ingress-turn,
}

-- What a port name that is no key brings is nothing.
port_of-if :
    {I : Type 0} (type_of : I → ℕ) (s : Segment I) (n : Text) (m : Map Text I)
    → (if contains n (keys m) then port_of type_of s (find n m) else [])
      ≡ port_of type_of s (find n m)
port_of-if type_of s n m = elim (Bool-cases (contains n (keys m))) [
  | inl present ↦ if_true (port_of type_of s (find n m)) [] present
  | inr missing ↦
      if_false (port_of type_of s (find n m)) [] missing
      ∙ sym (ap (port_of type_of s) (find-none n m missing))
]

nothing-if : (b : Bool) (l : List Port) → l ++ (if b then [] else []) ≡ l
nothing-if true l = append-nil l
nothing-if false l = append-nil l

module _ {I : Type 0} (type_of : I → ℕ) (s : Segment I) (ms : Map Text Manifold) where
  -- What a new segment adds to the manifold of each port name.
  pub record Wired (s' : Segment I) (ms' : Map Text Manifold) : Type 0 where
    pub inputs :
        (n : Text)
        → queued_inputs (find n ms')
          ≡ queued_inputs (find n ms) ++ port_of type_of s (egress_of type_of s n)
    pub outputs :
        (n : Text)
        → queued_outputs (find n ms')
          ≡ queued_outputs (find n ms) ++ port_of type_of s (ingress_of type_of s n)
    pub all_named : Named ms'
    pub same_definition : s'.definition ≡ s.definition
    pub same_address : segment_address s' ≡ segment_address s
    pub same_service : s'.service ≡ s.service
    pub all_connected :
        (n : Text)
        → contains n (egress_port_names s.definition) ≡ true
        → contains n s'.connected ≡ true

  wire :
      Distinct (port_names s.definition)
      → s.connected ≡ []
      → Named ms
      → (s' : Segment I) × (ms' : Map Text Manifold) × ((configure_all type_of
                (egress_port_names s.definition)
              >> configure_all type_of (ingress_port_names s.definition))
            (s, ms)
          ≡ (ok tt, (s', ms')))
        × Wired s' ms'
  unfolding contains
  wire d c h =
      let ingress = ingress_port_names s.definition in
      let egress = egress_port_names s.definition in
      let out =
        loop type_of (connect type_of s) (EgressReady type_of s)
          (λ n. port_of type_of s (egress_of type_of s n)) (λ _. []) (egress-turn type_of s)
          (egress-tail type_of s) (egress_port_names s.definition) s ms
          (Distinct-right ingress egress d)
          (
            refl,
            (refl, (refl, λ n k out. absurd cc (k, out))),
            All-weaken egress (λ n k. (ap (contains n) c, k)) (All-contains egress),
          )
          h in
      let into =
        loop type_of (λ _ s'. s') (IngressReady type_of s) (λ _. [])
          (λ n. port_of type_of s (ingress_of type_of s n)) (ingress-turn type_of s)
          (λ name names s' _ (a, b, (_, r)). (a, b, r)) (ingress_port_names s.definition) out.0
          out.1.manifolds (Distinct-left ingress egress d)
          (
            out.2.0,
            out.2.1,
            All-both (λ n. egress_of type_of s n ≡ none) (λ n. contains n ingress ≡ true) ingress
                (All-weaken ingress (λ n k. find-none n s.definition.egress_initializers k)
                  (Distinct-disjoint ingress egress d))
                (All-contains ingress),
          )
          out.1.all_named in
      (
        into.0,
        into.1.manifolds,
        rw out.1.looped into.1.looped,
        record {
          inputs = λ n.
              into.1.inputs n
              ∙ nothing-if (contains n ingress) _
              ∙ out.1.inputs n
              ∙ ap (λ l. queued_inputs (find n ms) ++ l)
                  (port_of-if type_of s n s.definition.egress_initializers);
          outputs = λ n.
              into.1.outputs n
              ∙ ap
                  (λ l.
                    l
                    ++ (if contains n ingress
                        then port_of type_of s (ingress_of type_of s n)
                        else []))
                  (out.1.outputs n ∙ nothing-if (contains n egress) _)
              ∙ ap (λ l. queued_outputs (find n ms) ++ l)
                  (port_of-if type_of s n s.definition.ingress_initializers);
          all_named = into.1.all_named;
          same_definition = into.2.0;
          same_address = into.2.1.0;
          same_service = into.2.1.1.0;
          all_connected = λ n k. into.2.1.1.1 n k refl;
        },
      )

module _ {I : Type 0} (definition : Pipeline I) (partitions : ℕ) (type_of : I → ℕ)
    (build : ℕ → Outcome (Unit {0})) where
  pub construct-unconnected :
      (addr partition_id : ℕ) (s : Segment I)
      → construct definition partitions type_of build addr partition_id ≡ ok s
      → s.connected ≡ []
  unfolding construct
  construct-unconnected addr partition_id s h = ground arith

  -- A segment created at a free address, on a partition that exists, from a definition whose ports have different
  -- names, stands in the instance, the other segments as before, and to the manifold of every port name it has
  -- queued its egress port of that name, if it has one, as an input, its ingress port as an output, and nothing else.
  pub create_segment-wires :
      (addr partition_id : ℕ) (p : Instance I) (s : Segment I)
      → partition_id < partitions
      → find addr p.segments ≡ none
      → construct definition partitions type_of build addr partition_id ≡ ok s
      → Distinct (port_names s.definition)
      → Named p.manifolds
      → (p' : Instance I) × (s' : Segment I) × (create_segment definition partitions type_of build
            addr partition_id p
          ≡ (ok tt, p'))
        × ((b : ℕ) → find b p'.segments ≡ (if addr =?= b then some s' else find b p.segments))
        × Wired type_of s p.manifolds s' p'.manifolds
  unfolding create_segment
  create_segment-wires addr partition_id p s l f k d h =
      let w = wire type_of s p.manifolds d (construct-unconnected addr partition_id s k) h in
      let inside : ltb partition_id partitions ≡ true = ground arith in
      let p' : Instance I = record p { manifolds = w.1; segments = insert addr w.0 p.segments } in
      (
        p',
        w.0,
        rw (create_segment, inside, check, and_then, f, k, w.2) refl,
        λ b. find-insert addr b w.0 p.segments,
        w.3,
      )
