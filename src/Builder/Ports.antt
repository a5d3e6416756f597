-- ===== src/Builder/Ports.antt =====
-- The names of the ports and nodes of a builder.
use srf.Base.{
  ℕ, ◌≡◌, refl, sym, ◌∙◌, true, List, [], ◌∷◌, Text, text_key, Outcome, ok, throws, fatal, and_then,
  contains, Bool-cases, inl, inr, arith, ◌=?=◌,
}
use srf.Base.Map.{Map, insert, keys, contains-insert}
use srf.Base.Ascending.{Ascending, insert-Ascending}
use srf.Addresses.{segment_address_encode}
use srf.Segment.{Definition}
use srf.Builder.{
  Builder, Node, PortObject, egress_port, has_object, make_object, make_dynamic_edge, make_edge,
  connect_objects, link, object_edge, Endpoint, given, dynamic_edge, construct_ingress,
  construct_egress, construct_builder, BuilderCall, initialize, perform_call, makes_object,
  makes_edge, makes_dynamic_edge, connects_objects, catches, gets_ingress, gets_egress, new_builder,
}
use srf.Builder.Sound.{make_object-free, make_object-taken}

-- The names of each map are in order, and the egress ports have names from a list.
pub record IsNamed (ports : List Text) (b : Builder) : Type 0 where
  pub egress_names : Ascending (keys b.egress_ports)
  pub ingress_names : Ascending (keys b.ingress_ports)
  pub node_names : Ascending (keys b.nodes)
  pub known : (n : Text) → contains n (keys b.egress_ports) ≡ true → contains n ports ≡ true

module _ (ports : List Text) where
  make_object-IsNamed :
      (a : Text) (n : Node) (b : Builder) → IsNamed ports b → IsNamed ports (make_object a n b).1
  make_object-IsNamed a n b i = elim (Bool-cases (has_object a b)) [
    | inl taken ↦ rw (make_object-taken a n b taken) i
    | inr free ↦ rw (make_object-free a n b free) (record {
      egress_names = i.egress_names;
      ingress_names = i.ingress_names;
      node_names = insert-Ascending a n b.nodes i.node_names;
      known = i.known;
    })
  ]

  link-IsNamed :
      (o : Outcome (Endpoint × Endpoint)) (b : Builder)
      → IsNamed ports b
      → IsNamed ports (link o b).1
  unfolding link
  link-IsNamed (ok e) b i = record {
    egress_names = i.egress_names;
    ingress_names = i.ingress_names;
    node_names = i.node_names;
    known = i.known;
  }
  link-IsNamed (throws e) b i = i
  link-IsNamed fatal b i = i

  perform_call-IsNamed :
      (c : BuilderCall) (b : Builder) → IsNamed ports b → IsNamed ports (perform_call c b).1
  unfolding perform_call make_edge make_dynamic_edge connect_objects
  perform_call-IsNamed (makes_object name node) b i = make_object-IsNamed name node b i
  perform_call-IsNamed (makes_edge source sink t u s o) b i =
      link-IsNamed (ok (given source, given sink)) b i
  perform_call-IsNamed (makes_dynamic_edge t u a c) b i = link-IsNamed (dynamic_edge t u a c b) b i
  perform_call-IsNamed (connects_objects t u p q) b i = link-IsNamed (object_edge t u p q) b i
  perform_call-IsNamed (gets_ingress name type) b i = i
  perform_call-IsNamed (gets_egress name type) b i = i
  perform_call-IsNamed (catches c) b i = perform_call-IsNamed c b i

  initialize-IsNamed :
      (cs : List BuilderCall) (b : Builder) → IsNamed ports b → IsNamed ports (initialize cs b).1
  unfolding initialize
  initialize-IsNamed [] b i = i
  initialize-IsNamed (c ∷ cs) b i =
      go (perform_call c b) (perform_call-IsNamed c b i) (initialize-IsNamed cs)
    where
      go :
          (r : Outcome (Unit {0}) × Builder)
          → IsNamed ports r.1
          → ((b : Builder) → IsNamed ports b → IsNamed ports (initialize cs b).1)
          → IsNamed ports (and_then r λ _. initialize cs).1
      go (ok x, b) i rest = rest b i
      go (throws e, b) i rest = i
      go (fatal, b) i rest = i

  module _ {I : Type 0} (type_of : I → ℕ) (address : ℕ) where
    construct_ingress-IsNamed :
        (m : Map Text I) (b : Builder)
        → IsNamed ports b
        → IsNamed ports (construct_ingress type_of address m b)
    unfolding construct_ingress
    construct_ingress-IsNamed [] b i = i
    construct_ingress-IsNamed ((a, x) ∷ m) b i = construct_ingress-IsNamed m _ (record {
      egress_names = i.egress_names;
      ingress_names = insert-Ascending a _ b.ingress_ports i.ingress_names;
      node_names = i.node_names;
      known = i.known;
    })

    construct_egress-IsNamed :
        (m : Map Text I) (b : Builder)
        → ((n : Text) → contains n (keys m) ≡ true → contains n ports ≡ true)
        → IsNamed ports b
        → IsNamed ports (construct_egress type_of address m b)
    unfolding construct_egress contains
    construct_egress-IsNamed [] b h i = i
    construct_egress-IsNamed ((a, x) ∷ m) b h i =
        let port : PortObject = record { address = address; data_type = type_of x } in
        let with_port : Builder = record b {
          egress_ports = insert a port b.egress_ports;
          objects = insert a (egress_port port) b.objects;
        } in
        let named : IsNamed ports with_port = record {
          egress_names = insert-Ascending a port b.egress_ports i.egress_names;
          ingress_names = i.ingress_names;
          node_names = i.node_names;
          known = λ n k. elim (Bool-cases (a =?= n)) [
            | inl this ↦ h n (rw this refl)
            | inr other ↦ i.known n (sym (contains-insert a n port b.egress_ports other) ∙ k)
          ];
        } in
        construct_egress-IsNamed m with_port (λ n k. h n (ground (arith, k))) named

pub construct_builder-IsNamed :
    {I : Type 0} (type_of : I → ℕ) (initializer : List BuilderCall) (d : Definition I) (rank : ℕ)
    → IsNamed (keys d.egress_initializers) (construct_builder type_of initializer d rank).1
unfolding construct_builder contains
construct_builder-IsNamed type_of initializer d rank =
    let address = segment_address_encode d.id rank in
    let ports = keys d.egress_initializers in
    initialize-IsNamed ports initializer _ (
      construct_egress-IsNamed ports type_of address d.egress_initializers _ (λ n k. k)
        (construct_ingress-IsNamed ports type_of address d.ingress_initializers (new_builder d.name)
          (record {
            egress_names = tt;
            ingress_names = tt;
            node_names = tt;
            known = λ n k. absurd cc;
          })))
