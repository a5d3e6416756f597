-- ===== src/Builder.antt =====
-- src/internal/segment/builder.cpp with include/srf/segment/builder.hpp and object.hpp: what the initializer of a
-- segment's definition calls to make the objects of a segment and the edges between them.
pub mod Owners
mod Ends
pub mod Sound
pub mod Ports
mod Tests
use srf.Base.{
  ℕ, ◌≡◌, fatal, and_then, ◌++◌, Bool, true, false, List, [], ◌∷◌, Option, none, some, Text,
  text_key, Outcome, ok, throws, Exception, M, ◌>>=◌, ◌>>◌, ◌==◌, if◌then◌else◌, bind,
}
use srf.Base.Map.{Map, find, insert}
use srf.Addresses.{segment_address_encode}
use srf.Segment.{Definition}

-- A runnable of the author's: the types of what it reads and writes, if it is a sink or a source.
pub record Node : Type 0 where
  pub sink_type : Option ℕ
  pub source_type : Option ℕ

-- IngressPort<T> and EgressPort<T>
pub record PortObject : Type 0 where
  pub address : ℕ
  pub data_type : ℕ

-- A runnable has the name that its Object shows.
pub data Object : Type 0 where
  runnable : Text → Node → Object
  ingress_port egress_port : PortObject → Object

-- The SinkProperties or SourceProperties that an object derives from.
abbrev pub object_sink : Object → Option ℕ
object_sink (runnable name n) = n.sink_type
object_sink (ingress_port p) = none
object_sink (egress_port p) = some p.data_type

abbrev pub object_source : Object → Option ℕ
object_source (runnable name n) = n.source_type
object_source (ingress_port p) = some p.data_type
object_source (egress_port p) = none

-- What the author has at hand: an object, of this builder or not, or a node that is in no object.
pub data Given : Type 0 where
  held : Object → Given
  raw : Node → Given

abbrev pub given_sink : Given → Option ℕ
given_sink (held o) = object_sink o
given_sink (raw n) = n.sink_type

abbrev pub given_source : Given → Option ℕ
given_source (held o) = object_source o
given_source (raw n) = n.source_type

-- An end of an edge: the object that was found under a name, or one that was given.
pub data Endpoint : Type 0 where
  by_name : Text → Object → Endpoint
  given : Given → Endpoint

abbrev pub end_sink : Endpoint → Option ℕ
end_sink (by_name a o) = object_sink o
end_sink (given g) = given_sink g

abbrev pub end_source : Endpoint → Option ℕ
end_source (by_name a o) = object_source o
end_source (given g) = given_source g

-- `edges` records the calls of node::make_edge, in order, between types that convert: it ends the process for others.
pub record Builder : Type 0 where
  pub name : Text
  pub objects : Map Text Object
  pub nodes : Map Text Node
  pub ingress_ports : Map Text PortObject
  pub egress_ports : Map Text PortObject
  pub edges : List (Endpoint × Endpoint)

abbrev pub new_builder : Text → Builder
new_builder name = record {
  name = name;
  objects = [];
  nodes = [];
  ingress_ports = [];
  egress_ports = [];
  edges = [];
}

unfoldable pub has_object : Text → Builder → Bool
unfolding find
has_object name b = elim (find name b.objects) [ none ↦ false | some _ ↦ true ]

unfoldable pub find_object : Text → Builder → Outcome Object
unfolding find
find_object name b = elim (find name b.objects) [
  | none ↦ throws Exception.object_not_found
  | some o ↦ ok o
]

unfoldable pub add_object : Text → Object → M Builder (Unit {0})
unfolding has_object insert
add_object name object b =
    if has_object name b
    then (throws Exception.duplicate_object, b)
    else (ok tt, record b { objects = insert name object b.objects })

unfoldable pub add_runnable : Text → Node → M Builder (Unit {0})
unfolding has_object insert
add_runnable name node b =
    if has_object name b
    then (throws Exception.duplicate_object, b)
    else (ok tt, record b { nodes = insert name node b.nodes })

-- The name of a runnable is that of the segment, a slash and the one that it was added under.
abbrev pub full_name : Text → Text → Text
full_name segment name = segment ++ (47 ∷ name)

unfoldable pub make_object : Text → Node → M Builder (Unit {0})
unfolding has_object add_runnable add_object
make_object name node b =
    if has_object name b
    then (throws Exception.duplicate_object, b)
    else (add_runnable name node >> add_object name (runnable (full_name b.name name) node)) b

-- The cast of a base to the properties of a type.
unfoldable cast : Exception → Exception → ℕ → Option ℕ → Outcome (Unit {0})
cast missing wrong type none = throws missing
cast missing wrong type (some t) = if t == type then ok tt else throws wrong

unfoldable pub sink_typed : ℕ → Object → Outcome Object
unfolding cast
sink_typed type o =
    bind (cast Exception.not_a_sink Exception.wrong_sink_type type (object_sink o)) λ _. ok o

unfoldable pub source_typed : ℕ → Object → Outcome Object
unfolding cast
source_typed type o =
    bind (cast Exception.not_a_source Exception.wrong_source_type type (object_source o)) λ _. ok o

-- The casts are arguments of one call, of which C++ does not fix the order: here the source's is first.
unfoldable pub typed_edge : ℕ → ℕ → Object → Object → Outcome (Object × Object)
unfolding source_typed sink_typed
typed_edge source_type sink_type source_obj sink_obj =
    bind (source_typed source_type source_obj)
      λ source. bind (sink_typed sink_type sink_obj) λ sink. ok (source, sink)

-- The edge of a make_dynamic_edge with names, and of one with objects.
unfoldable pub dynamic_edge : ℕ → ℕ → Text → Text → Builder → Outcome (Endpoint × Endpoint)
unfolding find_object typed_edge
dynamic_edge source_type sink_type source_name sink_name b =
    bind (find_object source_name b) λ source_obj. bind (find_object sink_name b) λ sink_obj.
      bind (typed_edge source_type sink_type source_obj sink_obj)
        λ e. ok (by_name source_name e.0, by_name sink_name e.1)

unfoldable pub object_edge : ℕ → ℕ → Object → Object → Outcome (Endpoint × Endpoint)
unfolding typed_edge
object_edge source_type sink_type source sink =
    bind (typed_edge source_type sink_type source sink) λ e. ok (given (held e.0), given (held e.1))

unfoldable pub link : Outcome (Endpoint × Endpoint) → M Builder (Unit {0})
link outcome b =
    and_then (outcome, b) λ edge b. (ok tt, record b { edges = b.edges ++ (edge ∷ []) })

unfoldable pub make_dynamic_edge : ℕ → ℕ → Text → Text → M Builder (Unit {0})
unfolding dynamic_edge link
make_dynamic_edge source_type sink_type source_name sink_name b =
    link (dynamic_edge source_type sink_type source_name sink_name b) b

-- make_dynamic_edge with two objects
unfoldable pub connect_objects : ℕ → ℕ → Object → Object → M Builder (Unit {0})
unfolding object_edge link
connect_objects source_type sink_type source sink =
    link (object_edge source_type sink_type source sink)

-- The overloads of make_edge.
unfoldable pub make_edge : Given → Given → M Builder (Unit {0})
unfolding link
make_edge source sink = link (ok (given source, given sink))

-- get_ingress and get_egress, of the ports that the builder has under a name.
abbrev pub typed_port : Text → ℕ → Map Text PortObject → Outcome PortObject
typed_port name type ports = elim (find name ports) [
  | none ↦ throws Exception.port_not_found
  | some p ↦ if p.data_type == type then ok p else throws Exception.port_type_mismatch
]

unfoldable pub get_ingress : Text → ℕ → Builder → Outcome PortObject
get_ingress name type b = typed_port name type b.ingress_ports

unfoldable pub get_egress : Text → ℕ → Builder → Outcome PortObject
get_egress name type b = typed_port name type b.egress_ports

-- What an initializer calls; an exception ends it, unless the initializer catches it. The compiler sees to it that the
-- ends of a make_edge are a source and a sink.
pub data BuilderCall : Type 0 where
  makes_object : Text → Node → BuilderCall
  makes_edge :
      (source sink : Given) (t u : ℕ)
      → given_source source ≡ some t
      → given_sink sink ≡ some u
      → BuilderCall
  makes_dynamic_edge : ℕ → ℕ → Text → Text → BuilderCall
  connects_objects : ℕ → ℕ → Object → Object → BuilderCall
  gets_ingress gets_egress : Text → ℕ → BuilderCall
  catches : BuilderCall → BuilderCall

abbrev pub caught : Outcome (Unit {0}) → Outcome (Unit {0})
caught (ok _) = ok tt
caught (throws e) = ok tt
caught fatal = fatal

unfoldable pub perform_call : BuilderCall → M Builder (Unit {0})
unfolding make_object make_edge make_dynamic_edge connect_objects get_ingress get_egress
perform_call (makes_object name node) b = make_object name node b
perform_call (makes_edge source sink t u _ _) b = make_edge source sink b
perform_call (makes_dynamic_edge t u source sink) b = make_dynamic_edge t u source sink b
perform_call (connects_objects t u source sink) b = connect_objects t u source sink b
perform_call (gets_ingress name type) b = (bind (get_ingress name type b) λ _. ok tt, b)
perform_call (gets_egress name type) b = (bind (get_egress name type b) λ _. ok tt, b)
perform_call (catches c) b = let (outcome, b) = perform_call c b in (caught outcome, b)

unfoldable pub initialize : List BuilderCall → M Builder (Unit {0})
unfolding perform_call
initialize [] b = (ok tt, b)
initialize (c ∷ cs) b = (perform_call c >> initialize cs) b

module _ {I : Type 0} (type_of : I → ℕ) where
  unfoldable pub construct_ingress : ℕ → Map Text I → Builder → Builder
  unfolding insert
  construct_ingress address [] b = b
  construct_ingress address ((name, i) ∷ rest) b =
      let port : PortObject = record { address = address; data_type = type_of i } in
      construct_ingress address rest (record b {
        ingress_ports = insert name port b.ingress_ports;
        objects = insert name (ingress_port port) b.objects;
      })

  unfoldable pub construct_egress : ℕ → Map Text I → Builder → Builder
  unfolding insert
  construct_egress address [] b = b
  construct_egress address ((name, i) ∷ rest) b =
      let port : PortObject = record { address = address; data_type = type_of i } in
      construct_egress address rest (record b {
        egress_ports = insert name port b.egress_ports;
        objects = insert name (egress_port port) b.objects;
      })

  -- Builder::Builder
  unfoldable pub construct_builder :
      (List BuilderCall) → Definition I → ℕ → Outcome (Unit {0}) × Builder
  unfolding construct_ingress construct_egress initialize segment_address_encode
  construct_builder initializer definition rank =
      let address = segment_address_encode definition.id rank in
      initialize initializer (
        construct_egress address definition.egress_initializers
          (construct_ingress address definition.ingress_initializers (new_builder definition.name)))
