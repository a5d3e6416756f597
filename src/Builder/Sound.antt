-- ===== src/Builder/Sound.antt =====
-- What an initializer keeps of a builder.
use srf.Base.{
  ℕ, ◌≡◌, refl, sym, ap, ◌∙◌, true, false, List, [], ◌∷◌, none, some, Text, text_key, Outcome, ok,
  throws, fatal, Exception, and_then, ◌=?=◌, Bool-cases, inl, inr, All, All-weaken, ok-injective,
  All-append,
}
use mathlib.Core.Path.{subst}
use srf.Base.Map.{find, insert, insert-here, insert-there}
use srf.Addresses.{segment_address_encode}
use srf.Segment.{Definition}
use srf.Builder.{
  Builder, Node, Object, runnable, full_name, has_object, make_object, add_object,
  construct_ingress, construct_egress, construct_builder, BuilderCall, initialize, perform_call,
  makes_object, makes_edge, makes_dynamic_edge, connects_objects, catches, gets_ingress,
  gets_egress, make_edge, connect_objects, link, object_edge, Endpoint, by_name, given,
  make_dynamic_edge, dynamic_edge, new_builder,
}
use srf.Builder.Ends.{IsEnd, IsEdge, dynamic_edge-IsEdge, object_edge-IsEdge}
use srf.Builder.Owners.{
  IsOwned, IsStarted, owner, chosen, has_object-find, chosen-none, construct_ingress-IsStarted,
  construct_egress-IsStarted, new-IsStarted,
}

-- A new node under a free name.
abbrev added : Text → Node → Builder → Builder
added a n b = record b {
  nodes = insert a n b.nodes;
  objects = insert a (runnable (full_name b.name a) n) b.objects;
}

add_object-free :
    (a : Text) (o : Object) (b : Builder)
    → has_object a b ≡ false
    → add_object a o b ≡ (ok tt, record b { objects = insert a o b.objects })
unfolding add_object
add_object-free a o b h = rw h refl

-- The two additions test the name again.
pub make_object-free :
    (a : Text) (n : Node) (b : Builder)
    → has_object a b ≡ false
    → make_object a n b ≡ (ok tt, added a n b)
unfolding make_object has_object
make_object-free a n b h = rw h (
    add_object-free a (runnable (full_name b.name a) n) (record b { nodes = insert a n b.nodes }) h)

pub make_object-taken :
    (a : Text) (n : Node) (b : Builder)
    → has_object a b ≡ true
    → make_object a n b ≡ (throws Exception.duplicate_object, b)
unfolding make_object
make_object-taken a n b h = rw h refl

added-IsOwned :
    (a : Text) (n : Node) (b : Builder) → has_object a b ≡ false → IsOwned b → IsOwned (added a n b)
added-IsOwned a n b h i = record {
  owned = λ c. elim (Bool-cases (a =?= c)) [
    | inl this ↦ at c ((text_key.beq_iff a c).0 this)
    | inr other ↦
        insert-there a c (runnable (full_name b.name a) n) b.objects other
        ∙ i.owned c
        ∙ ap (λ f. chosen b.name c f (find c b.egress_ports) (find c b.ingress_ports))
            (sym (insert-there a c n b.nodes other))
  ];
  apart = λ c m f. elim (Bool-cases (a =?= c)) [
    | inl this ↦ alone c ((text_key.beq_iff a c).0 this)
    | inr other ↦ i.apart c m (sym (insert-there a c n b.nodes other) ∙ f)
  ];
}
  where
    at : (c : Text) → a ≡ c → find c (added a n b).objects ≡ owner c (added a n b)
    at c e = rw (sym e) (
        insert-here a (runnable (full_name b.name a) n) b.objects
        ∙ ap (λ f. chosen b.name a f (find a b.egress_ports) (find a b.ingress_ports))
            (sym (insert-here a n b.nodes)))

    alone : (c : Text) → a ≡ c → (find c b.egress_ports ≡ none) × (find c b.ingress_ports ≡ none)
    alone c e =
        let free =
          chosen-none b.name a (find a b.nodes) (find a b.egress_ports) (find a b.ingress_ports)
            (sym (i.owned a) ∙ has_object-find a b h) in
        rw (sym e) (free.1, free.2)

pub record IsSound (b : Builder) : Type 0 where
  pub objects : IsOwned b
  pub edges : All (IsEdge b) b.edges

IsStarted-IsSound : (b : Builder) → IsStarted b → IsSound b
IsStarted-IsSound b s = record {
  objects = record { owned = s.owned; apart = λ a n f. absurd cc (s.no_node a, f) };
  edges = rw s.no_edge tt;
}

added-kept :
    (a : Text) (n : Node) (b : Builder) (c : Text) (o : Object)
    → has_object a b ≡ false
    → find c b.objects ≡ some o
    → find c (added a n b).objects ≡ some o
added-kept a n b c o h f = elim (Bool-cases (a =?= c)) [
  | inl this ↦
      absurd cc
        (has_object-find a b h, ap (λ d. find d b.objects) ((text_key.beq_iff a c).0 this), f)
  | inr other ↦ insert-there a c (runnable (full_name b.name a) n) b.objects other ∙ f
]

IsEnd-kept :
    (a : Text) (n : Node) (b : Builder) (e : Endpoint)
    → has_object a b ≡ false
    → IsEnd b e
    → IsEnd (added a n b) e
IsEnd-kept a n b (by_name c o) h f = added-kept a n b c o h f
IsEnd-kept a n b (given g) h f = tt

make_object-IsSound :
    (a : Text) (n : Node) (b : Builder) → IsSound b → IsSound (make_object a n b).1
make_object-IsSound a n b i = elim (Bool-cases (has_object a b)) [
  | inl taken ↦ rw (make_object-taken a n b taken) i
  | inr free ↦ rw (make_object-free a n b free) (record {
    objects = added-IsOwned a n b free i.objects;
    edges =
        All-weaken b.edges
          (λ (s, t) (f, g, x, y). (IsEnd-kept a n b s free f, IsEnd-kept a n b t free g, x, y))
          i.edges;
  })
]

link-IsSound :
    (o : Outcome (Endpoint × Endpoint)) (b : Builder)
    → ((e : Endpoint × Endpoint) → o ≡ ok e → IsEdge b e)
    → IsSound b
    → IsSound (link o b).1
unfolding link
link-IsSound (ok e) b h i = record {
  objects = record { owned = i.objects.owned; apart = i.objects.apart };
  edges = All-append (IsEdge b) b.edges e i.edges (h e refl);
}
link-IsSound (throws e) b h i = i
link-IsSound fatal b h i = i

perform_call-IsSound : (c : BuilderCall) (b : Builder) → IsSound b → IsSound (perform_call c b).1
unfolding perform_call make_edge make_dynamic_edge connect_objects
perform_call-IsSound (makes_object name node) b i = make_object-IsSound name node b i
perform_call-IsSound (makes_edge source sink t u s o) b i =
    link-IsSound (ok (given source, given sink)) b
      (λ e h.
        subst (IsEdge b) (ok-injective (given source, given sink) e h) (tt, tt, (t, s), (u, o)))
      i
perform_call-IsSound (makes_dynamic_edge t u a c) b i =
    link-IsSound (dynamic_edge t u a c b) b (dynamic_edge-IsEdge t u a c b) i
perform_call-IsSound (connects_objects t u p q) b i =
    link-IsSound (object_edge t u p q) b (object_edge-IsEdge t u p q b) i
perform_call-IsSound (gets_ingress name type) b i = i
perform_call-IsSound (gets_egress name type) b i = i
perform_call-IsSound (catches c) b i = perform_call-IsSound c b i

initialize-IsSound : (cs : List BuilderCall) (b : Builder) → IsSound b → IsSound (initialize cs b).1
unfolding initialize
initialize-IsSound [] b i = i
initialize-IsSound (c ∷ cs) b i =
    go (perform_call c b) (perform_call-IsSound c b i) (initialize-IsSound cs)
  where
    go :
        (r : Outcome (Unit {0}) × Builder)
        → IsSound r.1
        → ((b : Builder) → IsSound b → IsSound (initialize cs b).1)
        → IsSound (and_then r λ _. initialize cs).1
    go (ok x, b) i rest = rest b i
    go (throws e, b) i rest = i
    go (fatal, b) i rest = i

module _ {I : Type 0} (type_of : I → ℕ) where
  -- Whatever an initializer makes and connects, by names, by objects or by nodes of its own, whether it catches
  -- exceptions, and however it ends, the builder is sound: a name stands for the node that was made under it, or else for
  -- the egress or ingress port of the definition, never for a node and a port; each edge goes from a source to a sink;
  -- and an end that was given by its name is the builder's object of that name.
  pub construct_builder-IsSound :
      (initializer : List BuilderCall) (definition : Definition I) (rank : ℕ)
      → IsSound (construct_builder type_of initializer definition rank).1
  unfolding construct_builder find
  construct_builder-IsSound initializer d rank =
      let address = segment_address_encode d.id rank in
      let b = construct_ingress type_of address d.ingress_initializers (new_builder d.name) in
      initialize-IsSound initializer (construct_egress type_of address d.egress_initializers b) (
        IsStarted-IsSound _ (
          construct_egress-IsStarted type_of address d.egress_initializers b (
            construct_ingress-IsStarted type_of address d.ingress_initializers (new_builder d.name)
              (λ c. refl) (new-IsStarted d.name))))
