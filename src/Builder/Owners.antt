-- ===== src/Builder/Owners.antt =====
-- What the objects of a builder are.
use srf.Base.{
  ℕ, ◌≡◌, refl, sym, ap, ◌∙◌, true, false, [], ◌∷◌, Option, none, some, Text, text_key, ◌=?=◌,
  Bool-cases, Option-cases, inl, inr,
}
use srf.Base.Map.{Map, find, insert, insert-here, insert-there}
use srf.Builder.{
  Builder, Node, Object, PortObject, runnable, ingress_port, egress_port, full_name, has_object,
  construct_ingress, construct_egress, new_builder,
}

-- The object that a name should stand for, by what is found under it: the node, or else the egress or ingress port.
abbrev pub chosen :
    Text → Text → Option Node → Option PortObject → Option PortObject → Option Object
chosen segment a (some n) e i = some (runnable (full_name segment a) n)
chosen segment a none (some p) i = some (egress_port p)
chosen segment a none none (some p) = some (ingress_port p)
chosen segment a none none none = none

abbrev pub owner : Text → Builder → Option Object
owner a b = chosen b.name a (find a b.nodes) (find a b.egress_ports) (find a b.ingress_ports)

-- Every object is owned, and no node has the name of a port.
pub record IsOwned (b : Builder) : Type 0 where
  pub owned : (a : Text) → find a b.objects ≡ owner a b
  pub apart :
      (a : Text) (n : Node)
      → find a b.nodes ≡ some n
      → (find a b.egress_ports ≡ none) × (find a b.ingress_ports ≡ none)

pub has_object-find : (a : Text) (b : Builder) → has_object a b ≡ false → find a b.objects ≡ none
unfolding has_object
has_object-find a b h = elim (Option-cases (find a b.objects)) [
  | inl missing ↦ missing
  | inr (o, found) ↦ absurd cc (h, ap (λ f. elim f [ none ↦ false | some _ ↦ true ]) found)
]

pub chosen-none :
    (segment a : Text) (n : Option Node) (e i : Option PortObject)
    → chosen segment a n e i ≡ none
    → (n ≡ none) × (e ≡ none) × (i ≡ none)
chosen-none segment a (some n) e i h = absurd cc
chosen-none segment a none (some p) i h = absurd cc
chosen-none segment a none none (some p) h = absurd cc
chosen-none segment a none none none h = (refl, refl, refl)

-- A new port, whose name is free but for a port of the other kind.
abbrev with_ingress : Text → PortObject → Builder → Builder
with_ingress a p b = record b {
  ingress_ports = insert a p b.ingress_ports;
  objects = insert a (ingress_port p) b.objects;
}

abbrev with_egress : Text → PortObject → Builder → Builder
with_egress a p b = record b {
  egress_ports = insert a p b.egress_ports;
  objects = insert a (egress_port p) b.objects;
}

-- A builder that has no node yet.
pub record IsStarted (b : Builder) : Type 0 where
  pub no_node : (a : Text) → find a b.nodes ≡ none
  pub owned : (a : Text) → find a b.objects ≡ owner a b
  pub no_edge : b.edges ≡ []

with_ingress-IsStarted :
    (a : Text) (p : PortObject) (b : Builder)
    → ((c : Text) → find c b.egress_ports ≡ none)
    → IsStarted b
    → IsStarted (with_ingress a p b)
with_ingress-IsStarted a p b h s = record {
  no_node = s.no_node;
  no_edge = s.no_edge;
  owned = λ c. elim (Bool-cases (a =?= c)) [
    | inl this ↦ at c ((text_key.beq_iff a c).0 this)
    | inr other ↦
        insert-there a c (ingress_port p) b.objects other
        ∙ s.owned c
        ∙ ap (chosen b.name c (find c b.nodes) (find c b.egress_ports))
            (sym (insert-there a c p b.ingress_ports other))
  ];
}
  where
    at :
        (c : Text)
        → a ≡ c
        → find c (insert a (ingress_port p) b.objects) ≡ owner c (with_ingress a p b)
    at c e = rw (sym e) (
        rw (s.no_node a, h a, insert-here a p b.ingress_ports)
          (insert-here a (ingress_port p) b.objects))

with_egress-IsStarted :
    (a : Text) (p : PortObject) (b : Builder) → IsStarted b → IsStarted (with_egress a p b)
with_egress-IsStarted a p b s = record {
  no_node = s.no_node;
  no_edge = s.no_edge;
  owned = λ c. elim (Bool-cases (a =?= c)) [
    | inl this ↦ at c ((text_key.beq_iff a c).0 this)
    | inr other ↦
        insert-there a c (egress_port p) b.objects other
        ∙ s.owned c
        ∙ ap (λ f. chosen b.name c (find c b.nodes) f (find c b.ingress_ports))
            (sym (insert-there a c p b.egress_ports other))
  ];
}
  where
    at :
        (c : Text)
        → a ≡ c
        → find c (insert a (egress_port p) b.objects) ≡ owner c (with_egress a p b)
    at c e =
        rw (sym e) (
          rw (s.no_node a, insert-here a p b.egress_ports)
            (insert-here a (egress_port p) b.objects))

pub new-IsStarted : (name : Text) → IsStarted (new_builder name)
unfolding find
new-IsStarted name = record { no_node = λ a. refl; owned = λ a. refl; no_edge = refl }

module _ {I : Type 0} (type_of : I → ℕ) where
  pub construct_ingress-IsStarted :
      (address : ℕ) (m : Map Text I) (b : Builder)
      → ((c : Text) → find c b.egress_ports ≡ none)
      → IsStarted b
      → IsStarted (construct_ingress type_of address m b)
  unfolding construct_ingress
  construct_ingress-IsStarted address [] b h s = s
  construct_ingress-IsStarted address ((a, i) ∷ m) b h s =
      let p : PortObject = record { address = address; data_type = type_of i } in
      construct_ingress-IsStarted address m (with_ingress a p b) h
        (with_ingress-IsStarted a p b h s)

  pub construct_egress-IsStarted :
      (address : ℕ) (m : Map Text I) (b : Builder)
      → IsStarted b
      → IsStarted (construct_egress type_of address m b)
  unfolding construct_egress
  construct_egress-IsStarted address [] b s = s
  construct_egress-IsStarted address ((a, i) ∷ m) b s =
      let p : PortObject = record { address = address; data_type = type_of i } in
      construct_egress-IsStarted address m (with_egress a p b) (with_egress-IsStarted a p b s)
