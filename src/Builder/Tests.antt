-- ===== src/Builder/Tests.antt =====
-- A segment with a node between its two ports, and a second node of the same name, which is refused.
use srf.Base.{ℕ, ◌≡◌, refl, List, [], ◌∷◌, some, throws, length, Exception}
use srf.Segment.{Definition}
use srf.Builder.{
  BuilderCall, makes_object, makes_edge, raw, catches, makes_dynamic_edge, gets_ingress,
  construct_builder, Node,
}
use srf.Builder.Sound.{IsSound, construct_builder-IsSound}

abbrev relay : Definition ℕ
relay = record {
  name = 114 ∷ [];
  id = 1;
  ingress_initializers = (105 ∷ [], 7) ∷ [];
  egress_initializers = (111 ∷ [], 8) ∷ [];
}

abbrev converter : Node
converter = record { sink_type = some 7; source_type = some 8 }

abbrev calls : List BuilderCall
calls =
    gets_ingress (105 ∷ []) 7
    ∷ makes_object (110 ∷ []) converter
    ∷ makes_dynamic_edge 7 7 (105 ∷ []) (110 ∷ [])
    ∷ catches (makes_object (110 ∷ []) converter)
    ∷ makes_edge (raw converter) (raw converter) 8 7 refl refl
    ∷ catches (makes_dynamic_edge 8 8 (111 ∷ []) (110 ∷ []))
    ∷ makes_dynamic_edge 8 8 (110 ∷ []) (111 ∷ [])
    ∷ makes_object (110 ∷ []) converter
    ∷ []

-- Three edges were made before the exception that was not caught.
duplicate_refused :
    ((construct_builder (λ i. i) calls relay 0).0 ≡ throws Exception.duplicate_object)
    × (length (construct_builder (λ i. i) calls relay 0).1.edges ≡ 3)
unfolding construct_builder
duplicate_refused = (refl, refl)

construct_builder-IsSound_example : IsSound (construct_builder (λ i. i) calls relay 0).1
construct_builder-IsSound_example = construct_builder-IsSound (λ i. i) calls relay 0
