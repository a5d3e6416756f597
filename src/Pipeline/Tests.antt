-- ===== src/Pipeline/Tests.antt =====
-- A pipeline of two segments.
use srf.Base.{ℕ, ◌≡◌, refl, ap, [], ◌∷◌, Text, text_key, nat_key, ok, throws, Exception}
use srf.Base.Map.{find, insert}
use srf.Addresses.{port_name_hash}
use srf.Names.{register_name}
use srf.Segment.{Definition}
use srf.Pipeline.{Pipeline, add_segment}
use srf.Pipeline.Segments.{Inv, add_segment-Inv}

abbrev input : Text
input = b'i' ∷ b'n' ∷ []

abbrev output : Text
output = b'o' ∷ b'u' ∷ b't' ∷ []

abbrev source : Definition ℕ
source = record {
  name = b's' ∷ b'r' ∷ b'c' ∷ [];
  id = 0xE1C9;
  ingress_initializers = [];
  egress_initializers = (output, 0) ∷ [];
}

abbrev sink : Definition ℕ
sink = record {
  name = b's' ∷ b'e' ∷ b'g' ∷ [];
  id = 0xEF66;
  ingress_initializers = (output, 1) ∷ [];
  egress_initializers = [];
}

abbrev nothing : Pipeline ℕ
nothing = record { segments = []; segment_hasher = []; port_hasher = [] }

abbrev with_source : Pipeline ℕ
with_source = record {
  segments = (0xE1C9, source) ∷ [];
  segment_hasher = (0xE1C9, source.name) ∷ [];
  port_hasher = (0x365F, output) ∷ [];
}

add_source : add_segment source nothing ≡ (ok tt, with_source)
unfolding add_segment register_name port_name_hash find insert
add_source = refl

add_source_twice : (add_segment source with_source).0 ≡ throws Exception.duplicate_segment
unfolding add_segment register_name port_name_hash find insert
add_source_twice = refl

nothing-Inv : Inv nothing
unfolding find
nothing-Inv = record { at = λ id d e. absurd (cc e) }

add_segment-Inv_example : Inv (add_segment source nothing).1
add_segment-Inv_example = add_segment-Inv source nothing nothing-Inv

with_source-Inv : Inv with_source
with_source-Inv = rw (ap (λ r. r.1) add_source) at (add_segment-Inv source nothing nothing-Inv)

abbrev both : Pipeline ℕ
both = (add_segment sink with_source).1
