-- ===== src/Segment/Tests.antt =====
-- Definitions with good and bad ports.
use srf.Base.{
  ℕ, ◌≡◌, ◌↔◌, refl, [], ◌∷◌, map, Text, text_key, nat_key, set_of, ok, throws, Exception, Distinct,
}
use srf.Base.Map.{Map}
use srf.Addresses.{port_name_hash}
use srf.Segment.{Definition, port_names, validate_ports}
use srf.Segment.Ports.{validate_ports-cases}

abbrev exr : Text
exr = b'e' ∷ b'x' ∷ b'r' ∷ []

abbrev jda : Text
jda = b'j' ∷ b'd' ∷ b'a' ∷ []

abbrev with_ports : Map Text ℕ → Map Text ℕ → Definition ℕ
with_ports ins outs = record {
  name = exr;
  id = 0x8A4E;
  ingress_initializers = ins;
  egress_initializers = outs;
}

same_name_twice :
    validate_ports (with_ports ((exr, 0) ∷ []) ((exr, 1) ∷ []))
    ≡ throws Exception.port_names_not_unique
unfolding validate_ports set_of port_name_hash
same_name_twice = refl

validate_ports-cases_example :
    let d = with_ports ((exr, 0) ∷ []) ((jda, 1) ∷ []) in
    let names = port_names d in
    ((validate_ports d ≡ ok tt) ↔ (Distinct names × Distinct (map port_name_hash names)))
    × ((validate_ports d ≡ throws Exception.port_names_not_unique) ↔ (¬ Distinct names))
    × ((validate_ports d ≡ throws Exception.port_hash_collision)
        ↔ (Distinct names × (¬ Distinct (map port_name_hash names))))
validate_ports-cases_example = validate_ports-cases (with_ports ((exr, 0) ∷ []) ((jda, 1) ∷ []))
