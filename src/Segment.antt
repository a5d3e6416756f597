-- ===== src/Segment.antt =====
-- src/internal/segment/definition.{hpp,cpp}: a segment's name, id and ports.
pub mod Ports
mod Tests
use srf.Base.{
  ℕ, ◌++◌, List, map, Text, text_key, nat_key, Outcome, ok, throws, fatal, Exception, length, ◌==◌,
  if◌then◌else◌, set_of,
}
use srf.Base.Map.{Map, keys}
use srf.Addresses.{segment_name_hash, port_name_hash}

-- The initializers are functions that the author of the segment gives: values of any type.
pub record Definition (I : Type 0) : Type 0 where
  pub name : Text
  pub id : ℕ
  pub ingress_initializers : Map Text I
  pub egress_initializers : Map Text I

module _ {I : Type 0} where
  abbrev pub ingress_port_names : Definition I → List Text
  ingress_port_names d = keys d.ingress_initializers

  abbrev pub egress_port_names : Definition I → List Text
  egress_port_names d = keys d.egress_initializers

  abbrev pub port_names : Definition I → List Text
  port_names d = ingress_port_names d ++ egress_port_names d

  unfoldable pub validate_ports : Definition I → Outcome (Unit {0})
  validate_ports d =
      if length (set_of names) == length names
      then if length (set_of (map port_name_hash names)) == length names
        then ok tt
        else throws Exception.port_hash_collision
      else throws Exception.port_names_not_unique
    where
      names : List Text
      names = port_names d

  -- The constructor: it throws if the ports are not valid.
  unfoldable pub define : Text → Map Text I → Map Text I → Outcome (Definition I)
  define name ingress egress = elim (validate_ports d) [
    | ok _ ↦ ok d
    | throws e ↦ throws e
    | fatal ↦ fatal
  ]
    where
      d : Definition I
      d = record {
        name = name;
        id = segment_name_hash name;
        ingress_initializers = ingress;
        egress_initializers = egress;
      }
