-- ===== src/Pipeline.antt =====
-- src/internal/pipeline/pipeline.{hpp,cpp}: the segments of a pipeline, by their ids.
pub mod Ports
pub mod Segments
mod Tests
use srf.Base.{
  ℕ, List, [], ◌∷◌, Text, text_key, nat_key, Outcome, ok, throws, fatal, Exception, M, and_then,
  ◌>>=◌, ◌>>◌, none, some,
}
use srf.Base.Map.{Map, find, insert}
use srf.Names.{CollisionDetector, register_name}
use srf.Segment.{Definition, ingress_port_names, egress_port_names}

pub record Pipeline (I : Type 0) : Type 0 where
  pub segments : Map ℕ (Definition I)
  pub segment_hasher : CollisionDetector
  pub port_hasher : CollisionDetector

module _ {I : Type 0} where
  pub register_segment : Text → M (Pipeline I) ℕ
  register_segment name p =
      let (id, hashes) = register_name name p.segment_hasher in
      (id, record p { segment_hasher = hashes })

  pub register_port : Text → M (Pipeline I) ℕ
  register_port name p =
      let (id, hashes) = register_name name p.port_hasher in (id, record p { port_hasher = hashes })

  -- One of the two loops over port names.
  pub register_ports : List Text → M (Pipeline I) (Unit {0})
  unfolding register_port
  register_ports [] p = (ok tt, p)
  register_ports (name ∷ names) p = and_then (register_port name p) (λ _. register_ports names)

  -- Throws if the id is taken.
  pub refuse_duplicate : ℕ → M (Pipeline I) (Unit {0})
  refuse_duplicate id p = elim (find id p.segments) [
    | none ↦ (ok tt, p)
    | some _ ↦ (throws Exception.duplicate_segment, p)
  ]

  pub store : ℕ → Definition I → M (Pipeline I) (Unit {0})
  store id segment p = (ok tt, record p { segments = insert id segment p.segments })

  unfoldable pub add_segment : Definition I → M (Pipeline I) (Unit {0})
  unfolding register_segment refuse_duplicate register_ports store
  add_segment segment = do
    id ← register_segment segment.name
    refuse_duplicate id
    register_ports (ingress_port_names segment)
    register_ports (egress_port_names segment)
    store id segment

  unfoldable pub find_segment : ℕ → Pipeline I → Outcome (Definition I)
  find_segment segment_id p = elim (find segment_id p.segments) [
    | none ↦ fatal
    | some segment ↦ ok segment
  ]
