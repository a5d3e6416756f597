-- ===== src/Names.antt =====
-- src/internal/utils/collision_detector.{hpp,cpp}: the names that are in use, by their hash.
pub mod Registration
mod Tests
use srf.Base.{
  ℕ, Text, text_key, nat_key, ◌=?=◌, Outcome, ok, throws, Exception, M, none, some, if◌then◌else◌,
}
use srf.Base.Map.{Map, find, insert}
use srf.Addresses.{port_name_hash}

-- m_hashes
abbrev pub CollisionDetector : Type 0
CollisionDetector = Map ℕ Text

unfoldable pub register_name : Text → M CollisionDetector ℕ
register_name name hashes = elim (find hash hashes) [
  | none ↦ (ok hash, insert hash name hashes)
  | some other ↦
      if other =?= name then (ok hash, hashes) else (throws Exception.name_collision, hashes)
]
  where
    hash : ℕ
    hash = port_name_hash name

unfoldable pub lookup_name : Text → CollisionDetector → Outcome ℕ
lookup_name name hashes = elim (find hash hashes) [
  | none ↦ throws Exception.name_not_registered
  | some other ↦ if other =?= name then ok hash else throws Exception.name_collision
]
  where
    hash : ℕ
    hash = port_name_hash name

unfoldable pub name_of : ℕ → CollisionDetector → Outcome Text
name_of hash hashes = elim (find hash hashes) [
  | none ↦ throws Exception.hash_not_registered
  | some name ↦ ok name
]
