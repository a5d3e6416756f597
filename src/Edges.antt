-- ===== src/Edges.antt =====
-- src/public/node/edge_registry.cpp: the converters between the types of writers and readers.
pub mod Converters
mod Tests
use srf.Base.{
  ℕ, Bool, true, false, [], none, some, nat_key, Outcome, ok, throws, Exception, M, and_then,
}
use srf.Base.Map.{Map, find, insert}

-- registered_converters: from source type to sink type. A type is its std::type_index, a number.
abbrev pub Registry : Type 0 → Type 0
Registry F = Map ℕ (Map ℕ F)

module _ {F : Type 0} where
  -- registered_converters[writer_type]; an entry that is not there is added, with an empty map.
  unfoldable pub readers_of : ℕ → M (Registry F) (Map ℕ F)
  readers_of writer_type registry = elim (find writer_type registry) [
    | some readers_map ↦ (ok readers_map, registry)
    | none ↦ (ok [], insert writer_type [] registry)
  ]

  unfoldable pub register_converter : ℕ → ℕ → F → M (Registry F) (Unit {0})
  unfolding readers_of
  register_converter writer_type reader_type converter registry =
      and_then (readers_of writer_type registry) λ readers_map registry.
        elim (find reader_type readers_map) [
          | some _ ↦ (throws Exception.duplicate_converter, registry)
          | none ↦ (ok tt, insert writer_type (insert reader_type converter readers_map) registry)
        ]

  unfoldable pub has_converter : ℕ → ℕ → Registry F → Bool
  has_converter writer_type reader_type registry = elim (find writer_type registry) [
    | none ↦ false
    | some readers_map ↦ elim (find reader_type readers_map) [ none ↦ false | some _ ↦ true ]
  ]

  unfoldable pub find_converter : ℕ → ℕ → Registry F → Outcome F
  find_converter writer_type reader_type registry = elim (find writer_type registry) [
    | none ↦ throws Exception.no_writer_type
    | some readers_map ↦ elim (find reader_type readers_map) [
      | none ↦ throws Exception.no_reader_type
      | some converter ↦ ok converter
    ]
  ]
