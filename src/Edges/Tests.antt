-- ===== src/Edges/Tests.antt =====
-- A registry with one converter.
use srf.Base.{ℕ, ◌≡◌, refl, [], ◌∷◌, none, some, ok, throws, Exception}
use srf.Base.Map.{find}
use srf.Edges.{Registry, register_converter, has_converter, find_converter}
use srf.Edges.Converters.{view, extended, found, registry-refines}

abbrev one_converter : Registry ℕ
one_converter = (1, (2, 12) ∷ []) ∷ []

no_reader : find_converter 1 3 one_converter ≡ throws Exception.no_reader_type
unfolding find_converter find
no_reader = refl

registry-refines_example :
    (view one_converter 1 3 ≡ none
      → (registry' : Registry ℕ) × (register_converter 1 3 13 one_converter ≡ (ok tt, registry'))
        × ((w r : ℕ) → view registry' w r ≡ extended (view one_converter) 1 3 13 w r))
    × ((c : ℕ)
        → view one_converter 1 3 ≡ some c
        → register_converter 1 3 13 one_converter
          ≡ (throws Exception.duplicate_converter, one_converter))
    × (has_converter 1 3 one_converter ≡ found (view one_converter 1 3))
    × ((c : ℕ) → view one_converter 1 3 ≡ some c → find_converter 1 3 one_converter ≡ ok c)
registry-refines_example = registry-refines 1 3 13 one_converter
