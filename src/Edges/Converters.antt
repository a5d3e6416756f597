-- ===== src/Edges/Converters.antt =====
-- A registry stands for a partial function from pairs of types to converters.
use srf.Base.{
  ℕ, arith, ◌≡◌, refl, sym, ap, ◌∙◌, Bool, true, false, ◌&&◌, [], Option, none, some, nat_key, ok,
  throws, Exception, and_then, Option-cases, Bool-cases, inl, inr, ◌==◌, ==_iff, if◌then◌else◌,
}
use srf.Base.Map.{Map, find, insert, find-insert}
use srf.Edges.{Registry, readers_of, register_converter, has_converter, find_converter}

module _ {F : Type 0} where
  abbrev pub row : Option (Map ℕ F) → ℕ → Option F
  row none reader = none
  row (some readers) reader = find reader readers

  -- The converter of a pair of types, if there is one.
  abbrev pub view : Registry F → ℕ → ℕ → Option F
  view registry writer reader = row (find writer registry) reader

  -- The function with one more value.
  abbrev pub extended : (ℕ → ℕ → Option F) → ℕ → ℕ → F → ℕ → ℕ → Option F
  extended f writer reader converter w r =
      if writer == w && reader == r then some converter else f w r

  abbrev pub found : Option F → Bool
  found none = false
  found (some c) = true

  -- What register_converter leaves: the readers of the writer type are `readers` with the converter.
  view-insert :
      (registry : Registry F) (writer reader : ℕ) (converter : F) (readers : Map ℕ F)
      → ((r : ℕ) → find r readers ≡ view registry writer r)
      → (w r : ℕ)
      → view (insert writer (insert reader converter readers) registry) w r
        ≡ extended (view registry) writer reader converter w r
  view-insert registry writer reader converter readers same w r =
      ap (λ m. row m r) (find-insert writer w (insert reader converter readers) registry)
      ∙ elim (Bool-cases (writer == w)) [
        | inl this ↦ rw⁻¹ ((==_iff writer w).0 this) (
            rw ((==_iff writer writer).1 refl) (
              find-insert reader r converter readers
              ∙ ap (λ o. if reader == r then some converter else o) (same r)))
        | inr other ↦ rw other refl
      ]

  view-empty :
      (registry : Registry F) (writer : ℕ)
      → find writer registry ≡ none
      → (w r : ℕ) → view (insert writer [] registry) w r ≡ view registry w r
  unfolding find
  view-empty registry writer missing w r =
      ap (λ m. row m r) (find-insert writer w [] registry) ∙ elim (Bool-cases (writer == w)) [
        | inl this ↦
            rw⁻¹ ((==_iff writer w).0 this)
              (rw ((==_iff writer writer).1 refl) (sym (ap (λ m. row m r) missing)))
        | inr other ↦ rw other refl
      ]

  register_converter-new :
      (writer reader : ℕ) (converter : F) (registry : Registry F)
      → view registry writer reader ≡ none
      → (registry' : Registry F) × (register_converter writer reader converter registry
          ≡ (ok tt, registry'))
        × ((w r : ℕ) → view registry' w r ≡ extended (view registry) writer reader converter w r)
  unfolding register_converter readers_of find
  register_converter-new writer reader converter registry h =
      elim (Option-cases (find writer registry)) [
        | inl missing ↦
            let known : Registry F = insert writer [] registry in
            (
              insert writer (insert reader converter []) known,
              rw (register_converter, readers_of, missing) refl,
              λ w r.
                  view-insert known writer reader converter []
                    (λ r.
                      sym (view-empty registry writer missing writer r ∙ ap (λ m. row m r) missing))
                    w r
                  ∙ ap (λ o. if writer == w && reader == r then some converter else o)
                      (view-empty registry writer missing w r),
            )
        | inr (readers, present) ↦ (
          insert writer (insert reader converter readers) registry,
          rw
              (
                register_converter,
                readers_of,
                present,
                and_then,
                sym (ap (λ m. row m reader) present) ∙ h,
              )
              refl,
          λ w r.
              view-insert registry writer reader converter readers
                (λ r. sym (ap (λ m. row m r) present)) w r,
        )
      ]

  register_converter-old :
      (writer reader : ℕ) (converter c : F) (registry : Registry F)
      → view registry writer reader ≡ some c
      → register_converter writer reader converter registry
        ≡ (throws Exception.duplicate_converter, registry)
  unfolding register_converter readers_of
  register_converter-old writer reader converter c registry h =
      elim (Option-cases (find writer registry)) [
        | inl missing ↦ absurd cc (h, missing)
        | inr (readers, present) ↦
            rw
              (
                register_converter,
                readers_of,
                present,
                and_then,
                sym (ap (λ m. row m reader) present) ∙ h,
              )
              refl
      ]

  test-found : (o : Option F) → (elim o [ none ↦ false | some _ ↦ true ]) ≡ found o
  test-found none = refl
  test-found (some c) = refl

  has_converter-view :
      (writer reader : ℕ) (registry : Registry F)
      → has_converter writer reader registry ≡ found (view registry writer reader)
  unfolding has_converter
  has_converter-view writer reader registry = elim (Option-cases (find writer registry)) [
    | inl missing ↦ rw (has_converter, ap (λ m. row m reader) missing, missing) refl
    | inr (readers, present) ↦
        rw (has_converter, ap (λ m. row m reader) present, present)
          (test-found (find reader readers))
  ]

  find_converter-view :
      (writer reader : ℕ) (c : F) (registry : Registry F)
      → view registry writer reader ≡ some c
      → find_converter writer reader registry ≡ ok c
  unfolding find_converter
  find_converter-view writer reader c registry h = ground (arith, h)

  -- The registry is the partial function `view`. A registration extends the function by the pair that it is given
  -- if the pair has no converter, and otherwise throws and changes nothing; has_converter tells where the function
  -- is defined, and find_converter gives its value there.
  pub registry-refines :
      (writer reader : ℕ) (converter : F) (registry : Registry F)
      → (view registry writer reader ≡ none
          → (registry' : Registry F) × (register_converter writer reader converter registry
              ≡ (ok tt, registry'))
            × ((w r : ℕ)
                → view registry' w r ≡ extended (view registry) writer reader converter w r))
        × ((c : F)
            → view registry writer reader ≡ some c
            → register_converter writer reader converter registry
              ≡ (throws Exception.duplicate_converter, registry))
        × (has_converter writer reader registry ≡ found (view registry writer reader))
        × ((c : F)
            → view registry writer reader ≡ some c
            → find_converter writer reader registry ≡ ok c)
  registry-refines writer reader converter registry = (
    register_converter-new writer reader converter registry,
    (λ c. register_converter-old writer reader converter c registry),
    has_converter-view writer reader registry,
    (λ c. find_converter-view writer reader c registry),
  )
