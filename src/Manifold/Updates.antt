-- ===== src/Manifold/Updates.antt =====
-- A refresh attaches all that was queued, once.
use srf.Base.{
  ℕ, ◌≡◌, ◌≢◌, refl, sym, ap, ◌∙◌, true, false, not, List, [], ◌∷◌, ◌++◌, map, Outcome, ok, All,
  Distinct, contains, not-contains_iff, nat_key, ==_iff, Bool-cases, inl, inr,
}
use mathlib.Core.List.{append_assoc, append-nil}
use srf.Manifold.{
  Port, Ingress, Egress, Manifold, add_input, add_output, update, update_inputs, update_outputs,
  start, refresh, update_pick_list,
}

abbrev pub addresses : List Port → List ℕ
addresses = map λ p. p.address

-- Every port carries data of the type.
abbrev pub Fit : ℕ → List Port → Type 0
Fit type = All λ p. p.data_type ≡ type

add_input-ok :
    (type : ℕ) (p : Port) (i : Ingress)
    → p.data_type ≡ type
    → add_input type p i ≡ (ok tt, record { inputs = i.inputs ++ (p.address ∷ []) })
unfolding add_input
add_input-ok type p i h = rw ((==_iff p.data_type type).1 h)

update-inputs :
    (type : ℕ) (ps : List Port) (i : Ingress)
    → Fit type ps
    → update (add_input type) ps i ≡ (ok tt, record { inputs = i.inputs ++ addresses ps })
unfolding update
update-inputs type [] i h = ap (λ l. (ok tt, record { inputs = l })) (sym (append-nil i.inputs))
update-inputs type (p ∷ ps) i h = rw (add_input-ok type p i h.0) (
    update-inputs type ps (record { inputs = i.inputs ++ (p.address ∷ []) }) h.1
    ∙ ap (λ l. (ok tt, record { inputs = l }))
        (append_assoc i.inputs (p.address ∷ []) (addresses ps)))

-- A value that stands in a list without repetitions does not stand before its place.
All-middle : (P : ℕ → Type 0) (xs ys : List ℕ) (a : ℕ) → All P (xs ++ (a ∷ ys)) → P a
All-middle P [] ys a h = h.0
All-middle P (x ∷ xs) ys a h = All-middle P xs ys a h.1

Distinct-middle : (xs ys : List ℕ) (a : ℕ) → Distinct (xs ++ (a ∷ ys)) → contains a xs ≡ false
Distinct-middle xs ys a h = (not-contains_iff a xs).1 (apart xs h)
  where
    apart : (xs : List ℕ) → Distinct (xs ++ (a ∷ ys)) → All (λ y. a ≢ y) xs
    apart [] h = tt
    apart (x ∷ xs) h = (λ e. All-middle (λ y. x ≢ y) xs ys a h.0 (sym e), apart xs h.1)

module _ (shuffle : List ℕ → List ℕ) where
  abbrev with_outputs : List ℕ → Egress → Egress
  with_outputs outputs e = update_pick_list shuffle (record e { outputs = outputs })

  -- The egress after a queue of updates: an empty one changes nothing.
  abbrev pub attached : List Port → Egress → Egress
  attached [] e = e
  attached (p ∷ ps) e = with_outputs (e.outputs ++ addresses (p ∷ ps)) e

  add_output-ok :
      (type : ℕ) (p : Port) (e : Egress)
      → p.data_type ≡ type
      → contains p.address e.outputs ≡ false
      → add_output shuffle type p e ≡ (ok tt, with_outputs (e.outputs ++ (p.address ∷ [])) e)
  unfolding add_output
  add_output-ok type p e h n = rw ((==_iff p.data_type type).1 h, n)

  update-outputs :
      (type : ℕ) (ps : List Port) (e : Egress)
      → Fit type ps
      → Distinct (e.outputs ++ addresses ps)
      → update (add_output shuffle type) ps e ≡ (ok tt, attached ps e)
  unfolding update
  update-outputs type [] e h d = refl
  update-outputs type (p ∷ ps) e h d =
      rw (add_output-ok type p e h.0 (Distinct-middle e.outputs (addresses ps) p.address d)) (
        update-outputs type ps (with_outputs (e.outputs ++ (p.address ∷ [])) e) h.1
          (rw (append_assoc e.outputs (p.address ∷ []) (addresses ps)) d)
        ∙ ap (λ e. (ok tt, e)) (last ps))
    where
      last :
          (ps : List Port)
          → attached ps (with_outputs (e.outputs ++ (p.address ∷ [])) e) ≡ attached (p ∷ ps) e
      last [] = refl
      last (q ∷ qs) =
          ap (λ l. with_outputs l e) (append_assoc e.outputs (p.address ∷ []) (addresses (q ∷ qs)))

  -- The queued ports have the manifold's type, no address is attached as an output twice, and the balancer has
  -- not been lost.
  abbrev pub IsConsistent : Manifold → Type 0
  IsConsistent m =
      Fit m.data_type m.input_updates
      × Fit m.data_type m.output_updates
      × Distinct (m.egress.outputs ++ addresses m.output_updates)
      × (m.balancer ≡ not m.runner)

  abbrev pub refreshed : Manifold → Manifold
  refreshed m = record m {
    input_updates = [];
    output_updates = [];
    ingress = record { inputs = m.ingress.inputs ++ addresses m.input_updates };
    egress = attached m.output_updates m.egress;
    balancer = false;
    runner = true;
  }

  pub attached-outputs :
      (ps : List Port) (e : Egress) → (attached ps e).outputs ≡ e.outputs ++ addresses ps
  attached-outputs [] e = sym (append-nil e.outputs)
  attached-outputs (p ∷ ps) e = refl

  start-ok :
      (m : Manifold)
      → m.balancer ≡ not m.runner
      → start m ≡ (ok tt, record m { balancer = false; runner = true })
  unfolding start
  start-ok m h = elim (Bool-cases m.runner) [
    | inl running ↦ rw (h, running) refl
    | inr new ↦ rw (h, new) refl
  ]

  pub refresh-refreshed : (m : Manifold) → IsConsistent m → refresh shuffle m ≡ (ok tt, refreshed m)
  unfolding refresh update_inputs update_outputs
  refresh-refreshed m (i, o, d, b) =
      rw
        (
          update-inputs m.data_type m.input_updates m.ingress i,
          update-outputs m.data_type m.output_updates m.egress o d,
        )
        (start-ok
          (record m {
            input_updates = [];
            output_updates = [];
            ingress = record { inputs = m.ingress.inputs ++ addresses m.input_updates };
            egress = attached m.output_updates m.egress;
          })
          b)

  -- A refresh of a consistent manifold attaches every queued input and output, in order, leaves nothing queued and
  -- the manifold running, and a further refresh changes nothing.
  pub refresh-attaches :
      (m : Manifold)
      → IsConsistent m
      → (m' : Manifold) × (refresh shuffle m ≡ (ok tt, m'))
        × (m'.ingress.inputs ≡ m.ingress.inputs ++ addresses m.input_updates)
        × (m'.egress.outputs ≡ m.egress.outputs ++ addresses m.output_updates)
        × (m'.input_updates ≡ [])
        × (m'.output_updates ≡ [])
        × (m'.runner ≡ true)
        × (refresh shuffle m' ≡ (ok tt, m'))
  refresh-attaches m c = (
    refreshed m,
    refresh-refreshed m c,
    refl,
    attached-outputs m.output_updates m.egress,
    refl,
    refl,
    refl,
    refresh-refreshed (refreshed m) (
      tt,
      tt,
      rw
          (
            append-nil (attached m.output_updates m.egress).outputs,
            attached-outputs m.output_updates m.egress,
          )
          c.2,
      refl,
    )
        ∙ again,
  )
    where
      again :
          ◌≡◌ {A = Outcome (Unit {0}) × Manifold}
            (ok tt, refreshed (refreshed m))
            (ok tt, refreshed m)
      again =
          ap (λ l. (ok tt, record (refreshed m) { ingress = record { inputs = l } }))
            (append-nil (m.ingress.inputs ++ addresses m.input_updates))
