-- ===== src/Controller/Removal.antt =====
-- An update that takes a segment away.
use srf.Base.{
  ℕ, ◌≤◌, ◌≡◌, refl, ap, ◌∙◌, true, false, List, some, Text, nat_key, Outcome, ok, fatal, contains,
  After, After-never, inl, inr,
}
use mathlib.Core.Path.{subst}
use srf.Base.Map.{Map, find, keys}
use srf.Pipeline.{Pipeline}
use srf.Service.{Hook, level}
use srf.Manifold.{Manifold, refresh}
use srf.Instances.{Segment, Instance, stop_segment, update, resume, each_manifold, for_each}
use srf.Controller.{
  Controller, SegmentAddresses, set_difference, reassign, update_segments, create_at,
}
use srf.Controller.Stopping.{Stopped, difference-contains, stops-Stopped, update-Stopped}
use srf.Controller.Refusing.{resume-Still}

module _ {I : Type 0} (definition : Pipeline I) (partitions : ℕ) (type_of : I → ℕ)
    (build : ℕ → Outcome (Unit {0})) (hook : ℕ → Hook → Outcome (Unit {0}))
    (shuffle : List ℕ → List ℕ) where
  -- The update of an instance with a stopped segment: no exception, and no return.
  update-fatal :
      ((b : ℕ) → (hook b Hook.start ≡ ok tt) × (hook b Hook.await_live ≡ ok tt))
      → (a : ℕ) (p : Instance I) (ms : Map Text Manifold)
      → each_manifold (refresh shuffle) p.manifolds ≡ (ok tt, ms)
      → Stopped a p
      → (t : Instance I) × (update hook shuffle p ≡ (fatal, t)) × Stopped a t
  unfolding update
  update-fatal good a p ms e st =
      let (s, f, l) = st in
      let p' : Instance I = record p { manifolds = ms } in
      let r = resume hook p' in
      let still = resume-Still a hook good p' (s, f, l) in
      let same : update hook shuffle p ≡ r = rw e refl in
      (
        r.1,
        same ∙ elim still.0 [
          | inl returns ↦ absurd (
              After-never r
                (subst (After (λ _. ⊥)) same (update-Stopped a definition hook shuffle p st)) tt
                returns)
          | inr ends ↦ ap (λ o. (o, r.1)) ends
        ],
        still.1,
      )

  -- An update whose addresses lack one of the current ones ends the process although all that it asks of others
  -- succeeds, that is, if the segments that it adds are created, those that it takes away are stopped, the manifolds are
  -- refreshed, and the hooks of a start return: the segment that was to go is still in the instance, past Running, so
  -- that its start fails a check, and the new addresses are not stored.
  pub update_segments-removal :
      ((b : ℕ) → (hook b Hook.start ≡ ok tt) × (hook b Hook.await_live ≡ ok tt))
      → (new_segments_map : SegmentAddresses) (c : Controller I) (a : ℕ) (p q : Instance I)
        (ms : Map Text Manifold)
      → contains a (keys c.current_segments) ≡ true
      → contains a (keys new_segments_map) ≡ false
      → for_each
          (create_at definition partitions type_of build new_segments_map)
          (set_difference (keys new_segments_map) (keys c.current_segments))
          c.pipeline
        ≡ (ok tt, p)
      → for_each
          (stop_segment definition hook)
          (set_difference (keys c.current_segments) (keys new_segments_map))
          p
        ≡ (ok tt, q)
      → each_manifold (refresh shuffle) q.manifolds ≡ (ok tt, ms)
      → (t : Instance I) × (update_segments definition partitions type_of build hook shuffle
            new_segments_map c
          ≡ (fatal, record c { pipeline = t }))
        × ((s : Segment I) × (find a t.segments ≡ some s) × (3 ≤ level s.service.state))
  unfolding update_segments reassign
  update_segments-removal good news c a p q ms h n created stopped refreshed =
      let cur = keys c.current_segments in
      let st : Stopped a q = subst (After (Stopped a)) stopped (
        stops-Stopped a definition hook (set_difference cur (keys news)) p
          (difference-contains a cur (keys news) h n)) in
      let u = update-fatal good a q ms refreshed st in (u.0, rw (created, stopped, u.1) refl, u.2)
