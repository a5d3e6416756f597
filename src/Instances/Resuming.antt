-- ===== src/Instances/Resuming.antt =====
-- The update of an instance: its manifolds are refreshed, and its segments started.
use srf.Base.{
  ℕ, ◌≡◌, refl, true, List, [], ◌∷◌, nat_key, Text, text_key, Outcome, ok, All, All-weaken,
  All-contains,
}
use srf.Base.Map.{Map, keys, contains-find}
use srf.Service.{Hook}
use srf.Manifold.{Manifold, refresh}
use srf.Manifold.Updates.{IsConsistent, refreshed, refresh-refreshed}
use srf.Instances.{Instance, each_manifold, mark_joinable, resume, update}
use srf.Instances.Starting.{Live, Kept, Startable, for_each-Starts}

-- Every manifold is consistent.
abbrev pub AllConsistent : (List ℕ → List ℕ) → Map Text Manifold → Type 0
AllConsistent shuffle = All λ e. IsConsistent shuffle e.1

abbrev pub refresh_each : (List ℕ → List ℕ) → Map Text Manifold → Map Text Manifold
refresh_each shuffle [] = []
refresh_each shuffle ((name, m) ∷ ms) = (name, refreshed shuffle m) ∷ refresh_each shuffle ms

each_manifold-refreshed :
    (shuffle : List ℕ → List ℕ) (ms : Map Text Manifold)
    → AllConsistent shuffle ms
    → each_manifold (refresh shuffle) ms ≡ (ok tt, refresh_each shuffle ms)
unfolding each_manifold
each_manifold-refreshed shuffle [] h = refl
each_manifold-refreshed shuffle ((name, m) ∷ ms) (c, h) =
    rw (refresh-refreshed shuffle m c, each_manifold-refreshed shuffle ms h) refl

module _ {I : Type 0} (hook : ℕ → Hook → Outcome (Unit {0}))
    (good : (a : ℕ) → (hook a Hook.start ≡ ok tt) × (hook a Hook.await_live ≡ ok tt)) where
  -- An update of an instance with consistent manifolds, whose segments are new or run and whose hooks return, returns
  -- too: every manifold is refreshed, every segment runs, the same one as before, and the instance is joinable.
  pub update-resumes :
      (shuffle : List ℕ → List ℕ) (p : Instance I)
      → AllConsistent shuffle p.manifolds
      → Startable p
      → (q : Instance I) × (update hook shuffle p ≡ (ok tt, q))
        × (q.manifolds ≡ refresh_each shuffle p.manifolds)
        × Kept p q
        × Startable q
        × All (Live q) (keys p.segments)
        × (q.joinable ≡ true)
  unfolding update resume mark_joinable
  update-resumes shuffle p c h =
      let p' : Instance I = record p { manifolds = refresh_each shuffle p.manifolds } in
      let present =
        All-weaken (keys p.segments) (λ a k. contains-find a p.segments k)
          (All-contains (keys p.segments)) in
      let all = for_each-Starts hook good (keys p.segments) p' present h in
      let q : Instance I = record (all.next) { joinable = true } in
      (
        q,
        rw (each_manifold-refreshed shuffle p.manifolds c) (rw all.starts refl),
        all.manifolds,
        all.kept,
        all.startable,
        all.live,
        refl,
      )
