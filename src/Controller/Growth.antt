-- ===== src/Controller/Growth.antt =====
-- An update that only adds segments.
use srf.Base.{
  Text, ℕ, ◌≡◌, refl, sym, ap, ◌∙◌, true, List, [], some, none, nat_key, Outcome, ok, contains, All,
  All-weaken, Distinct, Bool-cases, inl, inr, some-injective,
}
use srf.Base.Map.{find, keys, find-contains}
use srf.Pipeline.{Pipeline}
use srf.Service.{Hook, running}
use srf.Instances.{Segment, Instance, update, for_each}
use srf.Instances.Starting.{Live, Follows}
use srf.Instances.Resuming.{update-resumes}
use srf.Controller.{
  Controller, SegmentAddresses, set_difference, create_at, reassign, update_segments,
}
use srf.Instances.Consistency.{IsSettled-IsConsistent}
use srf.Instances.Readiness.{IsReady, refresh_each-IsReady}
use srf.Controller.Creating.{
  All-at, difference-Distinct, difference-none, Creatable, for_each-Creates,
}

module _ {I : Type 0} (definition : Pipeline I) (partitions : ℕ) (type_of : I → ℕ)
    (build : ℕ → Outcome (Unit {0})) (hook : ℕ → Hook → Outcome (Unit {0}))
    (shuffle : List ℕ → List ℕ) where
  reassign-grows :
      (news : SegmentAddresses) (cur : List ℕ) (p q t : Instance I)
      → set_difference cur (keys news) ≡ []
      → for_each
          (create_at definition partitions type_of build news)
          (set_difference (keys news) cur)
          p
        ≡ (ok tt, q)
      → update hook shuffle q ≡ (ok tt, t)
      → reassign definition partitions type_of build hook shuffle news cur p ≡ (ok tt, t)
  unfolding reassign for_each
  reassign-grows news cur p q t none_removed created updated = rw (none_removed, created) updated

  -- An update that takes no segment away returns, if the instance is ready, the new addresses are free and their
  -- segments can be created, with ports of the types of their names, and the hooks return: the new segments run, the
  -- old ones are there still and run, the addresses become the current ones, and the instance is ready for the next
  -- update. That an instance is ready says that its segments are new or run, and that each of its manifolds is
  -- consistent and sends to segments of the instance only, at most once to each.
  pub update_segments-grows :
      (types : Text → ℕ) (news : SegmentAddresses) (c : Controller I)
      → ((a : ℕ) → (hook a Hook.start ≡ ok tt) × (hook a Hook.await_live ≡ ok tt))
      → Distinct (keys news)
      → All (λ a. contains a (keys news) ≡ true) (keys c.current_segments)
      → All
          (Creatable definition partitions type_of build types news)
          (set_difference (keys news) (keys c.current_segments))
      → All
          (λ a. find a c.pipeline.segments ≡ none)
          (set_difference (keys news) (keys c.current_segments))
      → IsReady types c.pipeline
      → (t : Instance I) × (update_segments definition partitions type_of build hook shuffle news c
          ≡ (ok tt, record c { pipeline = t; current_segments = news }))
        × All (Live t) (set_difference (keys news) (keys c.current_segments))
        × ((a : ℕ) (s : Segment I)
            → find a c.pipeline.segments ≡ some s
            → (s' : Segment I) × (find a t.segments ≡ some s')
              × Follows s s'
              × (s'.service.state ≡ running))
        × (t.joinable ≡ true)
        × IsReady types t
  unfolding update_segments
  update_segments-grows types news c good d kept creatable free ready =
      let diff = set_difference (keys news) (keys c.current_segments) in
      let p = c.pipeline in
      let cr =
        for_each-Creates definition partitions type_of build types news diff p
          (difference-Distinct (keys news) (keys c.current_segments) d) creatable free ready in
      let q = cr.next in
      let consistent =
        All-weaken q.manifolds (λ e. IsSettled-IsConsistent shuffle types (keys q.segments) e.0 e.1)
          (cr.ready).settled in
      let up = update-resumes hook good shuffle q consistent (cr.ready).startable in
      let t = up.0 in
      let live : (a : ℕ) (s : Segment I) → find a q.segments ≡ some s → Live t a =
        λ a s f. All-at (Live t) a (keys q.segments) (up.5) (find-contains a q.segments s f) in
      let old : (a : ℕ) (s : Segment I)
          → find a p.segments ≡ some s
          → find a q.segments ≡ find a p.segments =
        λ a s f. elim (Bool-cases (contains a diff)) [
          | inl new ↦ absurd cc (All-at (λ a. find a p.segments ≡ none) a diff free new, f)
          | inr kept ↦ cr.others a kept
        ] in
      (
        t,
        rw
            (reassign-grows news (keys c.current_segments) p q t
              (difference-none (keys c.current_segments) (keys news) kept) cr.creates up.1)
            refl,
        All-weaken diff (λ a (s, f). live a s f) cr.created,
        λ a s f.
            let f' : find a q.segments ≡ some s = old a s f ∙ f in
            let k = up.3 a s f' in
            let l = live a s f' in
            let same = some-injective l.0 k.0 (sym l.1 ∙ k.1) in
            (k.0, k.1, k.2, sym (ap (λ s. s.service.state) same) ∙ l.2),
        up.6,
        refresh_each-IsReady shuffle types q t cr.ready up.2 up.3 up.4,
      )
