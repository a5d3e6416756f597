-- ===== src/SegmentService/Sparing.antt =====
-- What becomes of a runner that was killed.
use srf.Base.{
  ◌≡◌, refl, sym, ap, ◌∙◌, true, false, List, [], ◌∷◌, some, Text, text_key, ok, All, ltb, leb, inl,
  inr, Bool-cases,
}
use srf.Base.Map.{find}
use srf.Service.{ServiceState, awaiting, stopping, killing, level, advance_below, forward_state}
use srf.Runnable.{Runnable, kill, kill_runnable}
use srf.SegmentService.{
  Part, Running, runners_of, ignite, do_service_stop, stop_segment, kill_segment, on_completion,
  Event, ignites, stores, completed, stops, kills, begins_join, ends_join, react, react_all,
}
use srf.SegmentService.Runners.{
  on_found, kill_runnable-killed, stop-runners, find-ignite, kill-runners,
}
use srf.SegmentService.Reactions.{
  IsStore, in_state, service-apart, level-top, killed, react_all-cons,
}

-- An event that leaves a runner that was killed as it is.
record Spares (p : Part) (n : Text) (r : Runnable) (e : Event) (s : Running) : Type 0 where
  next : Running
  reacts : react e s ≡ (ok tt, next)
  runner : find n (runners_of p next) ≡ some r

module _ (p : Part) (n : Text) (r : Runnable) (dead : r.state ≡ kill) where
  kill-Spares :
      (s : Running)
      → find n (runners_of p s) ≡ some r
      → (t : Running) × (kill_segment s ≡ (ok tt, t)) × (find n (runners_of p t) ≡ some r)
  unfolding kill_segment advance_below
  kill-Spares s f = elim (Bool-cases (ltb (level s.service.state) (level killing))) [
    | inl below ↦ (
      killed s,
      rw below refl,
      kill-runners p n _
          ∙ ap (on_found kill_runnable) (service-apart p n s killing ∙ f)
          ∙ ap some (kill_runnable-killed r dead),
    )
    | inr above ↦ (s, rw above refl, f)
  ]

  stop-Spares :
      (s : Running)
      → find n (runners_of p s) ≡ some r
      → (t : Running) × (stop_segment s ≡ (ok tt, t)) × (find n (runners_of p t) ≡ some r)
  unfolding stop_segment advance_below
  stop-Spares s f = elim (Bool-cases (ltb (level s.service.state) (level stopping))) [
    | inl below ↦ (
      do_service_stop (in_state stopping s),
      rw below refl,
      stop-runners p n (in_state stopping s) r dead (service-apart p n s stopping ∙ f),
    )
    | inr above ↦ (s, rw above refl, f)
  ]

  react-Spares :
      (e : Event) (s : Running)
      → find n (runners_of p s) ≡ some r
      → (IsStore p n e → ⊥)
      → Spares p n r e s
  unfolding react on_completion advance_below forward_state
  react-Spares (ignites q m) s f k = record { next = s; reacts = refl; runner = f }
  react-Spares (stores q m) s f k = record {
    next = ignite q m s;
    reacts = refl;
    runner = find-ignite q p m n s (λ (e, f). k (sym e, sym f)) ∙ f;
  }
  react-Spares (completed m true) s f k = record { next = s; reacts = refl; runner = f }
  react-Spares (completed m false) s f k =
      let t = kill-Spares s f in record { next = t.0; reacts = t.1; runner = t.2 }
  react-Spares stops s f k =
      let t = stop-Spares s f in record { next = t.0; reacts = t.1; runner = t.2 }
  react-Spares kills s f k =
      let t = kill-Spares s f in record { next = t.0; reacts = t.1; runner = t.2 }
  react-Spares begins_join s f k = elim (Bool-cases (ltb (level s.service.state) 5)) [
    | inl below ↦ record {
      next = in_state awaiting s;
      reacts = rw below refl;
      runner = service-apart p n s awaiting ∙ f;
    }
    | inr above ↦ record { next = s; reacts = rw above refl; runner = f }
  ]
  react-Spares ends_join s f k =
      let passes : leb (level s.service.state) 5 ≡ true = level-top s.service.state in
      elim (Bool-cases (ltb (level s.service.state) 5)) [
        | inl below ↦ record {
          next = in_state ServiceState.completed s;
          reacts = rw (passes, below) refl;
          runner = service-apart p n s ServiceState.completed ∙ f;
        }
        | inr above ↦ record { next = s; reacts = rw (passes, above) refl; runner = f }
      ]

  pub react_all-spares :
      (es : List Event) (s : Running)
      → find n (runners_of p s) ≡ some r
      → All (λ e. IsStore p n e → ⊥) es
      → ((react_all es s).0 ≡ ok tt) × (find n (runners_of p (react_all es s).1) ≡ some r)
  unfolding react_all
  react_all-spares [] s f k = (refl, f)
  react_all-spares (e ∷ es) s f (k, ks) =
      let l = react-Spares e s f k in
      let rest = react_all-spares es (l.next) l.runner ks in
      let first = react_all-cons e es s (l.next) l.reacts in (rw first rest.0, rw first rest.1)
