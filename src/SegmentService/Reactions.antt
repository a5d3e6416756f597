-- ===== src/SegmentService/Reactions.antt =====
-- What becomes of the runners of a killed segment, until it is joined.
use srf.Base.{
  ◌≡◌, refl, sym, ap, ◌∙◌, true, false, List, [], ◌∷◌, Text, text_key, ok, All, ltb, leb, arith,
  ◌⊎◌, inl, inr,
}
use srf.Base.Map.{find}
use srf.Service.{
  ServiceState, initialized, running, awaiting, stopping, killing, level, advance_below,
}
use srf.SegmentService.{
  Part, egress, node, ingress, Running, runners_of, ignite, do_service_kill, stop_segment,
  kill_segment, on_completion, Event, ignites, stores, completed, stops, kills, begins_join,
  ends_join, react, react_all,
}
use srf.SegmentService.Runners.{find-ignite, ignite-service}

-- The event that stores a runner.
abbrev pub IsStore : Part → Text → Event → Type 0
IsStore p n (stores q m) = (p ≡ q) × (n ≡ m)
IsStore p n (ignites q m) = ⊥
IsStore p n (completed m b) = ⊥
IsStore p n stops = ⊥
IsStore p n kills = ⊥
IsStore p n begins_join = ⊥
IsStore p n ends_join = ⊥

-- The events of a join.
abbrev pub IsJoin : Event → Type 0
IsJoin begins_join = Unit {0}
IsJoin ends_join = Unit {0}
IsJoin (ignites q m) = ⊥
IsJoin (stores q m) = ⊥
IsJoin (completed m b) = ⊥
IsJoin stops = ⊥
IsJoin kills = ⊥

module _ (s : Running) (h : leb (level killing) (level s.service.state) ≡ true) where
  stop-kept : stop_segment s ≡ (ok tt, s)
  unfolding stop_segment advance_below
  stop-kept = ground arith

  kill-kept : kill_segment s ≡ (ok tt, s)
  unfolding kill_segment advance_below
  kill-kept = ground arith

abbrev pub in_state : ServiceState → Running → Running
in_state state s = record s { service = record (s.service) { state = state } }

pub service-apart :
    (p : Part) (n : Text) (s : Running) (state : ServiceState)
    → find n (runners_of p (in_state state s)) ≡ find n (runners_of p s)
service-apart egress n s state = refl
service-apart node n s state = refl
service-apart ingress n s state = refl

pub level-top : (state : ServiceState) → leb (level state) 5 ≡ true
level-top initialized = refl
level-top running = refl
level-top awaiting = refl
level-top stopping = refl
level-top killing = refl
level-top ServiceState.completed = refl

-- A segment after its first kill.
abbrev pub killed : Running → Running
killed s = do_service_kill (in_state killing s)

pub killed-service : (s : Running) → (killed s).service.state ≡ killing
unfolding do_service_kill
killed-service s = refl

pub failure-first :
    (name : Text) (s : Running)
    → ltb (level s.service.state) (level killing) ≡ true
    → react (completed name false) s ≡ (ok tt, killed s)
unfolding react on_completion kill_segment advance_below do_service_kill
failure-first name s h = rw h refl

-- An event that leaves a runner of a killed segment as it is.
pub record Leaves (p : Part) (n : Text) (e : Event) (s : Running) : Type 0 where
  pub next : Running
  pub reacts : react e s ≡ (ok tt, next)
  pub service : next.service ≡ s.service
  pub runner : find n (runners_of p next) ≡ find n (runners_of p s)

pub react-Leaves :
    (p : Part) (n : Text) (e : Event) (s : Running)
    → leb (level killing) (level s.service.state) ≡ true
    → (IsStore p n e ⊎ IsJoin e → ⊥)
    → Leaves p n e s
unfolding react on_completion
react-Leaves p n (stores q m) s h k = record {
  next = ignite q m s;
  reacts = refl;
  service = ignite-service q m s;
  runner = find-ignite q p m n s λ (e, f). k (inl (sym e, sym f));
}
react-Leaves p n (completed m true) s h k = record {
  next = s;
  reacts = refl;
  service = refl;
  runner = refl;
}
react-Leaves p n (completed m false) s h k = record {
  next = s;
  reacts = kill-kept s h;
  service = refl;
  runner = refl;
}
react-Leaves p n stops s h k = record {
  next = s;
  reacts = stop-kept s h;
  service = refl;
  runner = refl;
}
react-Leaves p n kills s h k = record {
  next = s;
  reacts = kill-kept s h;
  service = refl;
  runner = refl;
}
react-Leaves p n (ignites q m) s h k = record {
  next = s;
  reacts = refl;
  service = refl;
  runner = refl;
}
react-Leaves p n begins_join s h k = absurd (k (inr tt))
react-Leaves p n ends_join s h k = absurd (k (inr tt))

pub react_all-cons :
    (e : Event) (es : List Event) (s t : Running)
    → react e s ≡ (ok tt, t)
    → react_all (e ∷ es) s ≡ react_all es t
unfolding react_all
react_all-cons e es s t h = rw h refl

-- What later events leave of a runner of a killed segment, unless it is stored again or a join begins.
pub react_all-left :
    (p : Part) (n : Text) (es : List Event) (s : Running)
    → s.service.state ≡ killing
    → All (λ e. IsStore p n e ⊎ IsJoin e → ⊥) es
    → ((react_all es s).0 ≡ ok tt)
      × (find n (runners_of p (react_all es s).1) ≡ find n (runners_of p s))
      × ((react_all es s).1.service.state ≡ killing)
unfolding react_all
react_all-left p n [] s h k = (refl, refl, h)
react_all-left p n (e ∷ es) s h (k, ks) =
    let l = react-Leaves p n e s (rw h refl) k in
    let rest = react_all-left p n es (l.next) (ap (λ v. v.state) l.service ∙ h) ks in
    let first = react_all-cons e es s (l.next) l.reacts in
    (rw first rest.0, rw first (rest.1 ∙ l.runner), rw first rest.2)

pub stores-react :
    (p : Part) (n : Text) (s : Running) → react (stores p n) s ≡ (ok tt, ignite p n s)
unfolding react
stores-react p n s = refl

-- A join takes a killed segment back, so that it can be killed once more.
pub join-again :
    (s : Running)
    → s.service.state ≡ killing
    → react_all (begins_join ∷ kills ∷ []) s ≡ (ok tt, killed (in_state awaiting s))
unfolding react_all react advance_below kill_segment
join-again s h = rw h refl
