-- ===== src/SegmentService/Runners.antt =====
-- The maps of the runners of a segment.
use srf.Base.{
  ◌≡◌, refl, ap, ◌∙◌, if_false, false, [], ◌∷◌, Option, none, some, Text, text_key, ltb, ◌=?=◌,
  Bool-cases, inl, inr,
}
use srf.Base.Map.{Map, find, insert-here, insert-there}
use srf.Runnable.{
  Runnable, RunnableState, init, owned, run, stop, kill, kill_runnable, stop_runnable, order,
}
use srf.SegmentService.{
  Part, egress, node, ingress, Running, runners_of, ignited, ignite, each_runner, do_service_kill,
  do_service_stop,
}

abbrev pub on_found : (Runnable → Runnable) → Option Runnable → Option Runnable
on_found f none = none
on_found f (some r) = some (f r)

pub kill_runnable-kill : (r : Runnable) → (kill_runnable r).state ≡ kill
unfolding kill_runnable
kill_runnable-kill r = elim (Bool-cases (ltb (order r.state) 4)) [
  | inl below ↦ rw below refl
  | inr top ↦ rw top (highest r.state top)
]
  where
    highest : (state : RunnableState) → ltb (order state) 4 ≡ false → state ≡ kill
    highest init h = absurd cc
    highest owned h = absurd cc
    highest run h = absurd cc
    highest stop h = absurd cc
    highest kill h = refl

find-each_runner :
    (f : Runnable → Runnable) (n : Text) (m : Map Text Runnable)
    → find n (each_runner f m) ≡ on_found f (find n m)
unfolding find each_runner
find-each_runner f n [] = refl
find-each_runner f n ((a, r) ∷ m) = elim (Bool-cases (a =?= n)) [
  | inl this ↦ rw this refl
  | inr other ↦ rw other (find-each_runner f n m)
]

pub ignite-service : (p : Part) (n : Text) (s : Running) → (ignite p n s).service ≡ s.service
unfolding ignite
ignite-service egress n s = refl
ignite-service node n s = refl
ignite-service ingress n s = refl

-- A launch is seen in the map of its part, under its name, and nowhere else.
pub find-ignite :
    (p q : Part) (n m : Text) (s : Running)
    → ((p ≡ q) × (n ≡ m) → ⊥)
    → find m (runners_of q (ignite p n s)) ≡ find m (runners_of q s)
unfolding ignite
find-ignite p q n m s apart = elim (Bool-cases (n =?= m)) [
  | inl this ↦ elsewhere p q λ e. apart (e, (text_key.beq_iff n m).0 this)
  | inr other ↦ under_another p q other
]
  where
    elsewhere :
        (p q : Part) → (p ≡ q → ⊥) → find m (runners_of q (ignite p n s)) ≡ find m (runners_of q s)
    elsewhere egress egress h = absurd (h refl)
    elsewhere egress node h = refl
    elsewhere egress ingress h = refl
    elsewhere node egress h = refl
    elsewhere node node h = absurd (h refl)
    elsewhere node ingress h = refl
    elsewhere ingress egress h = refl
    elsewhere ingress node h = refl
    elsewhere ingress ingress h = absurd (h refl)

    under_another :
        (p q : Part)
        → (n =?= m) ≡ false
        → find m (runners_of q (ignite p n s)) ≡ find m (runners_of q s)
    under_another egress egress h = insert-there n m ignited s.egress_runners h
    under_another egress node h = refl
    under_another egress ingress h = refl
    under_another node egress h = refl
    under_another node node h = insert-there n m ignited s.runners h
    under_another node ingress h = refl
    under_another ingress egress h = refl
    under_another ingress node h = refl
    under_another ingress ingress h = insert-there n m ignited s.ingress_runners h

pub find-ignite-same :
    (p : Part) (n : Text) (s : Running) → find n (runners_of p (ignite p n s)) ≡ some ignited
unfolding ignite
find-ignite-same egress n s = insert-here n ignited s.egress_runners
find-ignite-same node n s = insert-here n ignited s.runners
find-ignite-same ingress n s = insert-here n ignited s.ingress_runners

pub kill-runners :
    (p : Part) (n : Text) (s : Running)
    → find n (runners_of p (do_service_kill s)) ≡ on_found kill_runnable (find n (runners_of p s))
unfolding do_service_kill
kill-runners egress n s = find-each_runner kill_runnable n s.egress_runners
kill-runners node n s = find-each_runner kill_runnable n s.runners
kill-runners ingress n s = find-each_runner kill_runnable n s.ingress_runners

-- Nothing is asked of a runner that was killed.
pub kill_runnable-killed : (r : Runnable) → r.state ≡ kill → kill_runnable r ≡ r
unfolding kill_runnable
kill_runnable-killed r h = rw (if_false _ r (ap (λ state. ltb (order state) 4) h)) refl

stop_runnable-killed : (r : Runnable) → r.state ≡ kill → stop_runnable r ≡ r
unfolding stop_runnable
stop_runnable-killed r h = rw (if_false _ r (ap (λ state. ltb (order state) 3) h)) refl

pub stop-runners :
    (p : Part) (n : Text) (s : Running) (r : Runnable)
    → r.state ≡ kill
    → find n (runners_of p s) ≡ some r
    → find n (runners_of p (do_service_stop s)) ≡ some r
unfolding do_service_stop
stop-runners egress n s r h f = f
stop-runners node n s r h f =
    find-each_runner stop_runnable n s.runners
    ∙ ap (on_found stop_runnable) f
    ∙ ap some (stop_runnable-killed r h)
stop-runners ingress n s r h f = f
