-- ===== src/Service/Advance.antt =====
-- The states only advance, except by a join, and the hooks run in order, once each.
use srf.Base.{
  ℕ, ◌≤◌, ◌<◌, ◌≡◌, ◌⊎◌, inl, inr, ◌≢◌, refl, ◌++◌, Bool, true, false, List, [], ◌∷◌, Outcome, ok,
  fatal, arith, All,
}
use srf.Service.{
  Service, new_service, running, stopping, killing, completed, level, Hook, Call, starts, lives,
  stops, kills, joins, service_start, service_stop, service_kill, perform, perform_all,
}

module _ (hook : Hook → Outcome (Unit {0})) where
  -- No call but a join takes the state back, however the hooks end; and a call aborts exactly when
  -- it is a start of a service that was stopped, killed, joined or is being joined.
  pub perform-advances :
      (c : Call) (s : Service)
      → c ≢ joins
      → ((h : Hook) → hook h ≢ fatal)
      → (level s.state ≤ level (perform hook c s).1.state)
        × ((perform hook c s).0 ≡ fatal → (c ≡ starts) × (2 ≤ level s.state))
        × (c ≡ starts → 2 ≤ level s.state → perform hook c s ≡ (fatal, s))
  unfolding perform
  perform-advances starts s h k = grind (arith, k Hook.start)
  perform-advances lives s h k = grind (arith, k Hook.await_live)
  perform-advances stops s h k = grind (arith, k Hook.stop)
  perform-advances kills s h k = grind (arith, k Hook.kill)
  perform-advances joins s h k = absurd (h refl)

  -- A second stop does nothing, and after a kill neither a stop nor another kill does anything:
  -- the hooks do not run again, however they ended.
  pub stop_once :
      (s : Service)
      → let stopped = (service_stop hook s).1 in
        let killed = (service_kill hook s).1 in
        (service_stop hook stopped ≡ (ok tt, stopped))
        × (service_stop hook killed ≡ (ok tt, killed))
        × (service_kill hook killed ≡ (ok tt, killed))
  unfolding service_stop service_kill
  stop_once s = ground arith

  -- A completed service calls no hook again and stays as it is: stop, kill and join return at once,
  -- and a start aborts.
  pub completed_final :
      (s : Service)
      → s.state ≡ completed
      → (perform hook stops s ≡ (ok tt, s))
        × (perform hook kills s ≡ (ok tt, s))
        × (perform hook joins s ≡ (ok tt, s))
        × (perform hook starts s ≡ (fatal, s))
  unfolding perform
  completed_final s h = ground arith

abbrev pick : Bool → Hook → List Hook
pick true h = h ∷ []
pick false h = []

-- Which of the hooks start, stop and kill have run, in this order.
abbrev pub ran : Bool → Bool → Bool → List Hook
ran a b c = pick a Hook.start ++ (pick b Hook.stop ++ pick c Hook.kill)

-- The calls that neither wait for the service nor join it.
abbrev pub Controls : Call → Type 0
Controls c = (c ≢ joins) × (c ≢ lives)

-- A hook has run only if the state has come as far as the call that runs it.
record Ran (s : Service) : Type 0 where
  started : Bool
  stopped : Bool
  killed : Bool
  calls : s.calls ≡ ran started stopped killed
  start_level : started ≡ true → 1 ≤ level s.state
  stop_level : stopped ≡ true → 3 ≤ level s.state
  kill_level : killed ≡ true → 4 ≤ level s.state

ran-start :
    (a b c : Bool)
    → a ≡ false
    → b ≡ false
    → c ≡ false
    → ran a b c ++ (Hook.start ∷ []) ≡ ran true false false
ran-start a b c x y z = rw (x, y, z)

ran-stop : (a b c : Bool) → b ≡ false → c ≡ false → ran a b c ++ (Hook.stop ∷ []) ≡ ran a true false
ran-stop true b c y z = rw (y, z)
ran-stop false b c y z = rw (y, z)

ran-kill : (a b c : Bool) → c ≡ false → ran a b c ++ (Hook.kill ∷ []) ≡ ran a b true
ran-kill true true c z = rw z
ran-kill true false c z = rw z
ran-kill false true c z = rw z
ran-kill false false c z = rw z

below_false : (b : Bool) (m n : ℕ) → (b ≡ true → m ≤ n) → n < m → b ≡ false
below_false true m n h k = absurd (omega (arith, h refl))
below_false false m n h k = refl

module _ (hook : Hook → Outcome (Unit {0})) where
  -- What each call does to the service: nothing, or a new state and a hook.
  start_moves :
      (s : Service)
      → ((service_start hook s).1 ≡ s)
        ⊎ ((level s.state ≡ 0)
            × ((service_start hook s).1
                ≡ record { state = running; calls = s.calls ++ (Hook.start ∷ []) }))
  unfolding service_start
  start_moves s = ground arith

  stop_moves :
      (s : Service)
      → ((service_stop hook s).1 ≡ s)
        ⊎ ((level s.state < 3)
            × ((service_stop hook s).1
                ≡ record { state = stopping; calls = s.calls ++ (Hook.stop ∷ []) }))
  unfolding service_stop
  stop_moves s = ground arith

  kill_moves :
      (s : Service)
      → ((service_kill hook s).1 ≡ s)
        ⊎ ((level s.state < 4)
            × ((service_kill hook s).1
                ≡ record { state = killing; calls = s.calls ++ (Hook.kill ∷ []) }))
  unfolding service_kill
  kill_moves s = ground arith

  start-Ran : (s : Service) → Ran s → Ran (service_start hook s).1
  start-Ran s r = elim (start_moves s) [
    | inl same ↦ rw same r
    | inr (low, e) ↦
        let a = below_false r.started _ _ r.start_level (omega arith) in
        let b = below_false r.stopped _ _ r.stop_level (omega arith) in
        let c = below_false r.killed _ _ r.kill_level (omega arith) in
        rw e (record {
          started = true;
          stopped = false;
          killed = false;
          calls = rw r.calls (ran-start r.started r.stopped r.killed a b c);
          start_level = λ _. omega arith;
          stop_level = λ h. absurd (cc h);
          kill_level = λ h. absurd (cc h);
        })
  ]

  stop-Ran : (s : Service) → Ran s → Ran (service_stop hook s).1
  stop-Ran s r = elim (stop_moves s) [
    | inl same ↦ rw same r
    | inr (low, e) ↦
        let b = below_false r.stopped _ _ r.stop_level low in
        let c = below_false r.killed _ _ r.kill_level (omega arith) in
        rw e (record {
          started = r.started;
          stopped = true;
          killed = false;
          calls = rw r.calls (ran-stop r.started r.stopped r.killed b c);
          start_level = λ _. omega arith;
          stop_level = λ _. omega arith;
          kill_level = λ h. absurd (cc h);
        })
  ]

  kill-Ran : (s : Service) → Ran s → Ran (service_kill hook s).1
  kill-Ran s r = elim (kill_moves s) [
    | inl same ↦ rw same r
    | inr (low, e) ↦
        let c = below_false r.killed _ _ r.kill_level low in
        rw e (record {
          started = r.started;
          stopped = r.stopped;
          killed = true;
          calls = rw r.calls (ran-kill r.started r.stopped r.killed c);
          start_level = λ _. omega arith;
          stop_level = λ _. omega arith;
          kill_level = λ _. omega arith;
        })
  ]

  perform_all-Ran :
      (cs : List Call) (s : Service) → All Controls cs → Ran s → Ran (perform_all hook cs s)
  unfolding perform_all
  perform_all-Ran [] s h r = r
  perform_all-Ran (starts ∷ cs) s h r = perform_all-Ran cs _ h.1 (start-Ran s r)
  perform_all-Ran (stops ∷ cs) s h r = perform_all-Ran cs _ h.1 (stop-Ran s r)
  perform_all-Ran (kills ∷ cs) s h r = perform_all-Ran cs _ h.1 (kill-Ran s r)
  perform_all-Ran (lives ∷ cs) s h r = absurd (h.0.1 refl)
  perform_all-Ran (joins ∷ cs) s h r = absurd (h.0.0 refl)

  -- Whatever starts, stops and kills a new service is given, in any number and order, the hooks
  -- that ran are some of do_service_start, do_service_stop and do_service_kill in this order, each
  -- at most once.
  pub hooks_in_order :
      (cs : List Call)
      → All Controls cs
      → (a : Bool) × (b : Bool) × (c : Bool) × ((perform_all hook cs new_service).calls ≡ ran a b c)
  hooks_in_order cs h =
      let r = perform_all-Ran cs new_service h fresh in (r.started, r.stopped, r.killed, r.calls)
    where
      fresh : Ran new_service
      fresh = record {
        started = false;
        stopped = false;
        killed = false;
        calls = refl;
        start_level = λ e. absurd (cc e);
        stop_level = λ e. absurd (cc e);
        kill_level = λ e. absurd (cc e);
      }
