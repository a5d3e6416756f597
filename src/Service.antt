-- ===== src/Service.antt =====
-- src/internal/service.{hpp,cpp}: the life cycle that managers, pipelines and segments share.
-- The virtual hooks are the derived class's: `hook` says how each of them ends.
pub mod Advance
pub mod Join
mod Tests
use srf.Base.{
  ℕ, ◌++◌, Bool, true, false, not, ◌||◌, List, [], ◌∷◌, Outcome, ok, fatal, M, ◌>>=◌, ◌>>◌, check,
  ltb, leb, ◌==◌, if◌then◌else◌,
}

pub data ServiceState : Type 0 where
  initialized running awaiting stopping killing completed : ServiceState

-- The order of the enumerators.
abbrev pub level : ServiceState → ℕ
level initialized = 0
level running = 1
level awaiting = 2
level stopping = 3
level killing = 4
level completed = 5

-- do_service_start and the other hooks
pub data Hook : Type 0 where
  start await_live stop kill await_join : Hook

-- `calls` records the hooks that were called, in order.
pub record Service : Type 0 where
  pub state : ServiceState
  pub calls : List Hook

-- A service as it is constructed.
abbrev pub new_service : Service
new_service = record { state = initialized; calls = [] }

module _ (hook : Hook → Outcome (Unit {0})) where
  unfoldable pub call : Hook → M Service (Unit {0})
  call h s = (hook h, record s { calls = s.calls ++ (h ∷ []) })

abbrev pub when : Bool → M Service (Unit {0}) → M Service (Unit {0})
when true m = m
when false m = λ s. (ok tt, s)

unfoldable pub forward_state : ServiceState → M Service Bool
forward_state new_state s =
    if leb (level s.state) (level new_state)
    then if ltb (level s.state) (level new_state)
      then (ok true, record s { state = new_state })
      else (ok false, s)
    else (fatal, s)

-- The locked part of stop, kill and await_join: below `bound`, the state becomes `new_state`.
unfoldable pub advance_below : ServiceState → ServiceState → M Service Bool
advance_below bound new_state s =
    if ltb (level s.state) (level bound)
    then (ok true, record s { state = new_state })
    else (ok false, s)

module _ (hook : Hook → Outcome (Unit {0})) where
  unfoldable pub service_start : M Service (Unit {0})
  unfolding forward_state call
  service_start = do advanced ← forward_state running; when advanced (call hook start)

  unfoldable pub service_await_live : M Service (Unit {0})
  unfolding call
  service_await_live = call hook await_live

  unfoldable pub service_stop : M Service (Unit {0})
  unfolding advance_below call
  service_stop = do execute ← advance_below stopping stopping; when execute (call hook stop)

  unfoldable pub service_kill : M Service (Unit {0})
  unfolding advance_below call
  service_kill = do execute ← advance_below killing killing; when execute (call hook kill)

  finish_join : M Service (Unit {0})
  unfolding forward_state call
  finish_join = do call hook await_join; _ ← forward_state completed; λ s. (ok tt, s)

  unfoldable pub service_await_join : M Service (Unit {0})
  unfolding advance_below finish_join
  service_await_join = do execute ← advance_below completed awaiting; when execute finish_join

  -- `state` is read once, before the kill.
  unfoldable pub call_in_destructor : M Service (Unit {0})
  unfolding service_kill service_await_join
  call_in_destructor s =
      let state = level s.state in
      when (ltb (level initialized) state)
        (do
          when (state == level running) service_kill
          when (not (state == level completed)) service_await_join)
        s

-- ~Service()
unfoldable pub destroy : M Service (Unit {0})
destroy s = check (level s.state == level initialized || level s.state == level completed) s

-- The public calls.
pub data Call : Type 0 where
  starts lives stops kills joins : Call

module _ (hook : Hook → Outcome (Unit {0})) where
  unfoldable pub perform : Call → M Service (Unit {0})
  unfolding service_start service_await_live service_stop service_kill service_await_join
  perform starts = service_start hook
  perform lives = service_await_live hook
  perform stops = service_stop hook
  perform kills = service_kill hook
  perform joins = service_await_join hook

  -- The state after some calls, whatever their outcomes.
  unfoldable pub perform_all : List Call → Service → Service
  unfolding perform
  perform_all [] s = s
  perform_all (c ∷ cs) s = perform_all cs (perform c s).1
