-- ===== src/Runner.antt =====
-- src/public/runnable/runner.cpp: the instances of a runnable, each of which runs the task that
-- `enqueue` launches. A step is what one instance does between two points where another may run:
-- an update of a state, one access of an atomic member, or `main`.
pub mod Progress
pub mod Completion
pub mod Status
mod Tests
use srf.Base.{
  ℕ, zero, suc, ◌-◌, Bool, true, ◌&&◌, List, [], ◌∷◌, ◌++◌, none, some, get_elem?, ok, throws,
  fatal, Exception, M, ◌>>◌, ltb, ◌==◌, if◌then◌else◌,
}

-- Runner::State
pub data RunnerState : Type 0 where
  unqueued queued running error completed : RunnerState

abbrev pub level : RunnerState → ℕ
level unqueued = 0
level queued = 1
level running = 2
level error = 3
level completed = 4

-- What the task does next. `store` has the value that it has computed for m_status.
pub data Point : Type 0 where
  begin main mark_completed load decrement done : Point
  store : Bool → Point

pub record Instance : Type 0 where
  pub state : RunnerState
  pub point : Point

-- `completions` records the arguments of the calls of the completion callback.
pub record Runner : Type 0 where
  pub instances : List Instance
  pub status : Bool
  pub remaining_instances : ℕ
  pub can_run : Bool
  pub completions : List Bool

abbrev pub new_runner : Runner
new_runner = record {
  instances = [];
  status = true;
  remaining_instances = 0;
  can_run = true;
  completions = [];
}

abbrev pub modify : (Instance → Instance) → ℕ → List Instance → List Instance
modify f i [] = []
modify f zero (x ∷ xs) = f x ∷ xs
modify f (suc i) (x ∷ xs) = x ∷ modify f i xs

abbrev pub with_state : RunnerState → Instance → Instance
with_state new_state x = record x { state = new_state }

abbrev pub with_point : Point → Instance → Instance
with_point p x = record x { point = p }

unfoldable pub update_state : ℕ → RunnerState → M Runner (Unit {0})
update_state launcher_id new_state r = elim (get_elem? r.instances launcher_id) [
  | none ↦ (fatal, r)
  | some x ↦
      if ltb (level x.state) (level new_state)
      then (ok tt, record r { instances = modify (with_state new_state) launcher_id r.instances })
      else (fatal, r)
]

abbrev pub go_to : ℕ → Point → M Runner (Unit {0})
go_to i p r = (ok tt, record r { instances = modify (with_point p) i r.instances })

-- The counter's decrement, and the callback if it has reached 0.
pub count_down : M Runner (Unit {0})
count_down r =
    let left = r.remaining_instances - 1 in
    if left == 0
    then (
      ok tt,
      record r { remaining_instances = left; completions = r.completions ++ (r.status ∷ []) },
    )
    else (ok tt, record r { remaining_instances = left })

-- A new instance.
abbrev pub launched : Instance
launched = record { state = queued; point = begin }

abbrev pub launch : ℕ → List Instance
launch zero = []
launch (suc n) = launched ∷ launch n

-- One instance for each of the `size` contexts.
unfoldable pub enqueue : ℕ → M Runner (Unit {0})
enqueue size r =
    if r.can_run
    then (ok tt, record r { instances = launch size; remaining_instances = size })
    else (throws Exception.runner_disabled, r)

-- `context_status` says of each context whether `main` leaves it without an exception.
module _ (context_status : ℕ → Bool) where
  pub act : ℕ → Point → M Runner (Unit {0})
  unfolding update_state count_down
  act i begin = update_state i running >> go_to i main
  act i main =
      (if context_status i then (λ r. (ok tt, r)) else update_state i error)
      >> go_to i mark_completed
  act i mark_completed = update_state i completed >> go_to i load
  act i load = λ r. go_to i (store (r.status && context_status i)) r
  act i (store v) = λ r. go_to i decrement (record r { status = v })
  act i decrement = count_down >> go_to i done
  act i done = λ r. (ok tt, r)

  unfoldable pub step : ℕ → M Runner (Unit {0})
  unfolding act
  step i r = elim (get_elem? r.instances i) [ none ↦ (ok tt, r) | some x ↦ act i x.point r ]

  -- The steps of a schedule: the instances in the order in which they are given a turn.
  unfoldable pub run : List ℕ → M Runner (Unit {0})
  unfolding step
  run [] r = (ok tt, r)
  run (i ∷ schedule) r = (step i >> run schedule) r
