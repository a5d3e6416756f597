-- ===== src/Runnable.antt =====
-- src/public/runnable/runnable.cpp and context.cpp, and what runner.cpp asks of a runnable: its state, the
-- exceptions of its contexts, and the wait for its instances.
pub mod Climbing
pub mod Failure
mod Tests
use srf.Base.{
  ℕ, Bool, true, false, List, [], ◌∷◌, ◌++◌, Option, none, some, ok, throws, Exception, M, thrown,
  ltb, if◌then◌else◌,
}

-- Runnable::State
pub data RunnableState : Type 0 where
  init owned run stop kill : RunnableState

abbrev pub order : RunnableState → ℕ
order init = 0
order owned = 1
order run = 2
order stop = 3
order kill = 4

-- `updates` records the arguments of on_state_update.
pub record Runnable : Type 0 where
  pub state : RunnableState
  pub updates : List RunnableState

abbrev pub new_runnable : Runnable
new_runnable = record { state = init; updates = [] }

unfoldable pub update_runnable : RunnableState → Runnable → Runnable
update_runnable new_state r =
    if ltb (order r.state) (order new_state)
    then record { state = new_state; updates = r.updates ++ (new_state ∷ []) }
    else r

-- Runner::Runner, Runner::stop and Runner::kill
unfoldable pub own_runnable : Runnable → Runnable
unfolding update_runnable
own_runnable = update_runnable owned

unfoldable pub stop_runnable : Runnable → Runnable
unfolding update_runnable
stop_runnable = update_runnable stop

unfoldable pub kill_runnable : Runnable → Runnable
unfolding update_runnable
kill_runnable = update_runnable kill

-- The members of a Context; an exception is a number.
pub record Context : Type 0 where
  pub rank : ℕ
  pub size : ℕ
  pub exception : Option ℕ

abbrev pub new_context : ℕ → ℕ → Context
new_context rank size = record { rank = rank; size = size; exception = none }

-- Context::lock, unlock and barrier act only if there are several contexts.
abbrev pub synchronizes : Context → Bool
synchronizes c = ltb 1 c.size

abbrev pub status : Context → Bool
status c = elim c.exception [ none ↦ true | some _ ↦ false ]

-- The runnable is that of m_runner. An exception that is no std::exception is not caught.
unfoldable pub set_exception : Bool → ℕ → M (Context × Runnable) (Unit {0})
unfolding kill_runnable
set_exception is_std e (c, r) =
    if is_std
    then (elim c.exception [
      | none ↦ (ok tt, (record c { exception = some e }, kill_runnable r))
      | some _ ↦ (ok tt, (c, r))
    ])
    else (throws (thrown e), (c, r))

unfoldable pub finish : M Context (Unit {0})
finish c = elim c.exception [ none ↦ (ok tt, c) | some e ↦ (throws (thrown e), c) ]

-- The loop of Runner::await_join; the future of an instance has its exception, if there is one.
unfoldable pub first_exception : Option Exception → List (Option Exception) → Option Exception
first_exception first [] = first
first_exception first (future ∷ futures) =
    first_exception (elim first [ none ↦ future | some e ↦ some e ]) futures

-- m_instances is the list of the join futures.
unfoldable pub await_join : M (List (Option Exception)) (Unit {0})
unfolding first_exception
await_join instances = elim (first_exception none instances) [
  | none ↦ (ok tt, [])
  | some e ↦ (throws e, [])
]
