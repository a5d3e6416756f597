-- ===== src/Scheduler.antt =====
-- src/internal/system/fiber_priority_scheduler.hpp: the ready queue of one engine thread. A fiber is
-- a number. A priority is an int, taken as its distance from the least int.
pub mod Order
mod Tests
use srf.Base.{
  ℕ, Bool, true, false, List, [], ◌∷◌, Option, none, some, nat_key, contains, ltb, ◌==◌,
  if◌then◌else◌,
}

-- m_rqueue, and m_priority of the properties of each fiber
pub record Scheduler : Type 0 where
  pub rqueue : List ℕ
  pub priority : ℕ → ℕ

-- Before the first fiber of lower priority.
abbrev pub insert_ready : (ℕ → ℕ) → ℕ → List ℕ → List ℕ
insert_ready priority ctx [] = ctx ∷ []
insert_ready priority ctx (c ∷ cs) =
    let rest = insert_ready priority ctx cs in
    if ltb (priority c) (priority ctx) then ctx ∷ c ∷ cs else c ∷ rest

unfoldable pub awakened : ℕ → Scheduler → Scheduler
awakened ctx s = record s { rqueue = insert_ready s.priority ctx s.rqueue }

abbrev pub front : List ℕ → Option (ℕ × List ℕ)
front [] = none
front (ctx ∷ cs) = some (ctx, cs)

unfoldable pub pick_next : Scheduler → Option ℕ × Scheduler
pick_next s = elim (front s.rqueue) [
  | none ↦ (none, s)
  | some (ctx, cs) ↦ (some ctx, record s { rqueue = cs })
]

unfoldable pub has_ready_fibers : Scheduler → Bool
has_ready_fibers s = elim (front s.rqueue) [ none ↦ false | some _ ↦ true ]

-- ready_unlink: a fiber is linked once at most.
abbrev pub unlink : ℕ → List ℕ → List ℕ
unlink ctx [] = []
unlink ctx (c ∷ cs) = let rest = unlink ctx cs in if c == ctx then rest else c ∷ rest

unfoldable pub property_change : ℕ → Scheduler → Scheduler
unfolding awakened
property_change ctx s =
    if contains ctx s.rqueue then awakened ctx (record s { rqueue = unlink ctx s.rqueue }) else s

abbrev pub with_priority : ℕ → ℕ → (ℕ → ℕ) → ℕ → ℕ
with_priority ctx p priority c = if c == ctx then p else priority c

-- FiberPriorityProps::set_priority; notify() calls property_change.
unfoldable pub set_priority : ℕ → ℕ → Scheduler → Scheduler
unfolding property_change
set_priority ctx p s =
    if s.priority ctx == p
    then s
    else property_change ctx (record s { priority = with_priority ctx p s.priority })
