-- ===== src/Scheduler/Tests.antt =====
-- Fibers 1 and 2 of priority 5, and fiber 3 of priority 2.
use srf.Base.{ℕ, ◌≡◌, refl, ◌++◌, contains, [], ◌∷◌, arith, ◌==◌, if◌then◌else◌}
use srf.Scheduler.{Scheduler, awakened, set_priority}
use srf.Scheduler.Order.{Sorted, at_priority, awakened-in_order}

abbrev priorities : ℕ → ℕ
priorities c = if c == 3 then 2 else 5

abbrev ready : Scheduler
ready = record { rqueue = 1 ∷ 2 ∷ 3 ∷ []; priority = priorities }

ready-Sorted : Sorted ready.priority ready.rqueue
ready-Sorted = omega arith

raised : (set_priority 3 7 ready).rqueue ≡ 3 ∷ 1 ∷ 2 ∷ []
unfolding set_priority contains
raised = refl

awakened-in_order_example :
    Sorted priorities (awakened 4 ready).rqueue
    × (at_priority priorities 5 (awakened 4 ready).rqueue
        ≡ at_priority priorities 5 ready.rqueue ++ (if priorities 4 == 5 then 4 ∷ [] else []))
awakened-in_order_example = awakened-in_order 4 5 ready ready-Sorted
