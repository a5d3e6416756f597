-- ===== src/Factories/Cycle.antt =====
-- The factory of reusable fiber queues hands them out in turn.
use srf.Base.{
  ℕ, zero, suc, ◌+◌, ◌%◌, ◌<◌, ◌≡◌, refl, sym, ap, ◌∙◌, List, [], ◌∷◌, some, ok, length, get_elem?,
  arith,
}
use native.Mathlib.Nat.{mod-eq_of_lt}
use srf.Base.Turns.{nth, after, after_shift, after-lt, Cycles, Cycles-cons}
use srf.Factories.{reusable_queues, task_queue_shared}

reusable_queues-step :
    (queues out : List ℕ) (count offset q s : ℕ)
    → get_elem? queues offset ≡ some q
    → reusable_queues queues count (after (length queues) offset) ≡ (ok out, s)
    → reusable_queues queues (suc count) offset ≡ (ok (q ∷ out), s)
unfolding reusable_queues
reusable_queues-step queues out count offset q s e h = rw (reusable_queues, task_queue_shared, e, h)

-- With the offset in range, `count` queues are handed out from the offset on, in a circle, and the
-- offset moves on by as many.
pub reusable_queues-cycle :
    (queues : List ℕ) (count offset : ℕ)
    → offset < length queues
    → (out : List ℕ) × (reusable_queues queues count offset
        ≡ (ok out, (offset + count) % length queues))
      × (length out ≡ count)
      × ((i : ℕ) → i < count → get_elem? out i ≡ get_elem? queues ((offset + i) % length queues))
unfolding reusable_queues Cycles
reusable_queues-cycle queues zero offset h = (
  [],
  ap (λ o. (ok [], o)) (sym (mod-eq_of_lt (omega arith) ∙ omega arith)),
  refl,
  λ i l. absurd (omega arith),
)
reusable_queues-cycle queues (suc count) offset h =
    let n = length queues in
    let first = nth queues offset h in
    let rest = reusable_queues-cycle queues count (after n offset) (after-lt n offset h) in
    (
      first.0 ∷ rest.0,
      reusable_queues-step queues rest.0 count offset first.0 ((after n offset + count) % n) first.1
            rest.1
          ∙ ap (λ s. (ok (first.0 ∷ rest.0), s)) (after_shift n offset count h),
      ap suc rest.2,
      Cycles-cons queues count offset first.0 rest.0 h first.1 rest.3,
    )
