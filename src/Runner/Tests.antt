-- ===== src/Runner/Tests.antt =====
-- Two instances, of which the second leaves an exception in its context.
use srf.Base.{
  ℕ, ◌≡◌, refl, ◌<◌, Bool, true, false, [], ◌∷◌, List, length, ok, arith, and_then, All, ◌==◌, not,
}
use srf.Runner.{Runner, enqueue, new_runner, run, step}
use srf.Runner.Progress.{AllFit, alive}
use srf.Runner.Completion.{run-completes}
use srf.Runner.Status.{run-tells_success}

abbrev second_fails : ℕ → Bool
second_fails i = not (i == 1)

-- One after the other.
abbrev in_turn : List ℕ
in_turn = 0 ∷ 0 ∷ 0 ∷ 0 ∷ 0 ∷ 0 ∷ 1 ∷ 1 ∷ 1 ∷ 1 ∷ 1 ∷ 1 ∷ []

-- The first instance reads m_status, the second one goes through, and the first one writes.
abbrev interleaved : List ℕ
interleaved = 0 ∷ 0 ∷ 0 ∷ 0 ∷ 1 ∷ 1 ∷ 1 ∷ 1 ∷ 1 ∷ 1 ∷ 0 ∷ 0 ∷ []

completions_of : List ℕ → List Bool
completions_of schedule =
    (and_then (enqueue 2 new_runner) (λ _. run second_fails schedule)).1.completions

failure_told : completions_of in_turn ≡ false ∷ []
unfolding completions_of enqueue run step
failure_told = refl

-- The failure is lost.
failure_lost : completions_of interleaved ≡ true ∷ []
unfolding completions_of enqueue run step
failure_lost = refl

run-completes_example :
    (r : Runner) × (and_then (enqueue 2 new_runner) (λ _. run second_fails in_turn) ≡ (ok tt, r))
    × AllFit r.instances
    × (alive r.instances ≡ 0 → length r.completions ≡ 1)
    × (0 < alive r.instances → r.completions ≡ [])
run-completes_example = run-completes second_fails 2 in_turn (omega arith)

run-tells_success_example :
    All
      (λ c. c ≡ true)
      (and_then (enqueue 2 new_runner) (λ _. run (λ i. true) interleaved)).1.completions
run-tells_success_example = run-tells_success (λ i. true) (λ i. refl) 2 interleaved
