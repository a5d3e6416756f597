-- ===== src/Manifold/Tests.antt =====
-- A manifold of two senders and three receivers.
use srf.Base.{ℕ, ◌+◌, ◌%◌, ◌≡◌, refl, ◌++◌, List, [], ◌∷◌, map, true, ok}
use native.Mathlib.Omega.{arith}
use srf.Base.Turns.{Cycles}
use mathlib.Core.List.{Perm}
use srf.Manifold.{
  Writers, Turn, gets, ends, Egress, Manifold, make_manifold, refresh, do_add_input, do_add_output,
  balance,
}
use srf.Manifold.RoundRobin.{balance-turns}
use srf.Manifold.Updates.{refresh-attaches}

abbrev queued : Manifold
queued =
    do_add_output (record { address = 5; data_type = 1 })
      (do_add_output (record { address = 4; data_type = 1 })
        (do_add_input (record { address = 3; data_type = 1 }) (make_manifold (112 ∷ []) 1)))

abbrev three : Egress
three = record { outputs = 4 ∷ 5 ∷ 6 ∷ []; pick_list = 6 ∷ 4 ∷ 5 ∷ []; next = 2 }

-- Two fibers begin before the second ends its write, and then the first.
abbrev around : List (Turn ℕ)
around = gets 10 ∷ gets 11 ∷ ends 1 ∷ ends 0 ∷ []

abbrev idle : Writers ℕ
idle = record { egress = three; pending = []; written = [] }

two_fibers : balance (λ c n. true) around idle ≡ (
  ok tt,
  record { egress = record three { next = 1 }; pending = []; written = (6, 11) ∷ (5, 10) ∷ [] },
)
unfolding balance
two_fibers = refl

balance-turns_example :
    (out : List (ℕ × ℕ)) × (w' : Writers ℕ) × (balance (λ c n. true) around idle ≡ (ok tt, w'))
    × (w'.egress ≡ record three { next = (2 + 2) % 3 })
    × (map (λ o. o.1) out ≡ 10 ∷ 11 ∷ [])
    × Cycles (6 ∷ 4 ∷ 5 ∷ []) 2 2 (map (λ o. o.0) out)
    × Perm (w'.written ++ w'.pending) (([] ++ []) ++ out)
balance-turns_example = balance-turns (λ c n. true) (λ c n. refl) around idle (omega arith)

refresh-attaches_example :
    (m' : Manifold) × (refresh (λ l. l) queued ≡ (ok tt, m'))
    × (m'.ingress.inputs ≡ 3 ∷ [])
    × (m'.egress.outputs ≡ 4 ∷ 5 ∷ [])
    × (m'.input_updates ≡ [])
    × (m'.output_updates ≡ [])
    × (m'.runner ≡ true)
    × (refresh (λ l. l) m' ≡ (ok tt, m'))
refresh-attaches_example =
    refresh-attaches (λ l. l) queued
      ((refl, tt), (refl, (refl, tt)), ((λ e. absurd (omega (arith, e)), tt), (tt, tt)), refl)
