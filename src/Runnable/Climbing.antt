-- ===== src/Runnable/Climbing.antt =====
-- The state of a runnable only climbs, and each step is told once.
use srf.Base.{
  ℕ, ◌≤◌, ◌<◌, ◌≡◌, refl, ap, ◌∙◌, List, [], ◌∷◌, ◌++◌, All, All-append, All-weaken, arith, max,
  ltb, Bool-cases, inl, inr,
}
use srf.Runnable.{Runnable, RunnableState, order, new_runnable, update_runnable}

-- Calls of update_state, one after another.
unfoldable pub update_all : List RunnableState → Runnable → Runnable
unfolding update_runnable
update_all [] r = r
update_all (s ∷ ss) r = update_all ss (update_runnable s r)

-- Each state is above all the earlier ones.
abbrev pub Climbing : List RunnableState → Type 0
Climbing [] = Unit {0}
Climbing (s ∷ ss) = All (λ t. order s < order t) ss × Climbing ss

-- The highest of some states, by their order.
abbrev pub highest : ℕ → List RunnableState → ℕ
highest n [] = n
highest n (s ∷ ss) = highest (max n (order s)) ss

record Announced (r : Runnable) : Type 0 where
  climbing : Climbing r.updates
  below : All (λ t. order t ≤ order r.state) r.updates

Climbing-append :
    (ss : List RunnableState) (s : RunnableState)
    → Climbing ss
    → All (λ t. order t < order s) ss
    → Climbing (ss ++ (s ∷ []))
Climbing-append [] s c h = (tt, tt)
Climbing-append (t ∷ ss) s c h =
    (All-append (λ u. order t < order u) ss s c.0 h.0, Climbing-append ss s c.1 h.1)

update_runnable-Announced :
    (s : RunnableState) (r : Runnable)
    → Announced r
    → Announced (update_runnable s r)
      × (order (update_runnable s r).state ≡ max (order r.state) (order s))
unfolding update_runnable
update_runnable-Announced s r a = elim (Bool-cases (ltb (order r.state) (order s))) [
  | inl up ↦ rw up (
    record {
      climbing =
          Climbing-append r.updates s a.climbing
            (All-weaken r.updates (λ t l. ground (arith, l)) a.below);
      below =
          All-append (λ t. order t ≤ order s) r.updates s
            (All-weaken r.updates (λ t l. ground (arith, l)) a.below) (omega arith);
    },
    ground arith,
  )
  | inr down ↦ rw down (a, ground arith)
]

update_all-Announced :
    (ss : List RunnableState) (r : Runnable)
    → Announced r
    → Announced (update_all ss r) × (order (update_all ss r).state ≡ highest (order r.state) ss)
unfolding update_all
update_all-Announced [] r a = (a, refl)
update_all-Announced (s ∷ ss) r a =
    let one = update_runnable-Announced s r a in
    let rest = update_all-Announced ss (update_runnable s r) one.0 in
    (rest.0, rest.1 ∙ ap (λ n. highest n ss) one.1)

-- After any calls of update_state, a new runnable is in the highest of the states that were asked for, and the
-- states that it announced climb, each above all the earlier ones.
pub update_all-Climbing :
    (ss : List RunnableState)
    → (order (update_all ss new_runnable).state ≡ highest 0 ss)
      × Climbing (update_all ss new_runnable).updates
update_all-Climbing ss =
    let r = update_all-Announced ss new_runnable (record { climbing = tt; below = tt }) in
    (r.1, r.0.climbing)
