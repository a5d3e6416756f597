-- ===== src/Runner/Status.antt =====
-- What the completion callback is told.
use srf.Base.{
  ℕ, zero, suc, ◌-◌, ◌≡◌, refl, Bool, true, List, [], ◌∷◌, ◌++◌, some, get_elem?, Outcome, ok,
  throws, fatal, M, ltb, ◌==◌, ◌&&◌, Bool-cases, Option-cases, inl, inr, All, and_then,
  some-injective,
}
use mathlib.Core.Path.{subst}
use srf.Runner.{
  RunnerState, running, completed, Point, begin, main, mark_completed, load, store, decrement, done,
  level, Instance, Runner, modify, with_state, with_point, update_state, go_to, count_down, launch,
  enqueue, act, step, run, new_runner,
}

abbrev Kept : Point → Type 0
Kept begin = Unit {0}
Kept main = Unit {0}
Kept mark_completed = Unit {0}
Kept load = Unit {0}
Kept (store v) = v ≡ true
Kept decrement = Unit {0}
Kept done = Unit {0}

-- Nothing has turned m_status to false.
record Clean (r : Runner) : Type 0 where
  up : r.status ≡ true
  kept : All (λ x. Kept x.point) r.instances
  told : All (λ c. c ≡ true) r.completions

modify-Kept :
    (f : Instance → Instance) (i : ℕ) (xs : List Instance)
    → ((x : Instance) → Kept x.point → Kept (f x).point)
    → All (λ x. Kept x.point) xs
    → All (λ x. Kept x.point) (modify f i xs)
modify-Kept f i [] k a = tt
modify-Kept f zero (x ∷ xs) k a = (k x a.0, a.1)
modify-Kept f (suc i) (x ∷ xs) k a = (a.0, modify-Kept f i xs k a.1)

and_then-Clean :
    (out : Outcome (Unit {0}) × Runner) (m : M Runner (Unit {0}))
    → Clean out.1
    → ((r : Runner) → Clean r → Clean (m r).1)
    → Clean (and_then out (λ _. m)).1
and_then-Clean (ok a, r) m c k = k r c
and_then-Clean (throws e, r) m c k = c
and_then-Clean (fatal, r) m c k = c

update_state-Clean :
    (i : ℕ) (new_state : RunnerState) (r : Runner) → Clean r → Clean (update_state i new_state r).1
unfolding update_state
update_state-Clean i new_state r c = elim (Option-cases (get_elem? r.instances i)) [
  | inl missing ↦ rw (update_state, missing) c
  | inr (x, found) ↦ elim (Bool-cases (ltb (level x.state) (level new_state))) [
    | inl less ↦
        rw (update_state, found, less)
          (record {
            up = c.up;
            kept = modify-Kept (with_state new_state) i r.instances (λ x k. k) c.kept;
            told = c.told;
          })
    | inr more ↦ rw (update_state, found, more) c
  ]
]

go_to-Clean : (i : ℕ) (p : Point) (r : Runner) → Kept p → Clean r → Clean (go_to i p r).1
go_to-Clean i p r k c = record {
  up = c.up;
  kept = modify-Kept (with_point p) i r.instances (λ x l. k) c.kept;
  told = c.told;
}

All-append :
    (cs : List Bool) (c : Bool)
    → All (λ c. c ≡ true) cs
    → c ≡ true
    → All (λ c. c ≡ true) (cs ++ (c ∷ []))
All-append [] c h e = (e, tt)
All-append (d ∷ cs) c h e = (h.0, All-append cs c h.1 e)

count_down-Clean : (r : Runner) → Clean r → Clean (count_down r).1
unfolding count_down
count_down-Clean r c = elim (Bool-cases (r.remaining_instances - 1 == 0)) [
  | inl last ↦
      rw (count_down, last)
        (record { up = c.up; kept = c.kept; told = All-append r.completions r.status c.told c.up })
  | inr more ↦ rw (count_down, more) (record { up = c.up; kept = c.kept; told = c.told })
]

launch-Kept : (n : ℕ) → All (λ x. Kept x.point) (launch n)
launch-Kept zero = tt
launch-Kept (suc n) = (tt, launch-Kept n)

get-Kept :
    (i : ℕ) (xs : List Instance) (x : Instance)
    → get_elem? xs i ≡ some x
    → All (λ x. Kept x.point) xs
    → Kept x.point
get-Kept i [] x h a = absurd cc
get-Kept zero (y ∷ xs) x h a = subst (λ z. Kept z.point) (some-injective y x h) a.0
get-Kept (suc i) (y ∷ xs) x h a = get-Kept i xs x h a.1

module _ (context_status : ℕ → Bool) (fine : (i : ℕ) → context_status i ≡ true) where
  act-Clean :
      (p : Point) (i : ℕ) (r : Runner) → Kept p → Clean r → Clean (act context_status i p r).1
  unfolding act
  act-Clean begin i r k c =
      and_then-Clean (update_state i running r) (go_to i main) (update_state-Clean i running r c)
        (λ s d. go_to-Clean i main s tt d)
  act-Clean main i r k c = rw (act, fine i) (go_to-Clean i mark_completed r tt c)
  act-Clean mark_completed i r k c =
      and_then-Clean (update_state i completed r) (go_to i load)
        (update_state-Clean i completed r c) (λ s d. go_to-Clean i load s tt d)
  act-Clean load i r k c =
      go_to-Clean i (store (r.status && context_status i)) r (rw (c.up, fine i) refl) c
  act-Clean (store v) i r k c =
      go_to-Clean i decrement (record r { status = v }) tt
        (record { up = k; kept = c.kept; told = c.told })
  act-Clean decrement i r k c =
      and_then-Clean (count_down r) (go_to i done) (count_down-Clean r c)
        (λ s d. go_to-Clean i done s tt d)
  act-Clean done i r k c = c

  step-Clean : (i : ℕ) (r : Runner) → Clean r → Clean (step context_status i r).1
  unfolding step
  step-Clean i r c = elim (Option-cases (get_elem? r.instances i)) [
    | inl missing ↦ rw (step, missing) c
    | inr (x, found) ↦
        rw (step, found) (act-Clean x.point i r (get-Kept i r.instances x found c.kept) c)
  ]

  run-Clean : (schedule : List ℕ) (r : Runner) → Clean r → Clean (run context_status schedule r).1
  unfolding run
  run-Clean [] r c = c
  run-Clean (i ∷ schedule) r c =
      and_then-Clean (step context_status i r) (run context_status schedule) (step-Clean i r c)
        (run-Clean schedule)

  -- If no context is left with an exception, the completion callback is only told of a success, however
  -- the instances take turns.
  pub run-tells_success :
      (n : ℕ) (schedule : List ℕ)
      → All
          (λ c. c ≡ true)
          (and_then (enqueue n new_runner) (λ _. run context_status schedule)).1.completions
  unfolding enqueue
  run-tells_success n schedule =
      (run-Clean schedule (record new_runner { instances = launch n; remaining_instances = n })
        (record { up = refl; kept = launch-Kept n; told = tt })).told
