-- ===== src/Runner/Completion.antt =====
-- Whatever the schedule, the states of the instances advance and the completion is announced once.
use srf.Base.{
  ℕ, zero, suc, ◌+◌, ◌-◌, ◌<◌, ◌≡◌, refl, sym, ap, ◌∙◌, Bool, true, false, List, [], ◌∷◌, ◌++◌,
  ◌&&◌, some, get_elem?, length, length-append, Outcome, ok, arith, ◌==◌, if◌then◌else◌, Bool-cases,
  Option-cases, inl, inr, and_then,
}
use mathlib.Core.Path.{subst}
use srf.Runner.{
  RunnerState, running, error, completed, level, Point, begin, main, mark_completed, load, store,
  decrement, done, Instance, Runner, modify, with_state, with_point, update_state, go_to,
  count_down, launch, enqueue, act, step, run, new_runner,
}
use srf.Runner.Progress.{
  Fits, live, alive, AllFit, Inv, modify-AllFit, alive-modify, modify-modify, modify-Inv,
  update_state-ok, All-get,
}

-- A step ends well, in a state that satisfies the invariant.
abbrev Good : Outcome (Unit {0}) × Runner → Type 0
Good out = (r' : Runner) × (out ≡ (ok tt, r')) × Inv r'

-- An update of the state and of the point.
update-Good :
    (i : ℕ) (new_state : RunnerState) (p : Point) (r : Runner) (x : Instance)
    → Inv r
    → get_elem? r.instances i ≡ some x
    → level x.state < level new_state
    → Fits p new_state
    → live p ≡ live x.point
    → Good (and_then (update_state i new_state r) (λ _. go_to i p))
update-Good i new_state p r x inv h l k e = (
  record r { instances = modify (λ x. with_point p (with_state new_state x)) i r.instances },
  rw (update_state-ok i new_state r x h l) (
      ap (λ l. (ok tt, record r { instances = l }))
        (modify-modify (with_state new_state) (with_point p) i r.instances)),
  modify-Inv (λ x. with_point p (with_state new_state x)) i r x r.status inv h k e,
)

count_down-Good :
    (i : ℕ) (r : Runner) (x : Instance)
    → Inv r
    → get_elem? r.instances i ≡ some x
    → x.point ≡ decrement
    → Good (and_then (count_down r) (λ _. go_to i done))
unfolding count_down
count_down-Good i r x inv h e = elim (Bool-cases (r.remaining_instances - 1 == 0)) [
  | inl last ↦ (
    record r {
      instances = modify (with_point done) i r.instances;
      remaining_instances = r.remaining_instances - 1;
      completions = r.completions ++ (r.status ∷ []);
    },
    rw (count_down, last),
    record {
      fit = fits;
      counted = omega (arith, counts);
      not_yet = λ p. absurd (ground arith);
      once = λ p.
          length-append r.completions (r.status ∷ [])
          ∙ ap (λ c. length c + 1) (inv.not_yet (omega (arith, counts)));
    },
  )
  | inr more ↦ (
    record r {
      instances = modify (with_point done) i r.instances;
      remaining_instances = r.remaining_instances - 1;
    },
    rw (count_down, more),
    record {
      fit = fits;
      counted = omega (arith, counts);
      not_yet = λ p. inv.not_yet (omega arith);
      once = λ p. absurd (ground arith);
    },
  )
]
  where
    alive_x : live x.point ≡ 1
    alive_x = ap live e

    counts : r.remaining_instances ≡ suc (alive (modify (with_point done) i r.instances))
    counts = omega (arith, alive-modify (with_point done) i r.instances x h, inv.counted, alive_x)

    fits : AllFit (modify (with_point done) i r.instances)
    fits =
        modify-AllFit (with_point done) i r.instances x h
          (subst (λ p. Fits p x.state) e (All-get i r.instances x h inv.fit)) inv.fit

main-Good :
    (good : Bool) (i : ℕ) (r : Runner) (x : Instance)
    → Inv r
    → get_elem? r.instances i ≡ some x
    → x.point ≡ main
    → Good (
        and_then
          ((if good then (λ r. (ok tt, r)) else update_state i error) r)
          (λ _. go_to i mark_completed))
main-Good good i r x inv h e = go good
  where
    here : level x.state ≡ 2
    here = subst (λ p. Fits p x.state) e (All-get i r.instances x h inv.fit)

    go :
        (good : Bool)
        → Good (
            and_then
              ((if good then (λ r. (ok tt, r)) else update_state i error) r)
              (λ _. go_to i mark_completed))
    go true = (
      _,
      refl,
      modify-Inv (with_point mark_completed) i r x r.status inv h (omega (arith, here))
          (sym (ap live e)),
    )
    go false =
        update-Good i error mark_completed r x inv h (omega (arith, here)) (omega arith)
          (sym (ap live e))

launch-Inv : (n : ℕ) → AllFit (launch n) × (alive (launch n) ≡ n)
launch-Inv zero = (tt, refl)
launch-Inv (suc n) = ((refl, (launch-Inv n).0), omega (arith, (launch-Inv n).1))

module _ (context_status : ℕ → Bool) where
  act-Good :
      (p : Point) (i : ℕ) (r : Runner) (x : Instance)
      → Inv r
      → get_elem? r.instances i ≡ some x
      → x.point ≡ p
      → Good (act context_status i p r)
  unfolding act
  act-Good begin i r x inv h e =
      update-Good i running main r x inv h (omega (arith, here)) refl (sym (ap live e))
    where
      here : level x.state ≡ 1
      here = subst (λ p. Fits p x.state) e (All-get i r.instances x h inv.fit)
  act-Good main i r x inv h e = main-Good (context_status i) i r x inv h e
  act-Good mark_completed i r x inv h e =
      update-Good i completed load r x inv h (omega (arith, here)) refl (sym (ap live e))
    where
      here : level x.state < 4
      here = subst (λ p. Fits p x.state) e (All-get i r.instances x h inv.fit)
  act-Good load i r x inv h e = (
    _,
    refl,
    modify-Inv (with_point (store (r.status && context_status i))) i r x r.status inv h here
        (sym (ap live e)),
  )
    where
      here : level x.state ≡ 4
      here = subst (λ p. Fits p x.state) e (All-get i r.instances x h inv.fit)
  act-Good (store v) i r x inv h e =
      (_, refl, modify-Inv (with_point decrement) i r x v inv h here (sym (ap live e)))
    where
      here : level x.state ≡ 4
      here = subst (λ p. Fits p x.state) e (All-get i r.instances x h inv.fit)
  act-Good decrement i r x inv h e = count_down-Good i r x inv h e
  act-Good done i r x inv h e = (r, refl, inv)

  step-Good : (i : ℕ) (r : Runner) → Inv r → Good (step context_status i r)
  unfolding step
  step-Good i r inv = elim (Option-cases (get_elem? r.instances i)) [
    | inl missing ↦ (r, rw (step, missing), inv)
    | inr (x, found) ↦
        let out = act-Good x.point i r x inv found refl in (out.0, rw (step, found) out.1, out.2)
  ]

  run-Good : (schedule : List ℕ) (r : Runner) → Inv r → Good (run context_status schedule r)
  unfolding run
  run-Good [] r inv = (r, refl, inv)
  run-Good (i ∷ schedule) r inv =
      let one = step-Good i r inv in
      let rest = run-Good schedule one.0 one.2 in (rest.0, rw (run, one.1) rest.1, rest.2)

  -- With one instance or more and a `main` that returns, however the instances take turns, no update of a state fails its check, and the completion callback
  -- is called once, when the last instance has counted down, and not before.
  pub run-completes :
      (n : ℕ) (schedule : List ℕ)
      → 0 < n
      → (r : Runner) × (and_then (enqueue n new_runner) (λ _. run context_status schedule)
          ≡ (ok tt, r))
        × AllFit r.instances
        × (alive r.instances ≡ 0 → length r.completions ≡ 1)
        × (0 < alive r.instances → r.completions ≡ [])
  unfolding enqueue
  run-completes n schedule some_instance = (
    out.0,
    out.1,
    out.2.fit,
    λ e. out.2.once (out.2.counted ∙ e),
    λ h. out.2.not_yet (rw out.2.counted h),
  )
    where
      out : Good (
          run context_status schedule
            (record new_runner { instances = launch n; remaining_instances = n }))
      out =
          run-Good schedule (record new_runner { instances = launch n; remaining_instances = n })
            (record {
              fit = (launch-Inv n).0;
              counted = sym (launch-Inv n).1;
              not_yet = λ p. refl;
              once = λ p. absurd (omega arith);
            })
