-- ===== src/Runner/Progress.antt =====
-- The state of an instance at each point of its task, and the countdown.
use srf.Base.{
  ℕ, zero, suc, ◌+◌, ◌<◌, ◌≡◌, refl, sym, ap, Bool, true, List, [], ◌∷◌, some, get_elem?, length,
  ok, arith, ltb, All, some-injective,
}
use mathlib.Core.Path.{subst}
use srf.Runner.{
  RunnerState, level, Point, begin, main, mark_completed, load, store, decrement, done, Instance,
  Runner, modify, with_state, update_state,
}

-- The state of an instance at each point of its task.
abbrev pub Fits : Point → RunnerState → Type 0
Fits begin s = level s ≡ 1
Fits main s = level s ≡ 2
Fits mark_completed s = level s < 4
Fits load s = level s ≡ 4
Fits (store v) s = level s ≡ 4
Fits decrement s = level s ≡ 4
Fits done s = level s ≡ 4

abbrev pub live : Point → ℕ
live begin = 1
live main = 1
live mark_completed = 1
live load = 1
live (store v) = 1
live decrement = 1
live done = 0

-- How many instances have not counted down.
abbrev pub alive : List Instance → ℕ
alive [] = 0
alive (x ∷ xs) = live x.point + alive xs

abbrev pub AllFit : List Instance → Type 0
AllFit = All λ x. Fits x.point x.state

pub modify-AllFit :
    (f : Instance → Instance) (i : ℕ) (xs : List Instance) (x : Instance)
    → get_elem? xs i ≡ some x
    → Fits (f x).point (f x).state
    → AllFit xs
    → AllFit (modify f i xs)
modify-AllFit f i [] x h k a = tt
modify-AllFit f zero (y ∷ xs) x h k a =
    (subst (λ z. Fits (f z).point (f z).state) (sym (some-injective y x h)) k, a.1)
modify-AllFit f (suc i) (y ∷ xs) x h k a = (a.0, modify-AllFit f i xs x h k a.1)

pub alive-modify :
    (f : Instance → Instance) (i : ℕ) (xs : List Instance) (x : Instance)
    → get_elem? xs i ≡ some x
    → alive (modify f i xs) + live x.point ≡ alive xs + live (f x).point
alive-modify f i [] x h = absurd cc
alive-modify f zero (y ∷ xs) x h = rw (some-injective y x h) (omega arith)
alive-modify f (suc i) (y ∷ xs) x h = omega (arith, alive-modify f i xs x h)

pub modify-modify :
    (f g : Instance → Instance) (i : ℕ) (xs : List Instance)
    → modify g i (modify f i xs) ≡ modify (λ x. g (f x)) i xs
modify-modify f g i [] = refl
modify-modify f g zero (x ∷ xs) = refl
modify-modify f g (suc i) (x ∷ xs) = ap (λ l. x ∷ l) (modify-modify f g i xs)

pub record Inv (r : Runner) : Type 0 where
  pub fit : AllFit r.instances
  pub counted : r.remaining_instances ≡ alive r.instances
  pub not_yet : 0 < r.remaining_instances → r.completions ≡ []
  pub once : r.remaining_instances ≡ 0 → length r.completions ≡ 1

-- A change of one instance that keeps it alive.
pub modify-Inv :
    (f : Instance → Instance) (i : ℕ) (r : Runner) (x : Instance) (v : Bool)
    → Inv r
    → get_elem? r.instances i ≡ some x
    → Fits (f x).point (f x).state
    → live (f x).point ≡ live x.point
    → Inv (record r { instances = modify f i r.instances; status = v })
modify-Inv f i r x v inv h k l = record {
  fit = modify-AllFit f i r.instances x h k inv.fit;
  counted = omega (arith, inv.counted, alive-modify f i r.instances x h);
  not_yet = inv.not_yet;
  once = inv.once;
}

pub update_state-ok :
    (i : ℕ) (new_state : RunnerState) (r : Runner) (x : Instance)
    → get_elem? r.instances i ≡ some x
    → level x.state < level new_state
    → update_state i new_state r
      ≡ (ok tt, record r { instances = modify (with_state new_state) i r.instances })
unfolding update_state
update_state-ok i new_state r x h l = rw (update_state, h, less)
  where
    less : ltb (level x.state) (level new_state) ≡ true
    less = ground arith

pub All-get :
    (i : ℕ) (xs : List Instance) (x : Instance)
    → get_elem? xs i ≡ some x
    → AllFit xs
    → Fits x.point x.state
All-get i [] x h a = absurd cc
All-get zero (y ∷ xs) x h a = subst (λ z. Fits z.point z.state) (some-injective y x h) a.0
All-get (suc i) (y ∷ xs) x h a = All-get i xs x h a.1
