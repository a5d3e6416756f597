-- ===== src/Runnable/Failure.antt =====
-- The first exception is the one that is told.
use srf.Base.{
  ℕ, ◌≡◌, refl, ap, ◌∙◌, true, false, List, [], ◌∷◌, ◌++◌, map, Bool, Option, none, some, Outcome,
  ok, throws, Exception, thrown, All,
}
use srf.Runnable.{
  Runnable, Context, status, set_exception, finish, kill_runnable, first_exception, await_join,
}

-- Some calls of set_exception, one after another, each with whether its exception is a std::exception: what each of
-- them comes to for its caller, and what is left.
unfoldable pub set_each :
    List (Bool × ℕ) → Context × Runnable → List (Outcome (Unit {0})) × (Context × Runnable)
unfolding set_exception
set_each [] s = ([], s)
set_each ((is_std, e) ∷ calls) s =
    let (answer, s) = set_exception is_std e s in
    let (answers, s) = set_each calls s in (answer ∷ answers, s)

-- What a caller gets.
abbrev pub answer : Bool × ℕ → Outcome (Unit {0})
answer (true, e) = ok tt
answer (false, e) = throws (thrown e)

abbrev pub foreign : ℕ → Bool × ℕ
foreign e = (false, e)

set_exception-kept :
    (x : ℕ) (c : Context) (r : Runnable) (e : ℕ)
    → c.exception ≡ some e
    → set_exception true x (c, r) ≡ (ok tt, (c, r))
unfolding set_exception
set_exception-kept x c r e h =
    ap {B = Outcome (Unit {0}) × (Context × Runnable)}
      (λ o. elim o [
        | none ↦ (ok tt, (record c { exception = some x }, kill_runnable r))
        | some _ ↦ (ok tt, (c, r))
      ])
      h

set_each-kept :
    (calls : List (Bool × ℕ)) (c : Context) (r : Runnable) (e : ℕ)
    → c.exception ≡ some e
    → set_each calls (c, r) ≡ (map answer calls, (c, r))
unfolding set_each
set_each-kept [] c r e h = refl
set_each-kept ((true, x) ∷ calls) c r e h =
    rw (set_exception-kept x c r e h, set_each-kept calls c r e h) refl
set_each-kept ((false, x) ∷ calls) c r e h = rw (set_each-kept calls c r e h) refl

set_each-foreign :
    (others : List ℕ) (calls : List (Bool × ℕ)) (s t : Context × Runnable)
    → set_each calls s ≡ (map answer calls, t)
    → set_each (map foreign others ++ calls) s ≡ (map answer (map foreign others ++ calls), t)
unfolding set_each
set_each-foreign [] calls s t h = h
set_each-foreign (x ∷ others) calls s t h = rw (set_each-foreign others calls s t h) refl

-- On a context that has no exception, an exception that is no std::exception is thrown to the caller of set_exception
-- and changes nothing, so that finish returns after any number of these. The first std::exception, whatever came before
-- it, is kept and kills the runnable; later exceptions of either kind change nothing more, the status is false, and
-- finish throws that first one.
pub set_each-first :
    (others : List ℕ) (e : ℕ) (calls : List (Bool × ℕ)) (c : Context) (r : Runnable)
    → c.exception ≡ none
    → let failed = record c { exception = some e } in
      let all = map foreign others ++ ((true, e) ∷ calls) in
      (set_each (map foreign others ++ []) (c, r) ≡ (map answer (map foreign others ++ []), (c, r)))
      × (finish c ≡ (ok tt, c))
      × (set_each all (c, r) ≡ (map answer all, (failed, kill_runnable r)))
      × (status failed ≡ false)
      × (finish failed ≡ (throws (thrown e), failed))
unfolding set_each finish
set_each-first others e calls c r h =
    let failed = record c { exception = some e } in
    (
      set_each-foreign others [] (c, r) (c, r) refl,
      ap {B = Outcome (Unit {0}) × Context}
          (λ o. elim o [ none ↦ (ok tt, c) | some x ↦ (throws (thrown x), c) ]) h,
      set_each-foreign others ((true, e) ∷ calls) (c, r) (failed, kill_runnable r)
          (rw (set_each, set_exception, h, set_each-kept calls failed (kill_runnable r) e refl)
            refl),
      refl,
      refl,
    )

first_exception-some :
    (e : Exception) (futures : List (Option Exception)) → first_exception (some e) futures ≡ some e
unfolding first_exception
first_exception-some e [] = refl
first_exception-some e (future ∷ futures) = first_exception-some e futures

first_exception-skip :
    (before after : List (Option Exception))
    → All (λ f. f ≡ none) before
    → first_exception none (before ++ after) ≡ first_exception none after
unfolding first_exception
first_exception-skip [] after h = refl
first_exception-skip (f ∷ before) after h =
    ap (λ o. first_exception o (before ++ after)) h.0 ∙ first_exception-skip before after h.1

-- The wait for the instances returns if none of them failed, and otherwise throws the exception of the first that
-- did, in the order of the instances; no instance is left in either case.
pub await_join-first :
    (instances after : List (Option Exception)) (e : Exception)
    → All (λ f. f ≡ none) instances
    → (await_join (instances ++ []) ≡ (ok tt, []))
      × (await_join (instances ++ (some e ∷ after)) ≡ (throws e, []))
unfolding await_join first_exception
await_join-first instances after e h = (
  rw (await_join, first_exception-skip instances [] h) refl,
  rw (await_join, first_exception-skip instances (some e ∷ after) h, first_exception-some e after)
      refl,
)
