-- ===== src/Instances/Joining.antt =====
-- The wait for the segments of a pipeline.
use srf.Base.{
  ℕ, ◌≡◌, ◌≢◌, refl, sym, ap, ◌∙◌, true, false, List, [], ◌∷◌, none, some, nat_key, Outcome, ok,
  throws, fatal, M, All, All-weaken, All-contains, Bool-cases, inl, inr, arith, ◌==◌, ==_iff,
  if_true, if_false, some-injective,
}
use srf.Base.Map.{find, insert, keys, find-insert, contains-find}
use srf.Service.{Service, Hook, completed, service_await_join}
use srf.Instances.{Segment, Instance, serve, join_all, do_service_await_join, after_exception}

await_join-ok :
    (hook : Hook → Outcome (Unit {0})) (s : Service)
    → hook Hook.await_join ≡ ok tt
    → (service_await_join hook s).1.state ≡ completed
unfolding service_await_join
await_join-ok hook s h = ground arith

await_join-kept :
    (hook : Hook → Outcome (Unit {0})) (s : Service)
    → s.state ≡ completed
    → (service_await_join hook s).1.state ≡ completed
unfolding service_await_join
await_join-kept hook s h = ground arith

await_join-returns :
    (hook : Hook → Outcome (Unit {0})) (s : Service)
    → hook Hook.await_join ≢ fatal
    → (service_await_join hook s).0 ≢ fatal
unfolding service_await_join
await_join-returns hook s h = ground arith

-- There is a segment at the address.
abbrev pub Present : {I : Type 0} → Instance I → ℕ → Type 0
Present {I} p a = (s : Segment I) × (find a p.segments ≡ some s)

-- It was joined.
abbrev pub Joined : {I : Type 0} → Instance I → ℕ → Type 0
Joined {I} p a = (s : Segment I) × (find a p.segments ≡ some s) × (s.service.state ≡ completed)

module _ {I : Type 0} where
  serve-found :
      (act : M Service (Unit {0})) (b : ℕ) (p : Instance I) (t : Segment I)
      → find b p.segments ≡ some t
      → serve act b p ≡ (
        (act t.service).0,
        record p { segments = insert b (record t { service = (act t.service).1 }) p.segments },
      )
  unfolding serve
  serve-found act b p t f = rw (serve, f) refl

  insert-Present :
      (b : ℕ) (t : Segment I) (p : Instance I) (a : ℕ)
      → Present p a
      → Present (record p { segments = insert b t p.segments }) a
  insert-Present b t p a (s, f) = elim (Bool-cases (b == a)) [
    | inl this ↦ (t, find-insert b a t p.segments ∙ if_true (some t) (find a p.segments) this)
    | inr other ↦
        (s, find-insert b a t p.segments ∙ if_false (some t) (find a p.segments) other ∙ f)
  ]

  insert-Joined :
      (b : ℕ) (t : Segment I) (p : Instance I) (a : ℕ)
      → (a ≡ b → t.service.state ≡ completed)
      → Joined p a
      → Joined (record p { segments = insert b t p.segments }) a
  insert-Joined b t p a h (s, f, l) = elim (Bool-cases (b == a)) [
    | inl this ↦ (
      t,
      find-insert b a t p.segments ∙ if_true (some t) (find a p.segments) this,
      h (sym ((==_iff b a).0 this)),
    )
    | inr other ↦
        (s, find-insert b a t p.segments ∙ if_false (some t) (find a p.segments) other ∙ f, l)
  ]

  -- The end of a turn of the loop.
  abbrev concluded :
      Outcome (Unit {0})
      → Outcome (Unit {0}) × Instance I
      → Instance I
      → Outcome (Unit {0}) × Instance I
  concluded first r p = elim first [
    | ok _ ↦ r
    | throws e ↦ (after_exception e r.0, r.1)
    | fatal ↦ (fatal, p)
  ]

  concluded-returns :
      (first : Outcome (Unit {0})) (r : Outcome (Unit {0}) × Instance I) (p : Instance I)
      → first ≢ fatal
      → r.0 ≢ fatal
      → ((concluded first r p).0 ≢ fatal) × ((concluded first r p).1 ≡ r.1)
  concluded-returns (ok _) r p h k = (k, refl)
  concluded-returns (throws e) (ok _, q) p h k = ((λ f. absurd cc), refl)
  concluded-returns (throws e) (throws x, q) p h k = ((λ f. absurd cc), refl)
  concluded-returns (throws e) (fatal, q) p h k = absurd (k refl)
  concluded-returns fatal r p h k = absurd (h refl)

  Joined-same : (p q : Instance I) (a : ℕ) → p ≡ q → Joined q a → Joined p a
  Joined-same p q a e j = rw e j

  join_all-cons :
      (hook : ℕ → Hook → Outcome (Unit {0})) (b : ℕ) (addrs : List ℕ) (p q : Instance I)
      (o : Outcome (Unit {0}))
      → serve (service_await_join (hook b)) b p ≡ (o, q)
      → join_all hook (b ∷ addrs) p ≡ concluded o (join_all hook addrs q) q
  unfolding join_all
  join_all-cons hook b addrs p q o e = ap (λ r. concluded r.0 (join_all hook addrs r.1) r.1) e

  module _ (hook : ℕ → Hook → Outcome (Unit {0}))
      (returns : (a : ℕ) → hook a Hook.await_join ≢ fatal) where
    join_all-Joined :
        (addrs : List ℕ) (p : Instance I)
        → All (Present p) addrs
        → ((join_all hook addrs p).0 ≢ fatal)
          × ((a : ℕ) → Joined p a → Joined (join_all hook addrs p).1 a)
          × All (λ a. hook a Hook.await_join ≡ ok tt → Joined (join_all hook addrs p).1 a) addrs
    unfolding join_all
    join_all-Joined [] p h = ((λ f. absurd cc), (λ a j. j), tt)
    join_all-Joined (b ∷ addrs) p ((t, f), h) =
        let joining = service_await_join (hook b) t.service in
        let t' : Segment I = record t { service = joining.1 } in
        let q : Instance I = record p { segments = insert b t' p.segments } in
        let rest = join_all-Joined addrs q (All-weaken addrs (λ a. insert-Present b t' p a) h) in
        let r = join_all hook addrs q in
        let step =
          join_all-cons hook b addrs p q joining.0
            (serve-found (service_await_join (hook b)) b p t f) in
        let done =
          concluded-returns joining.0 r q (await_join-returns (hook b) t.service (returns b))
            rest.0 in
        let same : (join_all hook (b ∷ addrs) p).1 ≡ r.1 = ap (λ r. r.1) step ∙ done.1 in
        (
          (λ e. done.0 (sym (ap (λ r. r.0) step) ∙ e)),
          (λ a (s, g, l). Joined-same _ r.1 a same (
              rest.1 a (
                insert-Joined b t' p a
                  (λ e. await_join-kept (hook b) t.service (
                    ap (λ s. s.service.state)
                      (some-injective t s (sym f ∙ ap (λ k. find k p.segments) (sym e) ∙ g))
                    ∙ l))
                  (s, g, l)))),
          (
            (λ good. Joined-same _ r.1 b same (
                rest.1 b (
                  t',
                  find-insert b b t' p.segments
                      ∙ if_true (some t') (find b p.segments) ((==_iff b b).1 refl),
                  await_join-ok (hook b) t.service good,
                ))),
            All-weaken addrs (λ a j good. Joined-same _ r.1 a same (j good)) rest.2,
          ),
        )

    -- The wait of a joinable instance, the hooks of whose segments end in some way, ends too: without failing a
    -- check, and with every segment joined whose hook returns, whatever the hooks of the others throw. The wait of an
    -- instance that is not joinable does not end.
    pub do_service_await_join-joins :
        (p : Instance I)
        → (p.joinable ≡ false → do_service_await_join hook p ≡ none)
          × (p.joinable ≡ true
              → (r : Outcome (Unit {0}) × Instance I) × (do_service_await_join hook p ≡ some r)
                × (r.0 ≢ fatal)
                × All (λ a. hook a Hook.await_join ≡ ok tt → Joined r.1 a) (keys p.segments))
    unfolding do_service_await_join
    do_service_await_join-joins p =
        let present =
          All-weaken (keys p.segments) (λ a c. contains-find a p.segments c)
            (All-contains (keys p.segments)) in
        let j = join_all-Joined (keys p.segments) p present in
        (
          (λ h. if_false (some (join_all hook (keys p.segments) p)) none h),
          (λ h. (
            join_all hook (keys p.segments) p,
            if_true (some (join_all hook (keys p.segments) p)) none h,
            j.0,
            j.2,
          )),
        )
