-- ===== src/Controller/Stopping.antt =====
-- What becomes of a segment that is stopped and stays in the instance.
use srf.Base.{
  ℕ, ◌≤◌, ◌≡◌, refl, sym, ap, ◌∙◌, true, false, List, [], ◌∷◌, some, nat_key, Outcome, fatal, M,
  contains, After, After-and_then, After-pair, After-always, After-and_pair, Bool-cases,
  Option-cases, inl, inr, arith, ==_iff, if_true, if_false, some-injective, ◌==◌,
}
use srf.Base.Map.{find, insert, keys, find-insert, find-contains}
use srf.Pipeline.{Pipeline}
use srf.Service.{Service, Hook, level, service_start, service_await_live, service_stop}
use srf.Instances.{
  Segment, Instance, serve, stop_segment, update, for_each, mark_joinable, start_segment, resume,
  each_manifold,
}
use srf.Manifold.{refresh}
use srf.Instances.Loops.{for_each-reaches}
use srf.Controller.{set_difference}

service_stop-level :
    (hook : Hook → Outcome (Unit {0})) (s : Service) → 3 ≤ level (service_stop hook s).1.state
unfolding service_stop
service_stop-level hook s = ground arith

service_stop-up :
    (hook : Hook → Outcome (Unit {0})) (s : Service)
    → level s.state ≤ level (service_stop hook s).1.state
unfolding service_stop
service_stop-up hook s = ground arith

pub service_start-level :
    (hook : Hook → Outcome (Unit {0})) (s : Service)
    → level s.state ≤ level (service_start hook s).1.state
unfolding service_start
service_start-level hook s = ground arith

service_start-fatal :
    (hook : Hook → Outcome (Unit {0})) (s : Service)
    → 3 ≤ level s.state
    → (service_start hook s).0 ≡ fatal
unfolding service_start
service_start-fatal hook s h = ground arith

pub service_await_live-level :
    (hook : Hook → Outcome (Unit {0})) (s : Service)
    → level s.state ≤ level (service_await_live hook s).1.state
unfolding service_await_live
service_await_live-level hook s = ground arith

pub difference-contains :
    (a : ℕ) (xs ys : List ℕ)
    → contains a xs ≡ true
    → contains a ys ≡ false
    → contains a (set_difference xs ys) ≡ true
unfolding set_difference contains
difference-contains a [] ys h n = absurd cc
difference-contains a (x ∷ xs) ys h n = elim (Bool-cases (x == a)) [
  | inl this ↦
      let fresh : contains x ys ≡ false = cc (n, (==_iff x a).0 this) in rw (fresh, this) refl
  | inr other ↦ elim (Bool-cases (contains x ys)) [
    | inl old ↦ rw old (difference-contains a xs ys (ground arith) n)
    | inr new ↦ rw new (ground (arith, difference-contains a xs ys (ground arith) n))
  ]
]

-- The segment at the address has been stopped, or more.
abbrev pub Stopped : {I : Type 0} → ℕ → Instance I → Type 0
Stopped {I} a p = (s : Segment I) × (find a p.segments ≡ some s) × (3 ≤ level s.service.state)

module _ {I : Type 0} (a : ℕ) where
  insert-Stopped :
      (p : Instance I) (s : Segment I)
      → 3 ≤ level s.service.state
      → Stopped a (record p { segments = insert a s p.segments })
  insert-Stopped p s h = (
    s,
    find-insert a a s p.segments ∙ if_true (some s) (find a p.segments) ((==_iff a a).1 refl),
    h,
  )

  replaced-Stopped :
      (b : ℕ) (p : Instance I) (t : Segment I) (v : Service)
      → find b p.segments ≡ some t
      → level t.service.state ≤ level v.state
      → Stopped a p
      → Stopped a (record p { segments = insert b (record t { service = v }) p.segments })
  replaced-Stopped b p t v found up (s, f, l) =
      let t' : Segment I = record t { service = v } in
      elim (Bool-cases (b == a)) [
        | inl this ↦
            let same : t ≡ s =
              some-injective t s
                (sym found ∙ ap (λ k. find k p.segments) ((==_iff b a).0 this) ∙ f) in
            (
              t',
              find-insert b a t' p.segments ∙ if_true (some t') (find a p.segments) this,
              omega (arith, up, ap (λ s. level s.service.state) same, l),
            )
        | inr other ↦
            (s, find-insert b a t' p.segments ∙ if_false (some t') (find a p.segments) other ∙ f, l)
      ]

  -- A call of a service that does not take it back.
  pub serve-still :
      (act : M Service (Unit {0}))
      → ((s : Service) → level s.state ≤ level (act s).1.state)
      → (b : ℕ) (p : Instance I) → Stopped a p
      → Stopped a (serve act b p).1
  unfolding serve
  serve-still act up b p st = elim (Option-cases (find b p.segments)) [
    | inl missing ↦ rw (serve, missing) st
    | inr (t, found) ↦
        rw (serve, found) (replaced-Stopped b p t (act t.service).1 found (up t.service) st)
  ]

  serve-Stopped :
      (act : M Service (Unit {0}))
      → ((s : Service) → level s.state ≤ level (act s).1.state)
      → (b : ℕ) (p : Instance I) → Stopped a p
      → After (Stopped a) (serve act b p)
  serve-Stopped act up b p st =
      After-pair (Stopped a) (serve act b p).0 (serve act b p).1 (serve-still act up b p st)

  serve-stops :
      (act : M Service (Unit {0}))
      → ((s : Service) → 3 ≤ level (act s).1.state)
      → (p : Instance I) → After (Stopped a) (serve act a p)
  unfolding serve
  serve-stops act up p = elim (Option-cases (find a p.segments)) [
    | inl missing ↦ rw (serve, missing) tt
    | inr (t, found) ↦
        let t' : Segment I = record t { service = (act t.service).1 } in
        rw (serve, found)
          (After-pair (Stopped a) (act t.service).0 (record p { segments = insert a t' p.segments })
            (insert-Stopped p t' (up t.service)))
  ]

  serve-refuses :
      (hook : ℕ → Hook → Outcome (Unit {0})) (p : Instance I)
      → Stopped a p
      → After (λ _. ⊥) (serve (service_start (hook a)) a p)
  unfolding serve
  serve-refuses hook p (s, f, l) = rw (serve, f, service_start-fatal (hook a) s.service l) tt

  module _ (definition : Pipeline I) (hook : ℕ → Hook → Outcome (Unit {0})) where
    stop_segment-serve :
        (Q : Instance I → Type 0) (k : ℕ) (p : Instance I)
        → After Q (serve (service_stop (hook k)) k p)
        → After Q (stop_segment definition hook k p)
    unfolding stop_segment
    stop_segment-serve Q k p h = elim (Option-cases (find k p.segments)) [
      | inl missing ↦ rw (stop_segment, missing) tt
      | inr (_, found) ↦
          rw (stop_segment, found) (After-and_pair Q _ p (serve (service_stop (hook k)) k) h)
    ]

    pub stops-Stopped :
        (ks : List ℕ) (p : Instance I)
        → contains a ks ≡ true
        → After (Stopped a) (for_each (stop_segment definition hook) ks p)
    stops-Stopped ks p c =
        for_each-reaches (λ _. Unit {0}) (Stopped a) (stop_segment definition hook) a ks p
          (λ p _.
            stop_segment-serve (Stopped a) a p
              (serve-stops (service_stop (hook a)) (service_stop-level (hook a)) p))
          (λ k p _. After-always (stop_segment definition hook k p))
          (λ k p h.
            stop_segment-serve (Stopped a) k p
              (serve-Stopped (service_stop (hook k)) (service_stop-up (hook k)) k p h))
          c tt

    start_segment-Stopped :
        (k : ℕ) (p : Instance I) → Stopped a p → After (Stopped a) (start_segment hook k p)
    unfolding start_segment
    start_segment-Stopped k p st =
        After-and_then (Stopped a) (Stopped a) (serve (service_start (hook k)) k p)
          (λ _. serve (service_await_live (hook k)) k)
          (serve-Stopped (service_start (hook k)) (service_start-level (hook k)) k p st)
          λ _ p st.
            serve-Stopped (service_await_live (hook k)) (service_await_live-level (hook k)) k p st

    start_segment-refused : (p : Instance I) → Stopped a p → After (λ _. ⊥) (start_segment hook a p)
    unfolding start_segment
    start_segment-refused p st =
        After-and_then (λ _. ⊥) (λ _. ⊥) (serve (service_start (hook a)) a p)
          (λ _. serve (service_await_live (hook a)) a) (serve-refuses hook p st) λ _ _ h. absurd h

    resume-Stopped : (p : Instance I) → Stopped a p → After (λ _. ⊥) (resume hook p)
    unfolding resume
    resume-Stopped p (s, f, l) =
        After-and_then (λ _. ⊥) (λ _. ⊥) (for_each (start_segment hook) (keys p.segments) p)
          (λ _. mark_joinable)
          (for_each-reaches (Stopped a) (λ _. ⊥) (start_segment hook) a (keys p.segments) p
            start_segment-refused start_segment-Stopped (λ _ _ h. absurd h)
            (find-contains a p.segments s f) (s, f, l))
          λ _ _ h. absurd h

    pub update-Stopped :
        (shuffle : List ℕ → List ℕ) (p : Instance I)
        → Stopped a p
        → After (λ _. ⊥) (update hook shuffle p)
    unfolding update
    update-Stopped shuffle p st =
        let r = each_manifold (refresh shuffle) p.manifolds in
        After-and_pair (λ _. ⊥) r.0 (record p { manifolds = r.1 }) (resume hook)
          (resume-Stopped (record p { manifolds = r.1 }) st)
