-- ===== src/Controller/Refusing.antt =====
-- A stopped segment that is started again ends the process.
use srf.Base.{
  ℕ, ◌≤◌, ◌≡◌, refl, List, [], ◌∷◌, nat_key, Outcome, ok, throws, fatal, M, and_then, ◌⊎◌,
  Bool-cases, Option-cases, inl, inr, leb, ltb,
}
use srf.Base.Map.{find, keys}
use srf.Service.{Service, Hook, level, service_start, service_await_live}
use srf.Instances.{Instance, serve, start_segment, for_each, mark_joinable, resume}
use srf.Controller.Stopping.{Stopped, serve-still, service_start-level, service_await_live-level}

-- No exception: what hooks that return leave of a start.
abbrev pub NoThrow : Outcome (Unit {0}) → Type 0
NoThrow o = (o ≡ ok tt) ⊎ (o ≡ fatal)

service_start-NoThrow :
    (hook : Hook → Outcome (Unit {0})) (s : Service)
    → hook Hook.start ≡ ok tt
    → NoThrow (service_start hook s).0
unfolding service_start
service_start-NoThrow hook s h = elim (Bool-cases (leb (level s.state) 1)) [
  | inr past ↦ inr (rw past refl)
  | inl early ↦ elim (Bool-cases (ltb (level s.state) 1)) [
    | inl new ↦ inl (rw (early, new) h)
    | inr old ↦ inl (rw (early, old) refl)
  ]
]

service_await_live-NoThrow :
    (hook : Hook → Outcome (Unit {0})) (s : Service)
    → hook Hook.await_live ≡ ok tt
    → NoThrow (service_await_live hook s).0
unfolding service_await_live
service_await_live-NoThrow hook s h = inl h

module _ {I : Type 0} (a : ℕ) where
  -- Whatever it comes to, the segment at the address is still stopped, and no exception is thrown.
  abbrev pub Still : Outcome (Unit {0}) × Instance I → Type 0
  Still r = NoThrow r.0 × Stopped a r.1

  and_then-Still :
      (r : Outcome (Unit {0}) × Instance I) (f : Unit {0} → M (Instance I) (Unit {0}))
      → Still r
      → ((p : Instance I) → Stopped a p → Still (f tt p))
      → Still (and_then r f)
  and_then-Still (ok tt, p) f (n, st) h = h p st
  and_then-Still (throws e, p) f (n, st) h = (n, st)
  and_then-Still (fatal, p) f (n, st) h = (n, st)

  serve-Still :
      (act : M Service (Unit {0}))
      → ((s : Service) → level s.state ≤ level (act s).1.state)
      → ((s : Service) → NoThrow (act s).0)
      → (b : ℕ) (p : Instance I) → Stopped a p
      → Still (serve act b p)
  unfolding serve
  serve-Still act up quiet b p st = (calm, serve-still a act up b p st)
    where
      calm : NoThrow (serve act b p).0
      calm = elim (Option-cases (find b p.segments)) [
        | inl missing ↦ rw (serve, missing) (inr refl)
        | inr (t, found) ↦ rw (serve, found) (quiet t.service)
      ]

  module _ (hook : ℕ → Hook → Outcome (Unit {0}))
      (good : (b : ℕ) → (hook b Hook.start ≡ ok tt) × (hook b Hook.await_live ≡ ok tt)) where
    start_segment-Still : (b : ℕ) (p : Instance I) → Stopped a p → Still (start_segment hook b p)
    unfolding start_segment
    start_segment-Still b p st =
        and_then-Still (serve (service_start (hook b)) b p)
          (λ _. serve (service_await_live (hook b)) b)
          (serve-Still (service_start (hook b)) (service_start-level (hook b))
            (λ s. service_start-NoThrow (hook b) s (good b).0) b p st)
          λ p st.
            serve-Still (service_await_live (hook b)) (service_await_live-level (hook b))
              (λ s. service_await_live-NoThrow (hook b) s (good b).1) b p st

    starts-Still :
        (ks : List ℕ) (p : Instance I) → Stopped a p → Still (for_each (start_segment hook) ks p)
    unfolding for_each
    starts-Still [] p st = (inl refl, st)
    starts-Still (k ∷ ks) p st =
        and_then-Still (start_segment hook k p) (λ _. for_each (start_segment hook) ks)
          (start_segment-Still k p st) (starts-Still ks)

    pub resume-Still : (p : Instance I) → Stopped a p → Still (resume hook p)
    unfolding resume mark_joinable
    resume-Still p st =
        and_then-Still (for_each (start_segment hook) (keys p.segments) p) (λ _. mark_joinable)
          (starts-Still (keys p.segments) p st) λ p (s, f, l). (inl refl, (s, f, l))
