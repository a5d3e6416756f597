-- ===== src/Instances/Starting.antt =====
-- The start of the segments of an instance.
use srf.Base.{
  ℕ, ◌≡◌, ◌≤◌, refl, sym, ap, ◌∙◌, true, false, List, [], ◌∷◌, some, nat_key, text_key, Outcome, ok,
  and_then, M, All, All-weaken, Bool-cases, inl, inr, arith, ◌=?=◌, some-injective, ==_iff, leb,
  ltb,
}
use srf.Base.Map.{find, insert, insert-here, insert-there}
use srf.Service.{
  Service, ServiceState, Hook, initialized, running, awaiting, stopping, killing, completed, level,
  service_start, service_await_live,
}
use srf.Instances.{Segment, Instance, serve, start_segment, for_each}

service_start-running :
    (hook : Hook → Outcome (Unit {0})) (v : Service)
    → hook Hook.start ≡ ok tt
    → level v.state ≤ level running
    → ((service_start hook v).0 ≡ ok tt) × ((service_start hook v).1.state ≡ running)
unfolding service_start
service_start-running hook v h l =
    let passes : leb (level v.state) 1 ≡ true = ground arith in
    elim (Bool-cases (ltb (level v.state) 1)) [
      | inl new ↦ rw (passes, new) (h, refl)
      | inr old ↦ rw (passes, old) (refl, is_running v.state l old)
    ]
  where
    is_running :
        (state : ServiceState)
        → level state ≤ level running
        → ltb (level state) 1 ≡ false
        → state ≡ running
    is_running initialized l h = absurd cc
    is_running running l h = refl
    is_running awaiting l h = absurd omega arith
    is_running stopping l h = absurd omega arith
    is_running killing l h = absurd omega arith
    is_running completed l h = absurd omega arith

service_await_live-kept :
    (hook : Hook → Outcome (Unit {0})) (v : Service)
    → hook Hook.await_live ≡ ok tt
    → ((service_await_live hook v).0 ≡ ok tt) × ((service_await_live hook v).1.state ≡ v.state)
unfolding service_await_live
service_await_live-kept hook v h = (h, refl)

-- A segment whose service is another.
abbrev with_service : {I : Type 0} → Segment I → Service → Segment I
with_service s v = record s { service = v }

module _ {I : Type 0} where
  serve-found :
      (act : M Service (Unit {0})) (a : ℕ) (p : Instance I) (s : Segment I)
      → find a p.segments ≡ some s
      → (act s.service).0 ≡ ok tt
      → serve act a p
        ≡ (ok tt, record p { segments = insert a (with_service s (act s.service).1) p.segments })
  unfolding serve
  serve-found act a p s f h = rw (serve, f, h) refl

  -- A segment that is there, and runs.
  abbrev pub Live : Instance I → ℕ → Type 0
  Live p a = (s : Segment I) × (find a p.segments ≡ some s) × (s.service.state ≡ running)

  -- The same segment, which runs if the first did, and can be started.
  pub record Follows (s s' : Segment I) : Type 0 where
    pub same_definition : s'.definition ≡ s.definition
    pub same_rank : s'.rank ≡ s.rank
    pub same_partition : s'.partition_id ≡ s.partition_id
    pub startable : level s.service.state ≤ level running → level s'.service.state ≤ level running
    pub still_running : s.service.state ≡ running → s'.service.state ≡ running

  pub Follows-refl : (s : Segment I) → Follows s s
  Follows-refl s = record {
    same_definition = refl;
    same_rank = refl;
    same_partition = refl;
    startable = λ h. h;
    still_running = λ h. h;
  }

  pub Follows-trans : {s t u : Segment I} → Follows s t → Follows t u → Follows s u
  Follows-trans h k = record {
    same_definition = k.same_definition ∙ h.same_definition;
    same_rank = k.same_rank ∙ h.same_rank;
    same_partition = k.same_partition ∙ h.same_partition;
    startable = λ l. k.startable (h.startable l);
    still_running = λ l. k.still_running (h.still_running l);
  }

  Follows-running : (s : Segment I) (v : Service) → v.state ≡ running → Follows s (with_service s v)
  Follows-running s v e = record {
    same_definition = refl;
    same_rank = refl;
    same_partition = refl;
    startable = λ l. rw e (omega arith);
    still_running = λ h. e;
  }

  -- Every segment is there afterwards.
  abbrev pub Kept : Instance I → Instance I → Type 0
  Kept p q =
      (a : ℕ) (s : Segment I)
      → find a p.segments ≡ some s
      → (s' : Segment I) × (find a q.segments ≡ some s') × Follows s s'

  -- Every segment is new or runs.
  abbrev pub Startable : Instance I → Type 0
  Startable p =
      (a : ℕ) (s : Segment I) → find a p.segments ≡ some s → level s.service.state ≤ level running

  insert-Kept :
      (b : ℕ) (t : Segment I) (v : Service) (p : Instance I)
      → find b p.segments ≡ some t
      → v.state ≡ running
      → Kept p (record p { segments = insert b (with_service t v) p.segments })
  insert-Kept b t v p f e a s g = elim (Bool-cases (b =?= a)) [
    | inl this ↦ (
      with_service t v,
      ap (λ k. find k (insert b (with_service t v) p.segments)) (sym ((==_iff b a).0 this))
          ∙ insert-here b (with_service t v) p.segments,
      rw (sym (some-injective t s (sym f ∙ ap (λ k. find k p.segments) ((==_iff b a).0 this) ∙ g)))
          (Follows-running t v e),
    )
    | inr other ↦ (s, insert-there b a (with_service t v) p.segments other ∙ g, Follows-refl s)
  ]

  insert-Startable :
      (b : ℕ) (t : Segment I) (v : Service) (p : Instance I)
      → v.state ≡ running
      → Startable p
      → Startable (record p { segments = insert b (with_service t v) p.segments })
  insert-Startable b t v p e h a s g = elim (Bool-cases (b =?= a)) [
    | inl this ↦
        let at : find a (insert b (with_service t v) p.segments) ≡ some (with_service t v) =
          ap (λ k. find k (insert b (with_service t v) p.segments)) (sym ((==_iff b a).0 this))
          ∙ insert-here b (with_service t v) p.segments in
        let state : s.service.state ≡ running =
          sym (ap (λ s. s.service.state) (some-injective (with_service t v) s (sym at ∙ g))) ∙ e in
        rw state (omega arith)
    | inr other ↦ h a s (sym (insert-there b a (with_service t v) p.segments other) ∙ g)
  ]

  pub Kept-trans : (p q r : Instance I) → Kept p q → Kept q r → Kept p r
  Kept-trans p q r h k a s f =
      let t = h a s f in let u = k a t.0 t.1 in (u.0, u.1, Follows-trans t.2 u.2)

  Kept-Live : (p q : Instance I) (a : ℕ) → Kept p q → Live p a → Live q a
  Kept-Live p q a k (s, f, e) = let t = k a s f in (t.0, t.1, (t.2).still_running e)

-- What a loop that starts segments comes to.
pub record Starts {I : Type 0} (r : Outcome (Unit {0}) × Instance I) (p : Instance I) (ks : List ℕ)
    : Type 0 where
  pub next : Instance I
  pub starts : r ≡ (ok tt, next)
  pub manifolds : next.manifolds ≡ p.manifolds
  pub kept : Kept p next
  pub startable : Startable next
  pub live : All (Live next) ks

module _ {I : Type 0} (hook : ℕ → Hook → Outcome (Unit {0}))
    (good : (a : ℕ) → (hook a Hook.start ≡ ok tt) × (hook a Hook.await_live ≡ ok tt)) where
  start_segment-Starts :
      (a : ℕ) (p : Instance I) (s : Segment I)
      → find a p.segments ≡ some s
      → Startable p
      → Starts (start_segment hook a p) p (a ∷ [])
  unfolding start_segment
  start_segment-Starts a p s f h =
      let one = service_start-running (hook a) s.service (good a).0 (h a s f) in
      let v = (service_start (hook a) s.service).1 in
      let q : Instance I = record p { segments = insert a (with_service s v) p.segments } in
      let here = insert-here a (with_service s v) p.segments in
      let two = service_await_live-kept (hook a) v (good a).1 in
      let w = (service_await_live (hook a) v).1 in
      let runs : w.state ≡ running = two.1 ∙ one.1 in
      let r : Instance I = record q {
        segments = insert a (with_service (with_service s v) w) q.segments;
      } in
      let last = insert-here a (with_service (with_service s v) w) q.segments in
      record {
        next = r;
        starts =
            ap (λ r. and_then r λ _. serve (service_await_live (hook a)) a)
              (serve-found (service_start (hook a)) a p s f one.0)
            ∙ serve-found (service_await_live (hook a)) a q (with_service s v) here two.0;
        manifolds = refl;
        kept =
            Kept-trans p q r (insert-Kept a s v p f one.1)
              (insert-Kept a (with_service s v) w q here runs);
        startable =
            insert-Startable a (with_service s v) w q runs (insert-Startable a s v p one.1 h);
        live = ((with_service (with_service s v) w, last, runs), tt);
      }

  pub for_each-Starts :
      (ks : List ℕ) (p : Instance I)
      → All (λ a. (s : Segment I) × (find a p.segments ≡ some s)) ks
      → Startable p
      → Starts (for_each (start_segment hook) ks p) p ks
  unfolding for_each
  for_each-Starts [] p f h = record {
    next = p;
    starts = refl;
    manifolds = refl;
    kept = λ a s f. (s, f, Follows-refl s);
    startable = h;
    live = tt;
  }
  for_each-Starts (a ∷ ks) p ((s, f), fs) h =
      let one = start_segment-Starts a p s f h in
      let rest =
        for_each-Starts ks (one.next)
          (All-weaken ks (λ b (t, g). let u = one.kept b t g in (u.0, u.1)) fs) one.startable in
      record {
        next = rest.next;
        starts = rw one.starts rest.starts;
        manifolds = rest.manifolds ∙ one.manifolds;
        kept = Kept-trans p (one.next) (rest.next) one.kept rest.kept;
        startable = rest.startable;
        live = (Kept-Live (one.next) (rest.next) a rest.kept (one.live).0, rest.live);
      }
