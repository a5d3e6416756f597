-- ===== src/SegmentService/Preparing.antt =====
-- The preparation of the launchers of a segment.
use srf.Base.{
  ◌≡◌, ◌≢◌, refl, sym, ◌∙◌, true, false, List, [], ◌∷◌, Text, text_key, Outcome, ok, throws, fatal,
  M, and_then, All, All-weaken, Distinct, contains, ◌=?=◌, Bool-cases, inl, inr,
}
use srf.SegmentService.{
  Part, egress, node, ingress, same, Running, runners_of, prepare_launcher, prepare_all,
  take_runnable, is_ready,
}

-- What the preparations of launchers keep.
pub record IsKept (s t : Running) : Type 0 where
  pub builder : t.builder ≡ s.builder
  pub connected : t.connected ≡ s.connected
  pub egress_runners : t.egress_runners ≡ s.egress_runners
  pub runners : t.runners ≡ s.runners
  pub ingress_runners : t.ingress_runners ≡ s.ingress_runners

IsKept-refl : (s : Running) → IsKept s s
IsKept-refl s = record {
  builder = refl;
  connected = refl;
  egress_runners = refl;
  runners = refl;
  ingress_runners = refl;
}

pub IsKept-trans : {s t u : Running} → IsKept s t → IsKept t u → IsKept s u
IsKept-trans h k = record {
  builder = k.builder ∙ h.builder;
  connected = k.connected ∙ h.connected;
  egress_runners = k.egress_runners ∙ h.egress_runners;
  runners = k.runners ∙ h.runners;
  ingress_runners = k.ingress_runners ∙ h.ingress_runners;
}

pub IsKept-runners : {s t : Running} (p : Part) → IsKept s t → runners_of p t ≡ runners_of p s
IsKept-runners egress k = k.egress_runners
IsKept-runners node k = k.runners
IsKept-runners ingress k = k.ingress_runners

take_runnable-IsKept : (p : Part) (n : Text) (s : Running) → IsKept s (take_runnable p n s)
unfolding take_runnable
take_runnable-IsKept p n s = record {
  builder = refl;
  connected = refl;
  egress_runners = refl;
  runners = refl;
  ingress_runners = refl;
}

is_ready-kept : (p : Part) (n : Text) (s t : Running) → IsKept s t → is_ready p n t ≡ is_ready p n s
is_ready-kept egress n s t k = rw (k.connected) refl
is_ready-kept node n s t k = refl
is_ready-kept ingress n s t k = refl

pub and_then-IsKept :
    {P Q : Type 0} (s : Running) (r : Outcome (Unit {0}) × Running) (m : M Running (Unit {0}))
    → IsKept s r.1 × (r.0 ≡ ok tt → P)
    → ((t : Running) → IsKept s t → IsKept t (m t).1 × ((m t).0 ≡ ok tt → Q))
    → IsKept s (and_then r λ _. m).1 × ((and_then r λ _. m).0 ≡ ok tt → P × Q)
and_then-IsKept s (ok _, t) m (k, h) rest =
    (IsKept-trans k (rest t k).0, λ e. (h refl, (rest t k).1 e))
and_then-IsKept s (throws x, t) m (k, h) rest = (k, λ e. absurd cc)
and_then-IsKept s (fatal, t) m (k, h) rest = (k, λ e. absurd cc)

-- Two parts that return, one after the other.
pub and_then-ok :
    (r : Outcome (Unit {0}) × Running) (m : M Running (Unit {0}))
    → r.0 ≡ ok tt
    → (m r.1).0 ≡ ok tt
    → ((and_then r λ _. m).0 ≡ ok tt) × ((and_then r λ _. m).1 ≡ (m r.1).1)
and_then-ok (ok _, t) m h k = (k, refl)
and_then-ok (throws x, t) m h k = absurd cc
and_then-ok (fatal, t) m h k = absurd cc

module _ (launch_control : Part → Text → Outcome (Unit {0})) where
  -- What a port or node needs to be launched.
  abbrev pub IsPrepared : Running → Part → Text → Type 0
  IsPrepared s p n = (launch_control p n ≡ ok tt) × (is_ready p n s ≡ true)

  pub carry_back :
      (s t : Running) (p : Part) (ns : List Text)
      → IsKept s t
      → All (IsPrepared t p) ns
      → All (IsPrepared s p) ns
  carry_back s t p ns k = All-weaken ns λ m (a, b). (a, sym (is_ready-kept p m s t k) ∙ b)

  pub carry_on :
      (s t : Running) (p : Part) (ns : List Text)
      → IsKept s t
      → All (IsPrepared s p) ns
      → All (IsPrepared t p) ns
  carry_on s t p ns k = All-weaken ns λ m (a, b). (a, is_ready-kept p m s t k ∙ b)

  prepare_launcher-cases :
      (p : Part) (n : Text) (s : Running)
      → IsKept s (prepare_launcher launch_control p n s).1
        × ((prepare_launcher launch_control p n s).0 ≡ ok tt → IsPrepared s p n)
  unfolding prepare_launcher
  prepare_launcher-cases p n s = elim (Bool-cases (contains n (s.taken p))) [
    | inl taken ↦ rw taken (IsKept-refl s, λ e. absurd cc)
    | inr held ↦ elim (Bool-cases (is_ready p n s)) [
      | inl ready ↦ rw (held, ready) (take_runnable-IsKept p n s, λ e. (e, refl))
      | inr not_ready ↦ rw (held, not_ready) (IsKept-refl s, λ e. absurd cc)
    ]
  ]

  pub prepare_all-cases :
      (p : Part) (ns : List Text) (s : Running)
      → IsKept s (prepare_all launch_control p ns s).1
        × ((prepare_all launch_control p ns s).0 ≡ ok tt → All (IsPrepared s p) ns)
  unfolding prepare_all
  prepare_all-cases p [] s = (IsKept-refl s, λ e. tt)
  prepare_all-cases p (n ∷ ns) s =
      and_then-IsKept s (prepare_launcher launch_control p n s) (prepare_all launch_control p ns)
        (prepare_launcher-cases p n s)
        λ t k.
          let rest = prepare_all-cases p ns t in (rest.0, λ e. carry_back s t p ns k (rest.1 e))

  take_runnable-there :
      (p q : Part) (n : Text) (s : Running)
      → same p q ≡ false
      → (take_runnable p n s).taken q ≡ s.taken q
  unfolding take_runnable
  take_runnable-there p q n s e = rw e refl

  take_runnable-here :
      (p : Part) (n m : Text) (s : Running)
      → n ≢ m
      → contains m (s.taken p) ≡ false
      → contains m ((take_runnable p n s).taken p) ≡ false
  unfolding take_runnable contains
  take_runnable-here p n m s d h = rw (same_refl p) (go d h)
    where
      go : n ≢ m → contains m (s.taken p) ≡ false → contains m (n ∷ s.taken p) ≡ false
      go d h = elim (Bool-cases (n =?= m)) [
        | inl this ↦ absurd (d ((text_key.beq_iff n m).0 this))
        | inr other ↦ rw other h
      ]

      same_refl : (p : Part) → same p p ≡ true
      same_refl egress = refl
      same_refl node = refl
      same_refl ingress = refl

  prepare_launcher-ok :
      (p : Part) (n : Text) (s : Running)
      → contains n (s.taken p) ≡ false
      → IsPrepared s p n
      → prepare_launcher launch_control p n s ≡ (ok tt, take_runnable p n s)
  unfolding prepare_launcher
  prepare_launcher-ok p n s held (good, ready) = rw (held, ready, good) refl

  -- Runnables that are there, under different names, can all be prepared, and those of the other parts stay.
  pub prepare_all-ok :
      (p : Part) (ns : List Text) (s : Running)
      → Distinct ns
      → All (λ n. contains n (s.taken p) ≡ false) ns
      → All (IsPrepared s p) ns
      → ((prepare_all launch_control p ns s).0 ≡ ok tt)
        × ((q : Part)
            → same p q ≡ false
            → (prepare_all launch_control p ns s).1.taken q ≡ s.taken q)
  unfolding prepare_all
  prepare_all-ok p [] s d held h = (refl, λ q e. refl)
  prepare_all-ok p (n ∷ ns) s (d, ds) (held, helds) (h, hs) =
      let t = take_runnable p n s in
      let first = prepare_launcher-ok p n s held h in
      let k = take_runnable-IsKept p n s in
      let rest = prepare_all-ok p ns t ds (still_held ns d helds) (carry_on s t p ns k hs) in
      (rw first rest.0, λ q e. rw first (rest.1 q e ∙ take_runnable-there p q n s e))
    where
      still_held :
          (ms : List Text)
          → All (λ m. n ≢ m) ms
          → All (λ m. contains m (s.taken p) ≡ false) ms
          → All (λ m. contains m ((take_runnable p n s).taken p) ≡ false) ms
      still_held [] d h = tt
      still_held (m ∷ ms) (d, ds) (h, hs) = (take_runnable-here p n m s d h, still_held ms ds hs)
