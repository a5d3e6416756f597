-- ===== src/SegmentService/Starting.antt =====
-- The start of a segment launches all of its runners or none.
use srf.Base.{
  ◌≡◌, ◌≢◌, refl, sym, ap, ◌∙◌, true, false, List, [], ◌∷◌, some, Text, text_key, Outcome, ok,
  throws, fatal, M, and_then, ◌>>◌, All, Distinct, contains, if◌then◌else◌, Bool-cases, inl, inr,
  arith, ◌⊎◌,
}
use srf.Base.Map.{find}
use srf.SegmentService.{
  Part, egress, node, ingress, Running, runners_of, names_of, ignited, ignite, ignite_all,
  prepare_all, do_service_start,
}
use srf.SegmentService.Runners.{find-ignite, find-ignite-same}
use srf.SegmentService.Preparing.{
  IsKept, IsKept-trans, IsKept-runners, and_then-ok, and_then-IsKept, carry_back, carry_on,
  prepare_all-cases, IsPrepared, prepare_all-ok,
}

find-ignite_all-apart :
    (p q : Part) (m : Text) (ns : List Text) (s : Running)
    → (p ≡ q → contains m ns ≡ false)
    → find m (runners_of q (ignite_all p ns s)) ≡ find m (runners_of q s)
unfolding ignite_all contains
find-ignite_all-apart p q m [] s h = refl
find-ignite_all-apart p q m (n ∷ ns) s h =
    find-ignite_all-apart p q m ns (ignite p n s) (λ e. ground (arith, h e))
    ∙ find-ignite p q n m s λ (e, f). ground (arith, h e, (text_key.beq_iff n m).1 f)

find-ignite_all :
    (p : Part) (m : Text) (ns : List Text) (s : Running)
    → contains m ns ≡ true
    → find m (runners_of p (ignite_all p ns s)) ≡ some ignited
unfolding ignite_all contains
find-ignite_all p m [] s h = absurd cc
find-ignite_all p m (n ∷ ns) s h = elim (Bool-cases (contains m ns)) [
  | inl later ↦ find-ignite_all p m ns (ignite p n s) later
  | inr last ↦
      find-ignite_all-apart p p m ns (ignite p n s) (λ _. last)
      ∙ ap (λ k. find k (runners_of p (ignite p n s)))
          (sym ((text_key.beq_iff n m).0 (ground (arith, h, last))))
      ∙ find-ignite-same p n s
]

-- The launches, after the preparations.
abbrev launched_all : Running → Running → Running
launched_all s t =
    ignite_all ingress (names_of ingress s)
      (ignite_all node (names_of node s) (ignite_all egress (names_of egress s) t))

launched_all-find :
    (s t : Running) (p : Part) (n : Text)
    → IsKept s t
    → find n (runners_of p (launched_all s t))
      ≡ (if contains n (names_of p s) then some ignited else find n (runners_of p s))
launched_all-find s t p n k = elim (Bool-cases (contains n (names_of p s))) [
  | inl this ↦ rw this (here p this)
  | inr other ↦ rw other (there p other)
]
  where
    here :
        (p : Part)
        → contains n (names_of p s) ≡ true
        → find n (runners_of p (launched_all s t)) ≡ some ignited
    here egress h =
        find-ignite_all-apart ingress egress n (names_of ingress s) _ (λ e. absurd cc)
        ∙ find-ignite_all-apart node egress n (names_of node s) _ (λ e. absurd cc)
        ∙ find-ignite_all egress n (names_of egress s) t h
    here node h =
        find-ignite_all-apart ingress node n (names_of ingress s) _ (λ e. absurd cc)
        ∙ find-ignite_all node n (names_of node s) _ h
    here ingress h = find-ignite_all ingress n (names_of ingress s) _ h

    there :
        (p : Part)
        → contains n (names_of p s) ≡ false
        → find n (runners_of p (launched_all s t)) ≡ find n (runners_of p s)
    there p h =
        let free : (q : Part) → q ≡ p → contains n (names_of q s) ≡ false =
          λ q e. ap (λ q. contains n (names_of q s)) e ∙ h in
        find-ignite_all-apart ingress p n (names_of ingress s) _ (free ingress)
        ∙ find-ignite_all-apart node p n (names_of node s) _ (free node)
        ∙ find-ignite_all-apart egress p n (names_of egress s) t (free egress)
        ∙ ap (find n) (IsKept-runners p k)

module _ (launch_control : Part → Text → Outcome (Unit {0})) where
  abbrev prepared : Running → M Running (Unit {0})
  prepared s =
      prepare_all launch_control node (names_of node s)
      >> prepare_all launch_control egress (names_of egress s)
      >> prepare_all launch_control ingress (names_of ingress s)

  preparation-IsKept :
      (s : Running)
      → IsKept s (prepared s s).1
        × ((prepared s s).0 ≡ ok tt
            → (p : Part) → All (IsPrepared launch_control s p) (names_of p s))
  preparation-IsKept s =
      let first = prepare_all launch_control node (names_of node s) in
      let second = prepare_all launch_control egress (names_of egress s) in
      let third = prepare_all launch_control ingress (names_of ingress s) in
      let pass : (p : Part)
          → (t : Running) → IsKept s t
          → IsKept t (prepare_all launch_control p (names_of p s) t).1
            × ((prepare_all launch_control p (names_of p s) t).0 ≡ ok tt
                → All (IsPrepared launch_control s p) (names_of p s)) =
        λ p t k.
          let r = prepare_all-cases launch_control p (names_of p s) t in
          (r.0, λ e. carry_back launch_control s t p (names_of p s) k (r.1 e)) in
      let two =
        and_then-IsKept s (first s) second
          (prepare_all-cases launch_control node (names_of node s) s) (pass egress) in
      let three = and_then-IsKept s (and_then (first s) λ _. second) third two (pass ingress) in
      (three.0, λ e p. each p (three.1 e))
    where
      each :
          (p : Part)
          → (All (IsPrepared launch_control s node) (names_of node s)
              × All (IsPrepared launch_control s egress) (names_of egress s))
            × All (IsPrepared launch_control s ingress) (names_of ingress s)
          → All (IsPrepared launch_control s p) (names_of p s)
      each egress ((a, b), c) = b
      each node ((a, b), c) = a
      each ingress ((a, b), c) = c

  -- The start of a segment returns only if every egress port has its manifold and every launcher could be prepared,
  -- and has then launched a runner for each port and node of the builder, and no other. If it does not return, it has
  -- launched none.
  pub do_service_start-every_or_none :
      (s : Running)
      → (((do_service_start launch_control s).0 ≡ ok tt)
          × ((p : Part) → All (IsPrepared launch_control s p) (names_of p s))
          × ((p : Part) (n : Text)
              → find n (runners_of p (do_service_start launch_control s).1)
                ≡ (if contains n (names_of p s) then some ignited else find n (runners_of p s))))
        ⊎ (((do_service_start launch_control s).0 ≢ ok tt)
            × ((p : Part) (n : Text)
                → find n (runners_of p (do_service_start launch_control s).1)
                  ≡ find n (runners_of p s)))
  unfolding do_service_start
  do_service_start-every_or_none s = go (prepared s s) (preparation-IsKept s)
    where
      go :
          (r : Outcome (Unit {0}) × Running)
          → IsKept s r.1
            × (r.0 ≡ ok tt → (p : Part) → All (IsPrepared launch_control s p) (names_of p s))
          → (((and_then r λ _ t. (ok tt, launched_all s t)).0 ≡ ok tt)
              × ((p : Part) → All (IsPrepared launch_control s p) (names_of p s))
              × ((p : Part) (n : Text)
                  → find n (runners_of p (and_then r λ _ t. (ok tt, launched_all s t)).1) ≡ (
                      if contains n (names_of p s) then some ignited else find n (runners_of p s))))
            ⊎ (((and_then r λ _ t. (ok tt, launched_all s t)).0 ≢ ok tt)
                × ((p : Part) (n : Text)
                    → find n (runners_of p (and_then r λ _ t. (ok tt, launched_all s t)).1)
                      ≡ find n (runners_of p s)))
      go (ok _, t) (k, h) = inl (refl, h refl, λ p n. launched_all-find s t p n k)
      go (throws x, t) (k, h) = inr ((λ e. absurd cc), λ p n. ap (find n) (IsKept-runners p k))
      go (fatal, t) (k, h) = inr ((λ e. absurd cc), λ p n. ap (find n) (IsKept-runners p k))

  -- A segment whose runnables are all there, whose egress ports have their manifolds and whose launchers can be
  -- prepared is started: the start does not fail.
  pub do_service_start-returns :
      (s : Running)
      → ((p : Part) → s.taken p ≡ [])
      → ((p : Part) → Distinct (names_of p s))
      → ((p : Part) → All (IsPrepared launch_control s p) (names_of p s))
      → (do_service_start launch_control s).0 ≡ ok tt
  unfolding do_service_start contains
  do_service_start-returns s t d h =
      let first = prepare_all launch_control node (names_of node s) in
      let second = prepare_all launch_control egress (names_of egress s) in
      let third = prepare_all launch_control ingress (names_of ingress s) in
      let s1 = (first s).1 in
      let k1 = (prepare_all-cases launch_control node (names_of node s) s).0 in
      let a =
        prepare_all-ok launch_control node (names_of node s) s (d node) (fresh node s (t node))
          (h node) in
      let s2 = (second s1).1 in
      let k2 = (prepare_all-cases launch_control egress (names_of egress s) s1).0 in
      let b =
        prepare_all-ok launch_control egress (names_of egress s) s1 (d egress)
          (fresh egress s1 (a.1 egress refl ∙ t egress))
          (carry_on launch_control s s1 egress (names_of egress s) k1 (h egress)) in
      let c =
        prepare_all-ok launch_control ingress (names_of ingress s) s2 (d ingress)
          (fresh ingress s2 (b.1 ingress refl ∙ a.1 ingress refl ∙ t ingress))
          (carry_on launch_control s s2 ingress (names_of ingress s) (IsKept-trans k1 k2)
            (h ingress)) in
      let two = and_then-ok (first s) second a.0 b.0 in
      let three = and_then-ok (and_then (first s) λ _. second) third two.0 (rw two.1 c.0) in
      (and_then-ok (prepared s s) (λ t. (ok tt, launched_all s t)) three.0 refl).0
    where
      nothing : (ns : List Text) → All (λ n. contains {K = Text} n [] ≡ false) ns
      nothing [] = tt
      nothing (n ∷ ns) = (refl, nothing ns)

      fresh :
          (p : Part) (u : Running)
          → u.taken p ≡ []
          → All (λ n. contains n (u.taken p) ≡ false) (names_of p s)
      fresh p u e = rw e (nothing (names_of p s))
