-- ===== src/Instances/Settling.antt =====
-- The loops over the ports of a new segment settle its ports.
use srf.Base.{
  ℕ, ◌≡◌, refl, sym, ap, ◌∙◌, true, false, List, [], ◌∷◌, none, some, Text, text_key, nat_key, ok,
  ok-injective, contains, not-contains_iff, All, All-weaken, All-both, All-contains, Distinct,
  Distinct-left, Distinct-right, Distinct-disjoint, ◌>>◌, inl, inr, arith,
}
use srf.Base.Map.{Map, find, All-find, find-none, contains-find}
use srf.Manifold.{Manifold, make_manifold}
use srf.Segment.{port_names, Definition, egress_port_names, ingress_port_names}
use srf.Instances.{Segment, segment_address, create_manifold, configure_all}
use srf.Instances.Attaching.{Named, Origin, Configured-every}
use srf.Instances.Wiring.{queue}
use srf.Instances.Turns.{
  port_of, egress_of, ingress_of, EgressReady, IngressReady, connect, egress-turn, egress-tail,
  ingress-turn, create-egress, create-ingress,
}
use srf.Instances.Consistency.{
  IsSettled, destinations, make_manifold-IsSettled, IsSettled-weaken, not-known, add-input,
  add-output,
}

-- The ports of a definition carry the types of their names.
abbrev pub FitsTypes : {I : Type 0} → (I → ℕ) → (Text → ℕ) → Definition I → Type 0
FitsTypes {I} type_of types d =
    ((n : Text) (i : I) → find n d.egress_initializers ≡ some i → type_of i ≡ types n)
    × ((n : Text) (i : I) → find n d.ingress_initializers ≡ some i → type_of i ≡ types n)

module _ {I : Type 0} (type_of : I → ℕ) (types : Text → ℕ) (s₀ : Segment I) (seen : List ℕ)
    (fits : FitsTypes type_of types s₀.definition) where
  -- The manifold of a name, wherever it comes from.
  Origin-IsSettled :
      (seen : List ℕ) (name : Text) (s : Segment I) (ms : Map Text Manifold) (m : Manifold) (i : I)
      → Origin type_of name s ms m
      → All (λ e. IsSettled types seen e.0 e.1) ms
      → create_manifold type_of name s ≡ ok (make_manifold name (type_of i))
      → type_of i ≡ types name
      → IsSettled types seen name m
  Origin-IsSettled seen name s ms m i o h c e = elim o [
    | inl found ↦ All-find (λ e. IsSettled types seen e.0 e.1) name m ms h found
    | inr (type, made, same) ↦
        let t : type ≡ type_of i =
          ap (λ m. m.data_type)
            (ok-injective (make_manifold name type) (make_manifold name (type_of i))
              (sym made ∙ c)) in
        rw same (make_manifold-IsSettled types seen name type (t ∙ e))
  ]

  record Settles (names : List Text) (s : Segment I) (ms : Map Text Manifold)
      (Ready : Segment I → Type 0) (P : Text × Manifold → Type 0) : Type 0 where
    segment : Segment I
    manifolds : Map Text Manifold
    settles : configure_all type_of names (s, ms) ≡ (ok tt, (segment, manifolds))
    ready : Ready segment
    all_named : Named manifolds
    every : All P manifolds

  egress-Settles :
      (names : List Text) (s : Segment I) (ms : Map Text Manifold)
      → Distinct names
      → EgressReady type_of s₀ names s
      → Named ms
      → All (λ e. IsSettled types seen e.0 e.1) ms
      → Settles names s ms (EgressReady type_of s₀ []) (λ e. IsSettled types seen e.0 e.1)
  unfolding configure_all
  egress-Settles [] s ms d r n h = record {
    segment = s;
    manifolds = ms;
    settles = refl;
    ready = r;
    all_named = n;
    every = h;
  }
  egress-Settles (name ∷ names) s ms (d, ds) r n h =
      let c = egress-turn type_of s₀ name names s ms r n in
      let i = contains-find name s₀.definition.egress_initializers (r.2).0.1 in
      let e = fits.0 name i.0 i.1 in
      let there = ap (λ d. find name d.egress_initializers) r.0 ∙ i.1 in
      let first =
        Origin-IsSettled seen name s ms c.manifold i.0 c.origin h
          (create-egress type_of name s i.0 there) e in
      let next =
        Configured-every type_of (λ e. IsSettled types seen e.0 e.1) name s
          (connect type_of s₀ name s) ms (queue (port_of type_of s₀ (egress_of type_of s₀ name)) [])
          c h first (rw i.1 (add-input types seen name (c.manifold) _ e first)) in
      let rest =
        egress-Settles names (connect type_of s₀ name s) (c.manifolds) ds
          (egress-tail type_of s₀ name names s d r) c.all_named next in
      record {
        segment = rest.segment;
        manifolds = rest.manifolds;
        settles = rw (configure_all, c.configured, rest.settles) refl;
        ready = rest.ready;
        all_named = rest.all_named;
        every = rest.every;
      }

  -- Settled with the new segment, which the ports of `names` do not send to yet.
  abbrev Waits : List Text → Text × Manifold → Type 0
  Waits names e =
      IsSettled types (segment_address s₀ ∷ seen) e.0 e.1
      × (contains e.0 names ≡ true → contains (segment_address s₀) (destinations e.1) ≡ false)

  Origin-fresh :
      (name : Text) (names : List Text) (s : Segment I) (ms : Map Text Manifold) (m : Manifold)
      → Origin type_of name s ms m
      → All (Waits (name ∷ names)) ms
      → contains (segment_address s₀) (destinations m) ≡ false
  unfolding contains
  Origin-fresh name names s ms m o h = elim o [
    | inl found ↦
        (All-find (Waits (name ∷ names)) name m ms h found).1
          (ground (arith, (text_key.beq_iff name name).1 refl))
    | inr (type, made, same) ↦ rw same refl
  ]

  ingress-Settles :
      (names : List Text) (s : Segment I) (ms : Map Text Manifold)
      → Distinct names
      → IngressReady type_of s₀ names s
      → Named ms
      → All (Waits names) ms
      → Settles names s ms (IngressReady type_of s₀ []) (Waits [])
  unfolding configure_all contains
  ingress-Settles [] s ms d r n h = record {
    segment = s;
    manifolds = ms;
    settles = refl;
    ready = r;
    all_named = n;
    every = h;
  }
  ingress-Settles (name ∷ names) s ms (d, ds) r n h =
      let a = segment_address s₀ in
      let c = ingress-turn type_of s₀ name names s ms r n in
      let i = contains-find name s₀.definition.ingress_initializers (r.2).0.1 in
      let e = fits.1 name i.0 i.1 in
      let none_out = ap (λ d. find name d.egress_initializers) r.0 ∙ (r.2).0.0 in
      let there = ap (λ d. find name d.ingress_initializers) r.0 ∙ i.1 in
      let settled =
        Origin-IsSettled (a ∷ seen) name s ms c.manifold i.0 c.origin (All-weaken ms (λ e w. w.0) h)
          (create-ingress type_of name s i.0 none_out there) e in
      let fresh = Origin-fresh name names s ms c.manifold c.origin h in
      let apart : contains name names ≡ false = (not-contains_iff name names).1 d in
      let next =
        Configured-every type_of (Waits names) name s s ms
          (queue [] (port_of type_of s₀ (ingress_of type_of s₀ name))) c
          (All-weaken ms (λ e w. (w.0, λ k. w.1 (ground (arith, k)))) h) (settled, λ k. fresh)
          (
            rw i.1 (add-output types a seen name (c.manifold) _ e refl fresh settled),
            λ k. absurd cc (k, apart),
          ) in
      let rest = ingress-Settles names s (c.manifolds) ds (r.0, r.1, (r.2).1) c.all_named next in
      record {
        segment = rest.segment;
        manifolds = rest.manifolds;
        settles = rw (configure_all, c.configured, rest.settles) refl;
        ready = rest.ready;
        all_named = rest.all_named;
        every = rest.every;
      }

  -- Both loops, for a segment that is none of those that the manifolds know.
  pub wire-IsSettled :
      (ms : Map Text Manifold)
      → Distinct (port_names s₀.definition)
      → s₀.connected ≡ []
      → contains (segment_address s₀) seen ≡ false
      → Named ms
      → All (λ e. IsSettled types seen e.0 e.1) ms
      → (s' : Segment I) × (ms' : Map Text Manifold) × ((configure_all type_of
                (egress_port_names s₀.definition)
              >> configure_all type_of (ingress_port_names s₀.definition))
            (s₀, ms)
          ≡ (ok tt, (s', ms')))
        × All (λ e. IsSettled types (segment_address s₀ ∷ seen) e.0 e.1) ms'
  unfolding contains
  wire-IsSettled ms d c new n h =
      let a = segment_address s₀ in
      let ingress = ingress_port_names s₀.definition in
      let egress = egress_port_names s₀.definition in
      let out =
        egress-Settles egress s₀ ms (Distinct-right ingress egress d)
          (
            refl,
            (refl, (refl, λ n k out. absurd cc (k, out))),
            All-weaken egress (λ n k. (ap (contains n) c, k)) (All-contains egress),
          )
          n h in
      let into =
        ingress-Settles ingress (out.segment) (out.manifolds) (Distinct-left ingress egress d)
          (
            (out.ready).0,
            (out.ready).1,
            All-both (λ n. egress_of type_of s₀ n ≡ none) (λ n. contains n ingress ≡ true) ingress
                (All-weaken ingress (λ n k. find-none n s₀.definition.egress_initializers k)
                  (Distinct-disjoint ingress egress d))
                (All-contains ingress),
          )
          out.all_named
          (All-weaken (out.manifolds)
            (λ e s. (
              IsSettled-weaken types a seen e.0 e.1 s,
              λ k. not-known a seen (destinations e.1) new s.known,
            ))
            out.every) in
      (
        into.segment,
        into.manifolds,
        rw out.settles into.settles,
        All-weaken (into.manifolds) (λ e w. w.0) into.every,
      )
