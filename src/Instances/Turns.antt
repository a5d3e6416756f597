-- ===== src/Instances/Turns.antt =====
-- The turns of the loops over the ports of a new segment.
use srf.Base.{
  ℕ, ◌≡◌, ◌≢◌, refl, sym, ap, ◌∙◌, true, false, List, [], ◌∷◌, ◌++◌, Option, none, some, Text,
  text_key, nat_key, Outcome, ok, contains, All, Bool-cases, inl, inr, ◌=?=◌, text_beq_iff,
}
use mathlib.Core.List.{append-nil}
use srf.Base.Map.{contains-find, Map, find}
use srf.Segment.{egress_port_names, ingress_port_names}
use srf.Manifold.{Manifold, Port, make_manifold, do_add_input, do_add_output}
use srf.Instances.{
  Segment, segment_address, attach_manifold, connect_egress, connect_ingress, create_manifold,
}
use srf.Instances.Attaching.{Named, Configured, turn}
use srf.Instances.Wiring.{queue}

module _ {I : Type 0} (type_of : I → ℕ) where
  attach-egress :
      (s : Segment I) (m : Manifold) (i : I)
      → find m.port_name s.definition.egress_initializers ≡ some i
      → contains m.port_name s.connected ≡ false
      → attach_manifold type_of (s, m) ≡ (
        ok tt,
        (
          record s { connected = m.port_name ∷ s.connected },
          do_add_input (record { address = segment_address s; data_type = type_of i }) m,
        ),
      )
  unfolding attach_manifold connect_egress
  attach-egress s m i f c = rw (attach_manifold, f, c) refl

  pub create-egress :
      (name : Text) (s : Segment I) (i : I)
      → find name s.definition.egress_initializers ≡ some i
      → create_manifold type_of name s ≡ ok (make_manifold name (type_of i))
  unfolding create_manifold
  create-egress name s i f = rw (create_manifold, f) refl

  pub create-ingress :
      (name : Text) (s : Segment I) (i : I)
      → find name s.definition.egress_initializers ≡ none
      → find name s.definition.ingress_initializers ≡ some i
      → create_manifold type_of name s ≡ ok (make_manifold name (type_of i))
  unfolding create_manifold
  create-ingress name s i f g = rw (create_manifold, f, g) refl

  attach-ingress :
      (s : Segment I) (m : Manifold) (i : I)
      → find m.port_name s.definition.egress_initializers ≡ none
      → find m.port_name s.definition.ingress_initializers ≡ some i
      → attach_manifold type_of (s, m) ≡ (
        ok tt,
        (s, do_add_output (record { address = segment_address s; data_type = type_of i }) m),
      )
  unfolding attach_manifold connect_ingress
  attach-ingress s m i f g = rw (attach_manifold, f, g) refl

module _ {I : Type 0} (type_of : I → ℕ) (s₀ : Segment I) where
  abbrev pub port_of : Option I → List Port
  port_of none = []
  port_of (some i) = record { address = segment_address s₀; data_type = type_of i } ∷ []

  abbrev pub egress_of : Text → Option I
  egress_of n = find n s₀.definition.egress_initializers

  abbrev pub ingress_of : Text → Option I
  ingress_of n = find n s₀.definition.ingress_initializers

  abbrev pub connect : Text → Segment I → Segment I
  connect name s = record s { connected = name ∷ s.connected }

  -- The egress ports but those of `names` are connected.
  abbrev pub Reached : List Text → Segment I → Type 0
  Reached names s =
      (n : Text)
      → contains n (egress_port_names s₀.definition) ≡ true
      → contains n names ≡ false
      → contains n s.connected ≡ true

  -- The segment with some of its egress ports connected, those of `names` not among them.
  abbrev pub EgressReady : List Text → Segment I → Type 0
  EgressReady names s =
      (s.definition ≡ s₀.definition)
      × ((segment_address s ≡ segment_address s₀) × ((s.service ≡ s₀.service) × Reached names s))
      × All
          (λ n.
            (contains n s.connected ≡ false)
            × (contains n (egress_port_names s₀.definition) ≡ true))
          names

  -- The two ways to write what is queued.
  egress-queue :
      (name : Text) (s : Segment I) (m : Manifold) (i : I)
      → segment_address s ≡ segment_address s₀
      → m.port_name ≡ name
      → egress_of name ≡ some i
      → ◌≡◌ {A = Outcome (Unit {0}) × (Segment I × Manifold)}
          (
            ok tt,
            (
              record s { connected = m.port_name ∷ s.connected },
              do_add_input (record { address = segment_address s; data_type = type_of i }) m,
            ),
          )
          (ok tt, (connect name s, queue (port_of (egress_of name)) [] m))
  egress-queue name s m i a e f =
      let result : Text → List Port → List Port → Outcome (Unit {0}) × (Segment I × Manifold) =
        λ n ins outs. (
          ok tt,
          (
            record s { connected = n ∷ s.connected },
            record m { input_updates = m.input_updates ++ ins; output_updates = outs },
          ),
        ) in
      ap
        (λ n.
          result n (record { address = segment_address s; data_type = type_of i } ∷ [])
            m.output_updates)
        e
      ∙ ap (λ b. result name (record { address = b; data_type = type_of i } ∷ []) m.output_updates)
          a
      ∙ ap (λ ins. result name ins m.output_updates) (sym (ap port_of f))
      ∙ ap (result name (port_of (egress_of name))) (sym (append-nil m.output_updates))

  ingress-queue :
      (name : Text) (s : Segment I) (m : Manifold) (i : I)
      → segment_address s ≡ segment_address s₀
      → ingress_of name ≡ some i
      → ◌≡◌ {A = Outcome (Unit {0}) × (Segment I × Manifold)}
          (
            ok tt,
            (s, do_add_output (record { address = segment_address s; data_type = type_of i }) m),
          )
          (ok tt, (s, queue [] (port_of (ingress_of name)) m))
  ingress-queue name s m i a f =
      let result : List Port → List Port → Outcome (Unit {0}) × (Segment I × Manifold) = λ ins outs.
        (ok tt, (s, record m { input_updates = ins; output_updates = m.output_updates ++ outs })) in
      ap (λ b. result m.input_updates (record { address = b; data_type = type_of i } ∷ [])) a
      ∙ ap (result m.input_updates) (sym (ap port_of f))
      ∙ ap (λ ins. result ins (port_of (ingress_of name))) (sym (append-nil m.input_updates))

  pub egress-turn :
      (name : Text) (names : List Text) (s : Segment I) (ms : Map Text Manifold)
      → EgressReady (name ∷ names) s
      → Named ms
      → Configured type_of name s (connect name s) ms (queue (port_of (egress_of name)) [])
  egress-turn name names s ms (d, a, ((f, c), _)) h =
      let i = contains-find name s₀.definition.egress_initializers c in
      let found = ap (λ d. find name d.egress_initializers) d ∙ i.1 in
      turn type_of name s (connect name s) ms (queue (port_of (egress_of name)) []) (type_of i.0) h
        (create-egress type_of name s i.0 found) (λ m. refl)
        λ m e.
          attach-egress type_of s m i.0
            (ap (λ n. find n s.definition.egress_initializers) e ∙ found)
            (ap (λ n. contains n s.connected) e ∙ f)
          ∙ egress-queue name s m i.0 a.0 e i.1

  pub egress-tail :
      (name : Text) (names : List Text) (s : Segment I)
      → All (λ n. name ≢ n) names
      → EgressReady (name ∷ names) s
      → EgressReady names (connect name s)
  unfolding contains segment_address
  egress-tail name names s fresh (d, (a, (v, k)), (_, r)) =
      (d, (a, (v, reached)), both names fresh r)
    where
      reached : Reached names (connect name s)
      reached n h out = elim (Bool-cases (name =?= n)) [
        | inl same ↦ rw same refl
        | inr other ↦ rw other (k n h (rw other out))
      ]

      still :
          (n : Text)
          → name ≢ n
          → contains n s.connected ≡ false
          → contains n (name ∷ s.connected) ≡ false
      still n apart h = elim (Bool-cases (name =?= n)) [
        | inl same ↦ absurd (apart ((text_beq_iff name n).0 same))
        | inr other ↦ rw other h
      ]

      both :
          (names : List Text)
          → All (λ n. name ≢ n) names
          → All
              (λ n.
                (contains n s.connected ≡ false)
                × (contains n (egress_port_names s₀.definition) ≡ true))
              names
          → All
              (λ n.
                (contains n (name ∷ s.connected) ≡ false)
                × (contains n (egress_port_names s₀.definition) ≡ true))
              names
      both [] fresh r = tt
      both (n ∷ names) fresh r = ((still n fresh.0 r.0.0, r.0.1), both names fresh.1 r.1)

  -- The segment with its egress ports connected, and what is left of its ingress ports.
  abbrev pub IngressReady : List Text → Segment I → Type 0
  IngressReady names s =
      (s.definition ≡ s₀.definition)
      × ((segment_address s ≡ segment_address s₀) × ((s.service ≡ s₀.service) × Reached [] s))
      × All (λ n. (egress_of n ≡ none) × (contains n (ingress_port_names s₀.definition) ≡ true))
          names

  pub ingress-turn :
      (name : Text) (names : List Text) (s : Segment I) (ms : Map Text Manifold)
      → IngressReady (name ∷ names) s
      → Named ms
      → Configured type_of name s s ms (queue [] (port_of (ingress_of name)))
  ingress-turn name names s ms (d, a, ((f, c), _)) h =
      let i = contains-find name s₀.definition.ingress_initializers c in
      let found = ap (λ d. find name d.ingress_initializers) d ∙ i.1 in
      let missing = ap (λ d. find name d.egress_initializers) d ∙ f in
      turn type_of name s s ms (queue [] (port_of (ingress_of name))) (type_of i.0) h
        (create-ingress type_of name s i.0 missing found) (λ m. refl)
        λ m e.
          attach-ingress type_of s m i.0
            (ap (λ n. find n s.definition.egress_initializers) e ∙ missing)
            (ap (λ n. find n s.definition.ingress_initializers) e ∙ found)
          ∙ ingress-queue name s m i.0 a.0 i.1
