-- ===== src/Instances/Attaching.antt =====
-- The loops over the ports of a new segment: each port's manifold is found or made, and gets the port.
use srf.Base.{
  ℕ, ◌≡◌, refl, sym, ap, ◌∙◌, false, List, [], Option, none, some, Text, text_key, ok, Bool-cases,
  Option-cases, inl, inr, ◌=?=◌, some-injective, text_beq_iff, if_true, if_false, if◌then◌else◌,
  All, ◌⊎◌,
}
use srf.Base.Map.{Map, find, insert, All-insert, find-insert, =?=_refl}
use srf.Manifold.{Manifold, Port, make_manifold}
use srf.Instances.{Segment, attach_manifold, create_manifold, obtain_manifold, configure}

-- What is queued at a manifold, if there is one.
abbrev pub queued_inputs : Option Manifold → List Port
queued_inputs none = []
queued_inputs (some m) = m.input_updates

abbrev pub queued_outputs : Option Manifold → List Port
queued_outputs none = []
queued_outputs (some m) = m.output_updates

-- Each manifold stands under its own name.
abbrev pub Named : Map Text Manifold → Type 0
Named ms = (n : Text) (m : Manifold) → find n ms ≡ some m → m.port_name ≡ n

-- Where the manifold of a name comes from: it is there, or it is made.
abbrev pub Origin :
    {I : Type 0} → (I → ℕ) → Text → Segment I → Map Text Manifold → Manifold → Type 0
Origin type_of name s ms m =
    (find name ms ≡ some m)
    ⊎ ((type : ℕ) × (create_manifold type_of name s ≡ ok (make_manifold name type))
        × (m ≡ make_manifold name type))

module _ {I : Type 0} (type_of : I → ℕ) where
  record Obtained (name : Text) (s : Segment I) (ms : Map Text Manifold) : Type 0 where
    manifold : Manifold
    manifolds : Map Text Manifold
    obtained : obtain_manifold type_of name s ms ≡ (ok manifold, manifolds)
    named : manifold.port_name ≡ name
    inputs : manifold.input_updates ≡ queued_inputs (find name ms)
    outputs : manifold.output_updates ≡ queued_outputs (find name ms)
    others : (n : Text) → (name =?= n) ≡ false → find n manifolds ≡ find n ms
    origin : Origin type_of name s ms manifold
    stored : (manifolds ≡ ms) ⊎ (manifolds ≡ insert name manifold ms)

  obtain :
      (name : Text) (s : Segment I) (ms : Map Text Manifold) (type : ℕ)
      → Named ms
      → create_manifold type_of name s ≡ ok (make_manifold name type)
      → Obtained name s ms
  unfolding obtain_manifold
  obtain name s ms type h c = elim (Option-cases (find name ms)) [
    | inl missing ↦ record {
      manifold = make_manifold name type;
      manifolds = insert name (make_manifold name type) ms;
      obtained = rw (obtain_manifold, missing, c) refl;
      named = refl;
      inputs = sym (ap queued_inputs missing);
      outputs = sym (ap queued_outputs missing);
      others = λ n e.
          find-insert name n (make_manifold name type) ms
          ∙ if_false (some (make_manifold name type)) (find n ms) e;
      origin = inr (type, c, refl);
      stored = inr refl;
    }
    | inr (m, found) ↦ record {
      manifold = m;
      manifolds = ms;
      obtained = rw (obtain_manifold, found) refl;
      named = h name m found;
      inputs = sym (ap queued_inputs found);
      outputs = sym (ap queued_outputs found);
      others = λ n e. refl;
      origin = inl found;
      stored = inl refl;
    }
  ]

  -- A turn of the loop, of which `f` is what the port does to its manifold.
  pub record Configured (name : Text) (s s' : Segment I) (ms : Map Text Manifold)
      (f : Manifold → Manifold) : Type 0 where
    pub manifold : Manifold
    pub manifolds : Map Text Manifold
    pub configured : configure type_of name (s, ms) ≡ (ok tt, (s', manifolds))
    pub inputs : manifold.input_updates ≡ queued_inputs (find name ms)
    pub outputs : manifold.output_updates ≡ queued_outputs (find name ms)
    pub this : find name manifolds ≡ some (f manifold)
    pub others : (n : Text) → (name =?= n) ≡ false → find n manifolds ≡ find n ms
    pub all_named : Named manifolds
    pub origin : Origin type_of name s ms manifold
    pub before : Map Text Manifold
    pub stored : (before ≡ ms) ⊎ (before ≡ insert name manifold ms)
    pub result : manifolds ≡ insert name (f manifold) before

  pub turn :
      (name : Text) (s s' : Segment I) (ms : Map Text Manifold) (f : Manifold → Manifold) (type : ℕ)
      → Named ms
      → create_manifold type_of name s ≡ ok (make_manifold name type)
      → ((m : Manifold) → (f m).port_name ≡ m.port_name)
      → ((m : Manifold) → m.port_name ≡ name → attach_manifold type_of (s, m) ≡ (ok tt, (s', f m)))
      → Configured name s s' ms f
  unfolding configure
  turn name s s' ms f type h c keep attach =
      let o = obtain name s ms type h c in
      let m : Manifold = o.manifold in
      let after : Map Text Manifold = insert name (f m) o.manifolds in
      let there : (n : Text)
          → find n after ≡ (if name =?= n then some (f m) else find n o.manifolds) =
        λ n. find-insert name n (f m) o.manifolds in
      record {
        manifold = m;
        manifolds = after;
        configured = rw (configure, o.obtained, attach m o.named) refl;
        inputs = o.inputs;
        outputs = o.outputs;
        this = there name ∙ if_true (some (f m)) (find name o.manifolds) (=?=_refl name);
        others = λ n e. there n ∙ if_false (some (f m)) (find n o.manifolds) e ∙ o.others n e;
        origin = o.origin;
        before = o.manifolds;
        stored = o.stored;
        result = refl;
        all_named = λ n m' found. elim (Bool-cases (name =?= n)) [
          | inl same ↦
              ap (λ m. m.port_name)
                (sym (
                  some-injective (f m) m'
                    (sym (there n ∙ if_true (some (f m)) (find n o.manifolds) same) ∙ found)))
              ∙ keep m
              ∙ o.named
              ∙ (text_beq_iff name n).0 same
          | inr other ↦ h n m' (
              sym (there n ∙ if_false (some (f m)) (find n o.manifolds) other ∙ o.others n other)
              ∙ found)
        ];
      }

  -- What a turn keeps of all manifolds.
  pub Configured-every :
      (P : Text × Manifold → Type 0) (name : Text) (s s' : Segment I) (ms : Map Text Manifold)
      (f : Manifold → Manifold) (c : Configured name s s' ms f)
      → All P ms
      → P (name, c.manifold)
      → P (name, f c.manifold)
      → All P c.manifolds
  Configured-every P name s s' ms f c h new next =
      rw c.result (All-insert P name (f c.manifold) c.before stored_all next)
    where
      stored_all : All P c.before
      stored_all = elim c.stored [
        | inl same ↦ rw same h
        | inr added ↦ rw added (All-insert P name c.manifold ms h new)
      ]
