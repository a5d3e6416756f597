-- ===== src/Instances/Wiring.antt =====
-- A loop over distinct port names queues what belongs to each of them, and nothing else.
use srf.Base.{
  ℕ, ◌≡◌, ◌≢◌, refl, sym, ap, ◌∙◌, false, List, [], ◌∷◌, ◌++◌, Option, Text, text_key, ok, contains,
  not-contains_iff, All, Distinct, Bool-cases, inl, inr, ◌=?=◌, if◌then◌else◌, text_beq_iff,
}
use mathlib.Core.List.{append-nil}
use srf.Base.Map.{Map, find, =?=_refl}
use srf.Manifold.{Manifold, Port}
use srf.Instances.{Segment, configure_all}
use srf.Instances.Attaching.{queued_inputs, queued_outputs, Named, Configured}

-- The manifold with ports added to its queues.
abbrev pub queue : List Port → List Port → Manifold → Manifold
queue ins outs m = record m {
  input_updates = m.input_updates ++ ins;
  output_updates = m.output_updates ++ outs;
}

module _ {I : Type 0} (type_of : I → ℕ) where
  pub record Looped (names : List Text) (s s' : Segment I) (ms : Map Text Manifold)
      (ins outs : Text → List Port) : Type 0 where
    pub manifolds : Map Text Manifold
    pub looped : configure_all type_of names (s, ms) ≡ (ok tt, (s', manifolds))
    pub inputs :
        (n : Text)
        → queued_inputs (find n manifolds)
          ≡ queued_inputs (find n ms) ++ (if contains n names then ins n else [])
    pub outputs :
        (n : Text)
        → queued_outputs (find n manifolds)
          ≡ queued_outputs (find n ms) ++ (if contains n names then outs n else [])
    pub all_named : Named manifolds

  extend :
      (name : Text) (names : List Text) (s s' s'' : Segment I) (ms : Map Text Manifold)
      (ins outs : Text → List Port)
      → All (λ n. name ≢ n) names
      → (c : Configured type_of name s s' ms (queue (ins name) (outs name)))
      → Looped names s' s'' c.manifolds ins outs
      → Looped (name ∷ names) s s'' ms ins outs
  unfolding configure_all contains
  extend name names s s' s'' ms ins outs fresh c l = record {
    manifolds = l.manifolds;
    looped = rw (configure_all, c.configured, l.looped) refl;
    inputs = λ n.
        l.inputs n
        ∙ added queued_inputs ins n (ap queued_inputs c.this ∙ ap (λ q. q ++ ins name) c.inputs)
            (λ e. ap queued_inputs (c.others n e));
    outputs = λ n.
        l.outputs n
        ∙ added queued_outputs outs n
            (ap queued_outputs c.this ∙ ap (λ q. q ++ outs name) c.outputs)
            (λ e. ap queued_outputs (c.others n e));
    all_named = l.all_named;
  }
    where
      added :
          (q : Option Manifold → List Port) (ports : Text → List Port) (n : Text)
          → q (find name c.manifolds) ≡ q (find name ms) ++ ports name
          → ((name =?= n) ≡ false → q (find n c.manifolds) ≡ q (find n ms))
          → q (find n c.manifolds) ++ (if contains n names then ports n else [])
            ≡ q (find n ms) ++ (if contains n (name ∷ names) then ports n else [])
      added q ports n this other = elim (Bool-cases (name =?= n)) [
        | inl same ↦ rw⁻¹ ((text_beq_iff name n).0 same) (
            rw ((not-contains_iff name names).1 fresh, =?=_refl name)
              (append-nil (q (find name c.manifolds)) ∙ this))
        | inr else' ↦ rw (else', other else') refl
      ]

  -- The loop over `names`, with ports connected one after another: `next` is what the segment becomes.
  pub loop :
      (next : Text → Segment I → Segment I) (Ready : List Text → Segment I → Type 0)
      (ins outs : Text → List Port)
      → ((name : Text) (names : List Text) (s : Segment I) (ms : Map Text Manifold)
          → Ready (name ∷ names) s
          → Named ms
          → Configured type_of name s (next name s) ms (queue (ins name) (outs name)))
      → ((name : Text) (names : List Text) (s : Segment I)
          → All (λ n. name ≢ n) names
          → Ready (name ∷ names) s
          → Ready names (next name s))
      → (names : List Text) (s : Segment I) (ms : Map Text Manifold) → Distinct names
      → Ready names s
      → Named ms
      → (s' : Segment I) × Looped names s s' ms ins outs × Ready [] s'
  unfolding configure_all contains
  loop next Ready ins outs step tail [] s ms d r h = (
    s,
    record {
      manifolds = ms;
      looped = refl;
      inputs = λ n. sym (append-nil (queued_inputs (find n ms)));
      outputs = λ n. sym (append-nil (queued_outputs (find n ms)));
      all_named = h;
    },
    r,
  )
  loop next Ready ins outs step tail (name ∷ names) s ms d r h =
      let c = step name names s ms r h in
      let rest =
        loop next Ready ins outs step tail names (next name s) c.manifolds d.1
          (tail name names s d.0 r) c.all_named in
      (rest.0, extend name names s (next name s) rest.0 ms ins outs d.0 c rest.1, rest.2)
