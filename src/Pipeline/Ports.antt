-- ===== src/Pipeline/Ports.antt =====
-- A pipeline's segments stand under the hashes of their names, and a port id means one port name
-- throughout the pipeline.
use srf.Base.{
  ℕ, ◌≡◌, refl, sym, List, [], ◌∷◌, ◌++◌, Text, text_key, nat_key, Outcome, ok, throws, fatal, M,
  and_then, none, some, Ensures, Ensures-and_then, Ensures-weaken, All, Option-cases, inl, inr,
  arith, ==_iff, ◌∙◌,
}
use mathlib.Core.Path.{subst}
use srf.Base.Map.{find, insert, find-insert, =?=_refl}
use srf.Addresses.{port_name_hash}
use srf.Names.{CollisionDetector, register_name}
use srf.Names.Registration.{Registered, register_name-cases, fresh, again, collides}
use srf.Segment.{Definition, port_names, ingress_port_names, egress_port_names}
use srf.Pipeline.{
  Pipeline, register_segment, register_port, register_ports, refuse_duplicate, add_segment,
}

-- Whatever name stood under a hash still does.
pub record Keeps (d d' : CollisionDetector) : Type 0 where
  pub at : (h : ℕ) (n : Text) → find h d ≡ some n → find h d' ≡ some n

Keeps-refl : (d : CollisionDetector) → Keeps d d
Keeps-refl d = record { at = λ h n e. e }

Keeps-trans : {a b c : CollisionDetector} → Keeps a b → Keeps b c → Keeps a c
Keeps-trans p q = record { at = λ h n e. q.at h n (p.at h n e) }

pub All-Keeps :
    {a b : CollisionDetector} (ns : List Text)
    → Keeps a b
    → All (λ n. Registered n a) ns
    → All (λ n. Registered n b) ns
All-Keeps [] k h = tt
All-Keeps (n ∷ ns) k h = (k.at _ n h.0, All-Keeps ns k h.1)

All-append :
    (d : CollisionDetector) (ms ns : List Text)
    → All (λ n. Registered n d) ms
    → All (λ n. Registered n d) ns
    → All (λ n. Registered n d) (ms ++ ns)
All-append d [] ns h k = k
All-append d (m ∷ ms) ns h k = (h.0, All-append d ms ns h.1 k)

insert-Keeps : (h : ℕ) (n : Text) (d : CollisionDetector) → find h d ≡ none → Keeps d (insert h n d)
insert-Keeps h n d new = record { at = λ k m e. ground (arith, ==_iff h k, find-insert h k n d) }

abbrev Named : Text → CollisionDetector → ℕ → CollisionDetector → Type 0
Named name d id d' = (id ≡ port_name_hash name) × Registered name d' × Keeps d d'

register_name-Ensures :
    (name : Text) (d : CollisionDetector) → Ensures (Named name d) (Keeps d) (register_name name d)
register_name-Ensures name d = elim (register_name-cases name d) [
  | fresh e r ↦
      rw r (
        refl,
        find-insert _ _ name d ∙ rw (=?=_refl (port_name_hash name)),
        insert-Keeps _ name d e,
      )
  | again e r ↦ rw r (refl, e, Keeps-refl d)
  | collides other e ne r ↦ rw r (Keeps-refl d)
]

module _ {I : Type 0} where
  -- The segments are as before, and no name was forgotten.
  pub record Grows (p q : Pipeline I) : Type 0 where
    pub same : q.segments ≡ p.segments
    pub names : Keeps p.segment_hasher q.segment_hasher
    pub ports : Keeps p.port_hasher q.port_hasher

  Grows-refl : (p : Pipeline I) → Grows p p
  Grows-refl p = record { same = refl; names = Keeps-refl _; ports = Keeps-refl _ }

  Grows-trans : {p q r : Pipeline I} → Grows p q → Grows q r → Grows p r
  Grows-trans g h = record {
    same = h.same ∙ g.same;
    names = Keeps-trans g.names h.names;
    ports = Keeps-trans g.ports h.ports;
  }

  abbrev SegmentNamed : Text → Pipeline I → ℕ → Pipeline I → Type 0
  SegmentNamed name p id q =
      (id ≡ port_name_hash name) × Registered name q.segment_hasher × Grows p q

  into_segment_hasher :
      (name : Text) (p : Pipeline I) (r : Outcome ℕ × CollisionDetector)
      → Ensures (Named name p.segment_hasher) (Keeps p.segment_hasher) r
      → Ensures (SegmentNamed name p) (Grows p) (r.0, record p { segment_hasher = r.1 })
  into_segment_hasher name p (ok id, d) (e, r, k) =
      (e, r, record { same = refl; names = k; ports = Keeps-refl _ })
  into_segment_hasher name p (throws x, d) k = record {
    same = refl;
    names = k;
    ports = Keeps-refl _;
  }
  into_segment_hasher name p (fatal, d) k = absurd k

  register_segment-Ensures :
      (name : Text) (p : Pipeline I)
      → Ensures (SegmentNamed name p) (Grows p) (register_segment name p)
  unfolding register_segment
  register_segment-Ensures name p =
      into_segment_hasher name p _ (register_name-Ensures name p.segment_hasher)

  abbrev PortsNamed : List Text → Pipeline I → Pipeline I → Type 0
  PortsNamed names p q = All (λ n. Registered n q.port_hasher) names × Grows p q

  into_port_hasher :
      (name : Text) (p : Pipeline I) (r : Outcome ℕ × CollisionDetector)
      → Ensures (Named name p.port_hasher) (Keeps p.port_hasher) r
      → Ensures
          (λ id q. Registered name q.port_hasher × Grows p q)
          (Grows p)
          (r.0, record p { port_hasher = r.1 })
  into_port_hasher name p (ok id, d) (e, r, k) =
      (r, record { same = refl; names = Keeps-refl _; ports = k })
  into_port_hasher name p (throws x, d) k = record { same = refl; names = Keeps-refl _; ports = k }
  into_port_hasher name p (fatal, d) k = absurd k

  register_port-Ensures :
      (name : Text) (p : Pipeline I)
      → Ensures (λ id q. Registered name q.port_hasher × Grows p q) (Grows p) (register_port name p)
  unfolding register_port
  register_port-Ensures name p =
      into_port_hasher name p _ (register_name-Ensures name p.port_hasher)

  register_ports-Ensures :
      (names : List Text) (p : Pipeline I)
      → Ensures (λ _. PortsNamed names p) (Grows p) (register_ports names p)
  unfolding register_ports
  register_ports-Ensures [] p = (tt, Grows-refl p)
  register_ports-Ensures (name ∷ names) p =
      Ensures-and_then (λ id q. Registered name q.port_hasher × Grows p q)
        (λ _. PortsNamed (name ∷ names) p) (Grows p) (register_port name p) _
        (register_port-Ensures name p)
        λ id q (r, g).
          Ensures-weaken (λ _. PortsNamed names q) (λ _. PortsNamed (name ∷ names) p) (Grows q)
            (Grows p) (register_ports names q) (register_ports-Ensures names q)
            (λ _ s (rs, h). ((h.ports.at _ name r, rs), Grows-trans g h)) (λ s h. Grows-trans g h)

  refuse_duplicate-Ensures :
      (id : ℕ) (p : Pipeline I)
      → Ensures (λ _ q. (q ≡ p) × (find id p.segments ≡ none)) (Grows p) (refuse_duplicate id p)
  unfolding refuse_duplicate
  refuse_duplicate-Ensures id p = elim (Option-cases (find id p.segments)) [
    | inl e ↦ rw (e, refuse_duplicate) (refl, refl)
    | inr (d, e) ↦ rw (e, refuse_duplicate) (Grows-refl p)
  ]

  -- A further step, from a pipeline that has grown.
  Grows-and_then :
      {A B : Type 0} (p q : Pipeline I) (P : A → Pipeline I → Type 0) (P' : B → Pipeline I → Type 0)
      (r : Outcome A × Pipeline I) (f : A → M (Pipeline I) B)
      → Grows p q
      → Ensures P (Grows q) r
      → ((a : A) (s : Pipeline I) → P a s → Ensures P' (Grows p) (f a s))
      → Ensures P' (Grows p) (and_then r f)
  Grows-and_then p q P P' r f g h k =
      Ensures-and_then P P' (Grows p) r f
        (Ensures-weaken P P (Grows q) (Grows p) r h (λ a s x. x) (λ s x. Grows-trans g x)) k

  -- The segment was not there, all its names are registered, and it is stored under its id.
  pub record Added (segment : Definition I) (p q : Pipeline I) : Type 0 where
    pub before : Pipeline I
    pub grows : Grows p before
    pub absent : find (port_name_hash segment.name) p.segments ≡ none
    pub named : Registered segment.name before.segment_hasher
    pub ports : All (λ n. Registered n before.port_hasher) (port_names segment)
    pub stored :
        q
        ≡ record before { segments = insert (port_name_hash segment.name) segment before.segments }

  added :
      {segment : Definition I} {p q t u : Pipeline I} {id : ℕ}
      → id ≡ port_name_hash segment.name
      → Grows p q
      → Registered segment.name q.segment_hasher
        × (find id q.segments ≡ none)
        × All (λ n. Registered n t.port_hasher) (ingress_port_names segment)
        × All (λ n. Registered n u.port_hasher) (egress_port_names segment)
      → Grows q t
      → Grows t u
      → Added segment p (record u { segments = insert id segment u.segments })
  added {segment} {u = u} e g (named, absent, ins, outs) g1 g2 = record {
    before = u;
    grows = Grows-trans g (Grows-trans g1 g2);
    absent = rw (← e, ← g.same) absent;
    named = g2.names.at _ _ (g1.names.at _ _ named);
    ports = All-append _ (ingress_port_names segment) _ (All-Keeps _ g2.ports ins) outs;
    stored = rw e;
  }

  pub add_segment-Ensures :
      (segment : Definition I) (p : Pipeline I)
      → Ensures (λ _. Added segment p) (Grows p) (add_segment segment p)
  unfolding add_segment
  add_segment-Ensures segment p =
      Ensures-and_then (SegmentNamed segment.name p) Done (Grows p) _ _
        (register_segment-Ensures segment.name p)
        λ id q (e, named, g).
          Grows-and_then p q (λ _ s. (s ≡ q) × (find id q.segments ≡ none)) Done _ _ g
            (refuse_duplicate-Ensures id q)
            λ _ s (same, absent).
              Grows-and_then p s (λ _. PortsNamed (ingress_port_names segment) s) Done _ _
                (subst (Grows p) (sym same) g)
                (register_ports-Ensures (ingress_port_names segment) s)
                λ _ t (ins, g1).
                  Grows-and_then p t (λ _. PortsNamed (egress_port_names segment) t) Done _ _
                    (Grows-trans (subst (Grows p) (sym same) g) g1)
                    (register_ports-Ensures (egress_port_names segment) t)
                    λ _ u (outs, g2).
                      added e g (named, absent, ins, outs) (subst (λ r. Grows r t) same g1) g2
    where
      Done : Unit {0} → Pipeline I → Type 0
      Done _ = Added segment p
