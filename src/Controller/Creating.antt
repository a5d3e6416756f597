-- ===== src/Controller/Creating.antt =====
-- The segments that an update creates.
use srf.Base.{
  Text, ℕ, ◌≡◌, ◌≢◌, ◌<◌, refl, sym, ap, ◌∙◌, true, false, List, [], ◌∷◌, some, none, nat_key,
  Outcome, ok, contains, not-contains_iff, All, Distinct, Bool-cases, inl, inr, arith, ◌=?=◌,
  if_true, if_false, ==_iff, ◌==◌, some-injective,
}
use srf.Base.Map.{find}
use srf.Segment.{port_names}
use srf.Pipeline.{Pipeline}
use srf.Service.{new_service, level}
use srf.Instances.{segment_address, Segment, Instance, construct, for_each}
use srf.Instances.Creation.{create_segment-wires}
use srf.Instances.Settling.{FitsTypes}
use srf.Instances.Readiness.{IsReady, create_segment-Settled}
use srf.Controller.{SegmentAddresses, set_difference, create_at}

pub All-at : (P : ℕ → Type 0) (a : ℕ) (xs : List ℕ) → All P xs → contains a xs ≡ true → P a
unfolding contains
All-at P a [] h c = absurd cc
All-at P a (x ∷ xs) (h, hs) c = elim (Bool-cases (x == a)) [
  | inl this ↦ rw (sym ((==_iff x a).0 this)) h
  | inr other ↦ All-at P a xs hs (rw other at c)
]

pub difference-All : (P : ℕ → Type 0) (xs ys : List ℕ) → All P xs → All P (set_difference xs ys)
unfolding set_difference
difference-All P [] ys h = tt
difference-All P (x ∷ xs) ys (h, hs) = elim (Bool-cases (contains x ys)) [
  | inl old ↦ rw old (difference-All P xs ys hs)
  | inr new ↦ rw new (h, difference-All P xs ys hs)
]

pub difference-Distinct : (xs ys : List ℕ) → Distinct xs → Distinct (set_difference xs ys)
unfolding set_difference
difference-Distinct [] ys d = tt
difference-Distinct (x ∷ xs) ys (d, ds) = elim (Bool-cases (contains x ys)) [
  | inl old ↦ rw old (difference-Distinct xs ys ds)
  | inr new ↦ rw new (difference-All (λ y. x ≢ y) xs ys d, difference-Distinct xs ys ds)
]

pub difference-none :
    (xs ys : List ℕ) → All (λ x. contains x ys ≡ true) xs → set_difference xs ys ≡ []
unfolding set_difference
difference-none [] ys h = refl
difference-none (x ∷ xs) ys (h, hs) = rw h (difference-none xs ys hs)

module _ {I : Type 0} (definition : Pipeline I) (partitions : ℕ) (type_of : I → ℕ)
    (build : ℕ → Outcome (Unit {0})) (types : Text → ℕ) where
  construct-service :
      (addr partition_id : ℕ) (s : Segment I)
      → construct definition partitions type_of build addr partition_id ≡ ok s
      → s.service ≡ new_service
  unfolding construct
  construct-service addr partition_id s h = ground arith

  -- What an address of an update needs for its segment to be created.
  abbrev pub Creatable : SegmentAddresses → ℕ → Type 0
  Creatable news a =
      (partition_id : ℕ) × (s : Segment I) × (find a news ≡ some partition_id)
      × (partition_id < partitions)
      × (construct definition partitions type_of build a partition_id ≡ ok s)
      × Distinct (port_names s.definition)
      × FitsTypes type_of types s.definition
      × (segment_address s ≡ a)

  -- What the creations come to: the new segments, and the others as before.
  pub record Creates (r : Outcome (Unit {0}) × Instance I) (p : Instance I) (addrs : List ℕ)
      : Type 0 where
    pub next : Instance I
    pub creates : r ≡ (ok tt, next)
    pub ready : IsReady types next
    pub created : All (λ a. (s : Segment I) × (find a next.segments ≡ some s)) addrs
    pub others : (b : ℕ) → contains b addrs ≡ false → find b next.segments ≡ find b p.segments

  create_at-Creates :
      (news : SegmentAddresses) (a : ℕ) (p : Instance I)
      → Creatable news a
      → find a p.segments ≡ none
      → IsReady types p
      → Creates (create_at definition partitions type_of build news a p) p (a ∷ [])
  unfolding create_at contains
  create_at-Creates news a p (partition_id, s, f, l, k, d, t, at) free r =
      let w =
        create_segment-wires definition partitions type_of build a partition_id p s l free k d
          r.named in
      let settled =
        create_segment-Settled definition partitions type_of build types a partition_id p s l free k
          d t at r.named r.settled in
      let same : settled.0 ≡ w.0 = ap (λ r. r.1) (sym settled.1 ∙ w.2) in
      let p' : Instance I = w.0 in
      let s' : Segment I = w.1 in
      record {
        next = p';
        creates = rw (create_at, f) w.2;
        ready = record {
          named = (w.4).all_named;
          settled = rw (sym same) settled.2;
          startable = λ b t g. elim (Bool-cases (a =?= b)) [
            | inl this ↦
                let same : t ≡ s' =
                  some-injective t s'
                    (sym g ∙ w.3 b ∙ if_true (some s') (find b p.segments) this) in
                let new : level t.service.state ≡ 0 =
                  ap (λ t. level t.service.state) same
                  ∙ ap (λ v. level v.state)
                      ((w.4).same_service ∙ construct-service a partition_id s k) in
                omega (arith, new)
            | inr other ↦
                r.startable b t (sym (w.3 b ∙ if_false (some s') (find b p.segments) other) ∙ g)
          ];
        };
        created = ((s', w.3 a ∙ if_true (some s') (find a p.segments) ((==_iff a a).1 refl)), tt);
        others = λ b c. w.3 b ∙ if_false (some s') (find b p.segments) (ground arith);
      }

  pub for_each-Creates :
      (news : SegmentAddresses) (addrs : List ℕ) (p : Instance I)
      → Distinct addrs
      → All (Creatable news) addrs
      → All (λ a. find a p.segments ≡ none) addrs
      → IsReady types p
      → Creates (for_each (create_at definition partitions type_of build news) addrs p) p addrs
  unfolding for_each contains
  for_each-Creates news [] p d c free r = record {
    next = p;
    creates = refl;
    ready = r;
    created = tt;
    others = λ b c. refl;
  }
  for_each-Creates news (a ∷ addrs) p (d, ds) (c, cs) (free, frees) r =
      let one = create_at-Creates news a p c free r in
      let apart = (not-contains_iff a addrs).1 d in
      let rest =
        for_each-Creates news addrs (one.next) ds cs
          (still_free (one.next) one.others addrs d frees) one.ready in
      record {
        next = rest.next;
        creates = rw one.creates rest.creates;
        ready = rest.ready;
        created = (let s = (one.created).0 in (s.0, rest.others a apart ∙ s.1), rest.created);
        others = λ b k. rest.others b (ground arith) ∙ one.others b (ground arith);
      }
    where
      still_free :
          (q : Instance I)
          → ((b : ℕ) → contains b (a ∷ []) ≡ false → find b q.segments ≡ find b p.segments)
          → (bs : List ℕ) → All (λ b. a ≢ b) bs
          → All (λ b. find b p.segments ≡ none) bs
          → All (λ b. find b q.segments ≡ none) bs
      still_free q o [] d f = tt
      still_free q o (b ∷ bs) (d, ds) (f, fs) = (
        o b ((not-contains_iff b (a ∷ [])).1 ((λ e. d (sym e)), tt)) ∙ f,
        still_free q o bs ds fs,
      )
