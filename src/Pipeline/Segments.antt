-- ===== src/Pipeline/Segments.antt =====
-- What a client of a pipeline sees of `add_segment` and `find_segment`.
use srf.Base.{
  ℕ, ◌≡◌, ◌≢◌, refl, ap, ◌∙◌, List, [], ◌∷◌, Text, text_key, nat_key, Outcome, ok, throws, fatal,
  Exception, true, some, Ensures, All, arith, ==_iff, inl, inr, Bool-cases, Option-cases, ◌==◌,
}
use srf.Base.Map.{find, insert, find-insert, =?=_refl}
use srf.Addresses.{segment_name_hash, port_name_hash}
use srf.Addresses.Packing.{port_name_hash-lt}
use srf.Names.{CollisionDetector}
use srf.Names.Registration.{Registered}
use srf.Segment.{Definition, port_names}
use srf.Pipeline.{Pipeline, add_segment, find_segment}
use srf.Pipeline.Ports.{Added, Grows, All-Keeps, add_segment-Ensures}

agree_one :
    (d : CollisionDetector) (m : Text) (ns : List Text)
    → Registered m d
    → All (λ n. Registered n d) ns
    → All (λ n. port_name_hash m ≡ port_name_hash n → m ≡ n) ns
agree_one d m [] r rs = tt
agree_one d m (n ∷ ns) r rs = (λ e. cc (r, rs.0, e), agree_one d m ns r rs.1)

agree :
    (d : CollisionDetector) (ns ms : List Text)
    → All (λ n. Registered n d) ns
    → All (λ n. Registered n d) ms
    → All (λ m. All (λ n. port_name_hash m ≡ port_name_hash n → m ≡ n) ns) ms
agree d ns [] rn rm = tt
agree d ns (m ∷ ms) rn rm = (agree_one d m ns rm.0 rn, agree d ns ms rn rm.1)

module _ {I : Type 0} where
  -- Segments stand under the hashes of their names, and all names are registered.
  pub record Inv (p : Pipeline I) : Type 0 where
    pub at :
        (id : ℕ) (d : Definition I)
        → find id p.segments ≡ some d
        → (port_name_hash d.name ≡ id)
          × Registered d.name p.segment_hasher
          × All (λ n. Registered n p.port_hasher) (port_names d)

  Grows-Inv : {p q : Pipeline I} → Grows p q → Inv p → Inv q
  Grows-Inv g v = record {
    at = λ id d e.
        let (h, r, rs) = v.at id d (rw g.same at e) in
        (h, g.names.at _ _ r, All-Keeps (port_names d) g.ports rs);
  }

  Added-Inv : (segment : Definition I) {p q : Pipeline I} → Added segment p q → Inv p → Inv q
  Added-Inv segment {q = q} a v = rw a.stored (record { at = stored })
    where
      b : Pipeline I
      b = a.before

      w : Inv b
      w = Grows-Inv a.grows v

      own :
          (id : ℕ) (d : Definition I)
          → (port_name_hash segment.name == id) ≡ true
          → some segment ≡ some d
          → (port_name_hash d.name ≡ id)
            × Registered d.name b.segment_hasher
            × All (λ n. Registered n b.port_hasher) (port_names d)
      own id d same e =
          let here : segment ≡ d = cc in rw (← here) ((==_iff _ id).0 same, a.named, a.ports)

      stored :
          (id : ℕ) (d : Definition I)
          → find id (insert (port_name_hash segment.name) segment b.segments) ≡ some d
          → (port_name_hash d.name ≡ id)
            × Registered d.name b.segment_hasher
            × All (λ n. Registered n b.port_hasher) (port_names d)
      stored id d e = elim (Bool-cases (port_name_hash segment.name == id)) [
        | inl same ↦ own id d same (rw (find-insert _ id segment b.segments, same) at e)
        | inr other ↦ w.at id d (rw (find-insert _ id segment b.segments, other) at e)
      ]

  by_outcome :
      (segment : Definition I) (p : Pipeline I) (r : Outcome (Unit {0}) × Pipeline I)
      → Ensures (λ _. Added segment p) (Grows p) r
      → Inv p
      → Inv r.1
  by_outcome segment p (ok _, q) a v = Added-Inv segment a v
  by_outcome segment p (throws e, q) g v = Grows-Inv g v
  by_outcome segment p (fatal, q) h v = absurd h

  -- Whether it succeeds or throws, `add_segment` keeps every segment under the hash of its name and
  -- the segment's name and all its port names registered.
  pub add_segment-Inv :
      (segment : Definition I) (p : Pipeline I) → Inv p → Inv (add_segment segment p).1
  add_segment-Inv segment p = by_outcome segment p _ (add_segment-Ensures segment p)

  found :
      (segment : Definition I) (p : Pipeline I) (r : Outcome (Unit {0}) × Pipeline I)
      → Ensures (λ _. Added segment p) (Grows p) r
      → r.0 ≡ ok tt
      → Added segment p r.1
  found segment p (ok _, q) a h = a
  found segment p (throws e, q) g h = absurd (cc h)
  found segment p (fatal, q) f h = absurd f

  after :
      {segment : Definition I} {p q : Pipeline I}
      → Added segment p q
      → let id = segment_name_hash segment.name in
        (find_segment id p ≡ fatal)
        × (find_segment id q ≡ ok segment)
        × ((other : ℕ) → other ≢ id → find_segment other q ≡ find_segment other p)
  unfolding find_segment
  after {segment} {p} {q} a =
      rw ((port_name_hash-lt segment.name).1, a.stored)
        (
          rw (a.absent, find_segment),
          ground (arith, find-insert id id segment b.segments, =?=_refl id),
          λ other ne.
              ground
                (arith, find-insert id other segment b.segments, a.grows.same, ==_iff id other),
        )
    where
      b : Pipeline I
      b = a.before

      id : ℕ
      id = port_name_hash segment.name

  -- A segment that `add_segment` accepts was not there before and is found afterwards under the hash
  -- of its name; what is found under any other id does not change.
  pub find_segment-add_segment :
      (segment : Definition I) (p : Pipeline I)
      → (add_segment segment p).0 ≡ ok tt
      → let id = segment_name_hash segment.name in
        (find_segment id p ≡ fatal)
        × (find_segment id (add_segment segment p).1 ≡ ok segment)
        × ((other : ℕ)
            → other ≢ id
            → find_segment other (add_segment segment p).1 ≡ find_segment other p)
  unfolding find_segment
  find_segment-add_segment segment p h = after (found segment p _ (add_segment-Ensures segment p) h)

  refused :
      (segment : Definition I) (p : Pipeline I) (r : Outcome (Unit {0}) × Pipeline I)
      → Ensures (λ _. Added segment p) (Grows p) r
      → r.0 ≢ ok tt
      → ((e : Exception) × (r.0 ≡ throws e)) × (r.1.segments ≡ p.segments)
  refused segment p (ok _, q) a h = absurd (h refl)
  refused segment p (throws e, q) g h = ((e, refl), g.same)
  refused segment p (fatal, q) f h = absurd f

  -- A segment that `add_segment` does not accept leaves the segments as they were.
  pub add_segment-refused :
      (segment : Definition I) (p : Pipeline I)
      → (add_segment segment p).0 ≢ ok tt
      → ((e : Exception) × ((add_segment segment p).0 ≡ throws e))
        × ((add_segment segment p).1.segments ≡ p.segments)
  add_segment-refused segment p h = refused segment p _ (add_segment-Ensures segment p) h

  stored_names :
      (p : Pipeline I) (id : ℕ) (d : Definition I)
      → Inv p
      → find_segment id p ≡ ok d
      → All (λ n. Registered n p.port_hasher) (port_names d)
  unfolding find_segment
  stored_names p id d v e = elim (Option-cases (find id p.segments)) [
    | inl none_there ↦ absurd (cc (rw (none_there, find_segment) at e))
    | inr (d', there) ↦
        let same : d' ≡ d = cc (rw (there, find_segment) at e) in
        (v.at id d (there ∙ ap some same)).2
  ]

  -- Throughout a pipeline a port id means one port name: two ports of its segments, in one segment
  -- or in two, whose names have the same hash have the same name.
  pub port_names_agree :
      (p : Pipeline I) (i j : ℕ) (a b : Definition I)
      → Inv p
      → find_segment i p ≡ ok a
      → find_segment j p ≡ ok b
      → All
          (λ m. All (λ n. port_name_hash m ≡ port_name_hash n → m ≡ n) (port_names b))
          (port_names a)
  port_names_agree p i j a b v ea eb =
      agree p.port_hasher (port_names b) (port_names a) (stored_names p j b v eb)
        (stored_names p i a v ea)
