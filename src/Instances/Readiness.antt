-- ===== src/Instances/Readiness.antt =====
-- An instance that can be updated, and what keeps it so.
use srf.Base.{
  ℕ, ◌≡◌, ◌<◌, refl, sym, ap, ◌∙◌, true, false, List, [], ◌∷◌, none, some, Text, text_key, nat_key,
  Outcome, ok, and_then, check, contains, All, All-weaken, Distinct, Bool-cases, inl, inr, arith,
  ◌=?=◌, ==_iff, ◌==◌, ltb, if_true, if_false, some-injective,
}
use mathlib.Core.List.{append-nil}
use srf.Base.Map.{Map, find, insert, keys, find-contains, contains-find, insert-here, insert-there}
use srf.Segment.{port_names}
use srf.Pipeline.{Pipeline}
use srf.Manifold.{Manifold}
use srf.Manifold.Updates.{refreshed, attached-outputs}
use srf.Instances.{Segment, Instance, segment_address, construct, create_segment}
use srf.Instances.Attaching.{Named}
use srf.Instances.Creation.{construct-unconnected}
use srf.Instances.Consistency.{IsSettled, IsSettled-more, destinations}
use srf.Instances.Settling.{FitsTypes, wire-IsSettled}
use srf.Instances.Starting.{Startable, Kept}
use srf.Instances.Resuming.{refresh_each}

-- The manifolds only send to segments of the instance.
abbrev pub Settled : {I : Type 0} → (Text → ℕ) → Instance I → Type 0
Settled types p = All (λ e. IsSettled types (keys p.segments) e.0 e.1) p.manifolds

-- The invariant of an instance between updates.
pub record IsReady {I : Type 0} (types : Text → ℕ) (p : Instance I) : Type 0 where
  pub named : Named p.manifolds
  pub settled : Settled types p
  pub startable : Startable p

pub keys-insert :
    {V : Type 0} (a x : ℕ) (v : V) (m : Map ℕ V)
    → contains x (a ∷ keys m) ≡ true
    → contains x (keys (insert a v m)) ≡ true
unfolding contains
keys-insert a x v m h = elim (Bool-cases (a == x)) [
  | inl this ↦
      find-contains x (insert a v m) v
        (ap (λ k. find k (insert a v m)) (sym ((==_iff a x).0 this)) ∙ insert-here a v m)
  | inr other ↦
      let f = contains-find x m (rw other at h) in
      find-contains x (insert a v m) f.0 (insert-there a x v m other ∙ f.1)
]

-- A refresh moves what is queued to what is attached.
refreshed-IsSettled :
    (shuffle : List ℕ → List ℕ) (types : Text → ℕ) (seen : List ℕ) (n : Text) (m : Manifold)
    → IsSettled types seen n m
    → IsSettled types seen n (refreshed shuffle m)
refreshed-IsSettled shuffle types seen n m s =
    let same : destinations (refreshed shuffle m) ≡ destinations m =
      append-nil _ ∙ attached-outputs shuffle m.output_updates m.egress in
    record {
      data_type = s.data_type;
      inputs = tt;
      outputs = tt;
      once = rw same s.once;
      known = rw same s.known;
      balanced = refl;
    }

refresh_each-IsSettled :
    (shuffle : List ℕ → List ℕ) (types : Text → ℕ) (seen : List ℕ) (ms : Map Text Manifold)
    → All (λ e. IsSettled types seen e.0 e.1) ms
    → All (λ e. IsSettled types seen e.0 e.1) (refresh_each shuffle ms)
refresh_each-IsSettled shuffle types seen [] h = tt
refresh_each-IsSettled shuffle types seen ((n, m) ∷ ms) (h, hs) =
    (refreshed-IsSettled shuffle types seen n m h, refresh_each-IsSettled shuffle types seen ms hs)

find-refresh_each :
    (shuffle : List ℕ → List ℕ) (ms : Map Text Manifold) (n : Text) (m : Manifold)
    → find n (refresh_each shuffle ms) ≡ some m
    → (k : Manifold) × (find n ms ≡ some k) × (m.port_name ≡ k.port_name)
unfolding find
find-refresh_each shuffle [] n m f = absurd cc
find-refresh_each shuffle ((b, k) ∷ ms) n m f = elim (Bool-cases (b =?= n)) [
  | inl this ↦ (
    k,
    if_true (some k) (find n ms) this,
    sym (ap (λ m. m.port_name) (some-injective (refreshed shuffle k) m (rw this at f))),
  )
  | inr other ↦
      let r = find-refresh_each shuffle ms n m (rw other at f) in
      (r.0, if_false (some k) (find n ms) other ∙ r.1, r.2)
]

-- What an update keeps ready.
pub refresh_each-IsReady :
    {I : Type 0} (shuffle : List ℕ → List ℕ) (types : Text → ℕ) (p q : Instance I)
    → IsReady types p
    → q.manifolds ≡ refresh_each shuffle p.manifolds
    → Kept p q
    → Startable q
    → IsReady types q
refresh_each-IsReady shuffle types p q r e kept startable = record {
  named = λ n m f.
      let k = find-refresh_each shuffle p.manifolds n m (ap (find n) (sym e) ∙ f) in
      k.2 ∙ r.named n k.0 k.1;
  settled = rw e (
      All-weaken (refresh_each shuffle p.manifolds)
        (λ e. IsSettled-more types (keys p.segments) (keys q.segments) e.0 e.1 λ x c.
          let f = contains-find x p.segments c in
          let g = kept x f.0 f.1 in find-contains x q.segments g.0 g.1)
        (refresh_each-IsSettled shuffle types (keys p.segments) p.manifolds r.settled));
  startable = startable;
}

missing-key : {V : Type 0} (a : ℕ) (m : Map ℕ V) → find a m ≡ none → contains a (keys m) ≡ false
missing-key a m h = elim (Bool-cases (contains a (keys m))) [
  | inl present ↦ absurd cc (h, (contains-find a m present).1)
  | inr absent ↦ absent
]

-- The manifolds of an instance with a new segment only send to its segments.
pub create_segment-Settled :
    {I : Type 0} (definition : Pipeline I) (partitions : ℕ) (type_of : I → ℕ)
    (build : ℕ → Outcome (Unit {0})) (types : Text → ℕ) (addr partition_id : ℕ) (p : Instance I)
    (s : Segment I)
    → partition_id < partitions
    → find addr p.segments ≡ none
    → construct definition partitions type_of build addr partition_id ≡ ok s
    → Distinct (port_names s.definition)
    → FitsTypes type_of types s.definition
    → segment_address s ≡ addr
    → Named p.manifolds
    → Settled types p
    → (q : Instance I) × (create_segment definition partitions type_of build addr partition_id p
        ≡ (ok tt, q))
      × Settled types q
unfolding create_segment
create_segment-Settled {I} definition partitions type_of build types addr partition_id p s l f k d t
      at n h =
    let absent = ap (λ a. contains a (keys p.segments)) at ∙ missing-key addr p.segments f in
    let w =
      wire-IsSettled type_of types s (keys p.segments) t p.manifolds d
        (construct-unconnected definition partitions type_of build addr partition_id s k) absent n
        h in
    let inside : ltb partition_id partitions ≡ true = ground arith in
    let q : Instance I = record p { manifolds = w.1; segments = insert addr w.0 p.segments } in
    (
      q,
      rw (create_segment, inside, check, and_then, f, k, w.2) refl,
      All-weaken w.1
          (λ e.
            IsSettled-more types (segment_address s ∷ keys p.segments) (keys q.segments) e.0 e.1
              λ x c.
                keys-insert addr x w.0 p.segments
                  (ap (λ a. contains x (a ∷ keys p.segments)) (sym at) ∙ c))
          w.3,
    )
