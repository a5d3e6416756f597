-- ===== src/Instances/Consistency.antt =====
-- The manifolds stay consistent while a segment is created.
use srf.Base.{
  ℕ, ◌≡◌, refl, sym, ap, ◌∙◌, true, false, not, List, [], ◌∷◌, ◌++◌, Text, text_key, nat_key,
  contains, All, All-weaken, All-append, Distinct, Distinct-snoc, Bool-cases, inl, inr, arith, ◌==◌,
  ==_iff,
}
use mathlib.Core.List.{append_assoc, append-nil}
use srf.Manifold.{Manifold, Port, make_manifold}
use srf.Manifold.Updates.{Fit, addresses, IsConsistent}
use srf.Instances.Wiring.{queue}

-- The addresses that a manifold sends to, or will.
abbrev pub destinations : Manifold → List ℕ
destinations m = m.egress.outputs ++ addresses m.output_updates

-- A manifold whose ports carry the type of its name, and which sends to each of some segments at most once.
pub record IsSettled (types : Text → ℕ) (seen : List ℕ) (n : Text) (m : Manifold) : Type 0 where
  pub data_type : m.data_type ≡ types n
  pub inputs : Fit (types n) m.input_updates
  pub outputs : Fit (types n) m.output_updates
  pub once : Distinct (destinations m)
  pub known : All (λ x. contains x seen ≡ true) (destinations m)
  pub balanced : m.balancer ≡ not m.runner

pub make_manifold-IsSettled :
    (types : Text → ℕ) (seen : List ℕ) (n : Text) (type : ℕ)
    → type ≡ types n
    → IsSettled types seen n (make_manifold n type)
make_manifold-IsSettled types seen n type e = record {
  data_type = e;
  inputs = tt;
  outputs = tt;
  once = tt;
  known = tt;
  balanced = refl;
}

pub IsSettled-IsConsistent :
    (shuffle : List ℕ → List ℕ) (types : Text → ℕ) (seen : List ℕ) (n : Text) (m : Manifold)
    → IsSettled types seen n m
    → IsConsistent shuffle m
IsSettled-IsConsistent shuffle types seen n m s =
    (rw s.data_type s.inputs, rw s.data_type s.outputs, s.once, s.balanced)

-- More segments.
pub IsSettled-more :
    (types : Text → ℕ) (seen seen' : List ℕ) (n : Text) (m : Manifold)
    → ((x : ℕ) → contains x seen ≡ true → contains x seen' ≡ true)
    → IsSettled types seen n m
    → IsSettled types seen' n m
IsSettled-more types seen seen' n m more s = record {
  data_type = s.data_type;
  inputs = s.inputs;
  outputs = s.outputs;
  once = s.once;
  known = All-weaken (destinations m) more s.known;
  balanced = s.balanced;
}

pub IsSettled-weaken :
    (types : Text → ℕ) (a : ℕ) (seen : List ℕ) (n : Text) (m : Manifold)
    → IsSettled types seen n m
    → IsSettled types (a ∷ seen) n m
unfolding contains
IsSettled-weaken types a seen n m =
    IsSettled-more types seen (a ∷ seen) n m λ x h. ground (arith, h)

pub not-known :
    (a : ℕ) (seen xs : List ℕ)
    → contains a seen ≡ false
    → All (λ x. contains x seen ≡ true) xs
    → contains a xs ≡ false
unfolding contains
not-known a seen [] h k = refl
not-known a seen (x ∷ xs) h (k, ks) = elim (Bool-cases (x == a)) [
  | inl this ↦ absurd cc (h, k, (==_iff x a).0 this)
  | inr other ↦ rw other (not-known a seen xs h ks)
]

pub add-input :
    (types : Text → ℕ) (seen : List ℕ) (n : Text) (m : Manifold) (p : Port)
    → p.data_type ≡ types n
    → IsSettled types seen n m
    → IsSettled types seen n (queue (p ∷ []) [] m)
add-input types seen n m p e s =
    let same : m.output_updates ++ [] ≡ m.output_updates = append-nil m.output_updates in
    record {
      data_type = s.data_type;
      inputs = All-append (λ p. p.data_type ≡ types n) m.input_updates p s.inputs e;
      outputs = rw same s.outputs;
      once = rw same s.once;
      known = rw same s.known;
      balanced = s.balanced;
    }

addresses-snoc :
    (ps : List Port) (p : Port) → addresses (ps ++ (p ∷ [])) ≡ addresses ps ++ (p.address ∷ [])
addresses-snoc [] p = refl
addresses-snoc (q ∷ ps) p = ap (λ l. q.address ∷ l) (addresses-snoc ps p)

pub add-output :
    (types : Text → ℕ) (a : ℕ) (seen : List ℕ) (n : Text) (m : Manifold) (p : Port)
    → p.data_type ≡ types n
    → p.address ≡ a
    → contains a (destinations m) ≡ false
    → IsSettled types (a ∷ seen) n m
    → IsSettled types (a ∷ seen) n (queue [] (p ∷ []) m)
unfolding contains
add-output types a seen n m p e at fresh s =
    let more : destinations (queue [] (p ∷ []) m) ≡ destinations m ++ (a ∷ []) =
      ap (λ l. m.egress.outputs ++ l) (addresses-snoc m.output_updates p)
      ∙ ap (λ b. m.egress.outputs ++ (addresses m.output_updates ++ (b ∷ []))) at
      ∙ sym (append_assoc m.egress.outputs (addresses m.output_updates) (a ∷ [])) in
    record {
      data_type = s.data_type;
      inputs = rw (append-nil m.input_updates) s.inputs;
      outputs = All-append (λ p. p.data_type ≡ types n) m.output_updates p s.outputs e;
      once = rw more (Distinct-snoc a (destinations m) fresh s.once);
      known = rw more (
          All-append (λ x. contains x (a ∷ seen) ≡ true) (destinations m) a s.known (ground arith));
      balanced = s.balanced;
    }
