-- ===== src/Instances/Loops.antt =====
-- What a loop over a list of addresses keeps and reaches.
use srf.Base.{
  ℕ, ◌≡◌, true, List, [], ◌∷◌, nat_key, M, contains, After, After-and_then, Bool-cases, inl, inr,
  arith, ==_iff, ◌==◌,
}
use srf.Instances.{for_each}

pub for_each-keeps :
    {S : Type 0} (Q : S → Type 0) (act : ℕ → M S (Unit {0})) (ks : List ℕ) (s : S)
    → ((k : ℕ) (s : S) → Q s → After Q (act k s))
    → Q s
    → After Q (for_each act ks s)
unfolding for_each
for_each-keeps Q act [] s keep q = q
for_each-keeps Q act (k ∷ ks) s keep q =
    After-and_then Q Q (act k s) (λ _. for_each act ks) (keep k s q)
      λ _ s q. for_each-keeps Q act ks s keep q

-- A loop reaches each of its elements, unless it ends before.
pub for_each-reaches :
    {S : Type 0} (P Q : S → Type 0) (act : ℕ → M S (Unit {0})) (a : ℕ) (ks : List ℕ) (s : S)
    → ((s : S) → P s → After Q (act a s))
    → ((k : ℕ) (s : S) → P s → After P (act k s))
    → ((k : ℕ) (s : S) → Q s → After Q (act k s))
    → contains a ks ≡ true
    → P s
    → After Q (for_each act ks s)
unfolding for_each contains
for_each-reaches P Q act a [] s here keep keep' c p = absurd cc
for_each-reaches P Q act a (k ∷ ks) s here keep keep' c p = elim (Bool-cases (k == a)) [
  | inl this ↦
      After-and_then Q Q (act k s) (λ _. for_each act ks) (rw ((==_iff k a).0 this) (here s p))
        λ _ s q. for_each-keeps Q act ks s keep' q
  | inr other ↦
      After-and_then P Q (act k s) (λ _. for_each act ks) (keep k s p)
        λ _ s q. for_each-reaches P Q act a ks s here keep keep' (ground arith) q
]
