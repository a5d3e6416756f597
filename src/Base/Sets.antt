-- ===== src/Base/Sets.antt =====
-- `std::set` where only its size and its elements matter: a list without repetitions.
use Prim.Native.Nat.{suc, ◌≤◌}
use mathlib.Core.Path.{◌≡◌, refl, ap}
use mathlib.Core.Logic.{◌≢◌, ◌↔◌, inl, inr}
use mathlib.Core.Bool.{Bool, false, true, ◌||◌}
use mathlib.Core.List.{List, [], ◌∷◌, ◌++◌}
use native.Mathlib.Omega.{arith}
use srf.Base.Tests.{if◌then◌else◌, Bool-cases}
use srf.Base.Lists.{length, All, All-weaken, All-append, All-left, All-right}
use srf.Base.Keys.{Key, ◌=?=◌}

-- No element stands twice.
abbrev pub Distinct : {K : Type 0} → List K → Type 0
Distinct [] = Unit {0}
Distinct (x ∷ xs) = All (λ y. x ≢ y) xs × Distinct xs

module _ {K : Type 0} ⦃k : Key K⦄ where
  unfoldable pub contains : K → List K → Bool
  contains a [] = false
  contains a (x ∷ xs) = x =?= a || contains a xs

  unfoldable pub set_insert : K → List K → List K
  set_insert a s = if contains a s then s else a ∷ s

  -- `std::set<K>(xs.begin(), xs.end())`
  unfoldable pub set_of : List K → List K
  unfolding set_insert contains
  set_of [] = []
  set_of (x ∷ xs) = set_insert x (set_of xs)

  contains-set_of : (a : K) (xs : List K) → contains a (set_of xs) ≡ contains a xs
  unfolding set_of contains
  contains-set_of a [] = refl
  contains-set_of a (x ∷ xs) = elim (Bool-cases (contains x (set_of xs))) [
    | inl old ↦ rw old (ground (arith, contains-set_of a xs, contains-set_of x xs, k.beq_iff x a))
    | inr new ↦ rw new (ground (arith, contains-set_of a xs))
  ]

  pub not-contains_iff : (a : K) (xs : List K) → (contains a xs ≡ false) ↔ All (λ y. a ≢ y) xs
  unfolding contains
  not-contains_iff a [] = (λ _. tt, λ _. refl)
  not-contains_iff a (x ∷ xs) = (
    λ h. (λ e. ground (arith, k.beq_iff x a), (not-contains_iff a xs).0 (ground arith)),
    λ h. ground (arith, k.beq_iff x a, (not-contains_iff a xs).1 h.1, h.0),
  )

  length-set_of-le : (xs : List K) → length (set_of xs) ≤ length xs
  unfolding set_of set_insert
  length-set_of-le [] = omega arith
  length-set_of-le (x ∷ xs) = ground (arith, length-set_of-le xs)

  -- The set is as long as the list exactly when the list repeats nothing.
  pub length-set_of_iff : (xs : List K) → (length (set_of xs) ≡ length xs) ↔ Distinct xs
  unfolding set_of set_insert
  length-set_of_iff [] = (λ _. tt, λ _. refl)
  length-set_of_iff (x ∷ xs) = elim (Bool-cases (contains x (set_of xs))) [
    | inl old ↦ rw old (
      λ h. absurd (omega (arith, length-set_of-le xs)),
      λ h. absurd (cc ((not-contains_iff x xs).1 h.0, contains-set_of x xs, old)),
    )
    | inr new ↦ rw new (
      λ h. (
        (not-contains_iff x xs).0 (ground (arith, contains-set_of x xs)),
        (length-set_of_iff xs).0 (omega arith),
      ),
      λ h. ap suc ((length-set_of_iff xs).1 h.1),
    )
  ]

  pub All-contains : (xs : List K) → All (λ x. contains x xs ≡ true) xs
  unfolding contains
  All-contains [] = tt
  All-contains (x ∷ xs) = (here x, All-weaken xs (λ y h. ground (arith, h)) (All-contains xs))
    where
      here : (x : K) → contains x (x ∷ xs) ≡ true
      here x = rw ((k.beq_iff x x).1 refl) refl

  -- The parts of a list without repetitions have none, and nothing in common.
  pub Distinct-left : (xs ys : List K) → Distinct (xs ++ ys) → Distinct xs
  Distinct-left [] ys h = tt
  Distinct-left (x ∷ xs) ys h = (All-left (λ y. x ≢ y) xs ys h.0, Distinct-left xs ys h.1)

  pub Distinct-right : (xs ys : List K) → Distinct (xs ++ ys) → Distinct ys
  Distinct-right [] ys h = h
  Distinct-right (x ∷ xs) ys h = Distinct-right xs ys h.1

  pub Distinct-disjoint :
      (xs ys : List K) → Distinct (xs ++ ys) → All (λ x. contains x ys ≡ false) xs
  Distinct-disjoint [] ys h = tt
  Distinct-disjoint (x ∷ xs) ys h =
      ((not-contains_iff x ys).1 (All-right (λ y. x ≢ y) xs ys h.0), Distinct-disjoint xs ys h.1)

  pub Distinct-snoc :
      (a : K) (xs : List K) → contains a xs ≡ false → Distinct xs → Distinct (xs ++ (a ∷ []))
  unfolding contains
  Distinct-snoc a [] h d = (tt, tt)
  Distinct-snoc a (x ∷ xs) h (d, ds) = (
    All-append (λ y. x ≢ y) xs a d (λ e. ground (arith, e, h, (k.beq_iff x a).1 e)),
    Distinct-snoc a xs (ground (arith, h)) ds,
  )
