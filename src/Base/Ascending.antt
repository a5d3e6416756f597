-- ===== src/Base/Ascending.antt =====
-- The order of the names of a map.
use srf.Base.Tests.{Bool-cases}
use srf.Base.Keys.{Text, text_key, text_less, text_beq_iff, ◌=?=◌}
use srf.Base.Lists.{All, All-weaken}
use srf.Base.Sets.{Distinct}
use srf.Base.Map.{Map, insert, keys}
use mathlib.Core.Path.{◌≡◌, refl, ap}
use mathlib.Core.Bool.{true, false}
use mathlib.Core.Logic.{◌≢◌, inl, inr}
use mathlib.Core.List.{List, [], ◌∷◌}
use native.Mathlib.Omega.{arith}

text_less_irrefl : (a : Text) → text_less a a ≡ false
text_less_irrefl [] = refl
text_less_irrefl (x ∷ xs) = ground (arith, text_less_irrefl xs)

text_less_trans :
    (a b c : Text) → text_less a b ≡ true → text_less b c ≡ true → text_less a c ≡ true
text_less_trans a [] c h i = absurd cc
text_less_trans a (y ∷ ys) [] h i = absurd cc
text_less_trans [] (y ∷ ys) (z ∷ zs) h i = refl
text_less_trans (x ∷ xs) (y ∷ ys) (z ∷ zs) h i = ground (arith, h, i, text_less_trans xs ys zs)

text_less_connex : (a b : Text) → (b =?= a) ≡ false → text_less a b ≡ false → text_less b a ≡ true
text_less_connex [] [] n h = absurd cc
text_less_connex [] (y ∷ ys) n h = absurd cc
text_less_connex (x ∷ xs) [] n h = refl
text_less_connex (x ∷ xs) (y ∷ ys) n h = ground (arith, n, h, text_less_connex xs ys)

text_less_apart : (a b : Text) → text_less a b ≡ true → a ≢ b
text_less_apart a b h e = absurd cc (h, text_less_irrefl b, ap (λ c. text_less c b) e)

-- Each text is less than those after it.
abbrev pub Ascending : List Text → Type 0
Ascending [] = Unit {0}
Ascending (x ∷ xs) = All (λ y. text_less x y ≡ true) xs × Ascending xs

pub Ascending-Distinct : (xs : List Text) → Ascending xs → Distinct xs
Ascending-Distinct [] h = tt
Ascending-Distinct (x ∷ xs) (h, hs) =
    (All-weaken xs (λ y. text_less_apart x y) h, Ascending-Distinct xs hs)

module _ {V : Type 0} where
  All-keys_insert :
      (P : Text → Type 0) (a : Text) (v : V) (m : Map Text V)
      → All P (keys m)
      → P a
      → All P (keys (insert a v m))
  unfolding insert
  All-keys_insert P a v [] h new = (new, tt)
  All-keys_insert P a v ((b, w) ∷ m) (h, hs) new = elim (Bool-cases (b =?= a)) [
    | inl this ↦ rw this (new, hs)
    | inr other ↦ elim (Bool-cases (text_less a b)) [
      | inl before ↦ rw (other, before) (new, (h, hs))
      | inr after ↦ rw (other, after) (h, All-keys_insert P a v m hs new)
    ]
  ]

  -- `insert` keeps the order.
  pub insert-Ascending :
      (a : Text) (v : V) (m : Map Text V) → Ascending (keys m) → Ascending (keys (insert a v m))
  unfolding insert
  insert-Ascending a v [] h = (tt, tt)
  insert-Ascending a v ((b, w) ∷ m) (h, hs) = elim (Bool-cases (b =?= a)) [
    | inl this ↦ rw this (rw ((text_beq_iff b a).0 this) at h, hs)
    | inr other ↦ elim (Bool-cases (text_less a b)) [
      | inl before ↦
          rw (other, before)
            ((before, All-weaken (keys m) (λ y. text_less_trans a b y before) h), (h, hs))
      | inr after ↦
          rw (other, after)
            (
              All-keys_insert (λ y. text_less b y ≡ true) a v m h
                  (text_less_connex a b other after),
              insert-Ascending a v m hs,
            )
    ]
  ]
