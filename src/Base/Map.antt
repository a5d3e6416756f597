-- ===== src/Base/Map.antt =====
-- `std::map` as a list of entries in the order of their keys.
use srf.Base.Tests.{if◌then◌else◌, Bool-cases, Option-cases, some-injective, if_true, if_false}
use srf.Base.Keys.{Key, ◌=?=◌}
use srf.Base.Sets.{contains}
use srf.Base.Lists.{All}
use mathlib.Core.Path.{◌≡◌, refl, sym, ◌∙◌}
use mathlib.Core.Bool.{true, false}
use mathlib.Core.Logic.{inl, inr}
use mathlib.Core.List.{List, [], ◌∷◌, map}
use mathlib.Core.Option.{Option, none, some}
use native.Mathlib.Omega.{arith}

abbrev pub Map : Type 0 → Type 0 → Type 0
Map K V = List (K × V)

pub =?=_refl : {K : Type 0} ⦃k : Key K⦄ (a : K) → (a =?= a) ≡ true
=?=_refl ⦃k⦄ a = (k.beq_iff a a).1 refl

module _ {K V : Type 0} ⦃k : Key K⦄ where
  unfoldable pub find : K → Map K V → Option V
  find a [] = none
  find a ((b, v) ∷ m) = if b =?= a then some v else find a m

  -- `m[a] = v`
  unfoldable pub insert : K → V → Map K V → Map K V
  insert a v [] = (a, v) ∷ []
  insert a v ((b, w) ∷ m) =
      let rest = insert a v m in
      if b =?= a then (a, v) ∷ m else if k.less a b then (a, v) ∷ (b, w) ∷ m else (b, w) ∷ rest

  unfoldable pub erase : K → Map K V → Map K V
  erase a [] = []
  erase a ((b, v) ∷ m) = let rest = erase a m in if b =?= a then rest else (b, v) ∷ rest

  abbrev pub keys : Map K V → List K
  keys = map λ e. e.0

  pub find-insert :
      (a b : K) (v : V) (m : Map K V)
      → find b (insert a v m) ≡ (if a =?= b then some v else find b m)
  unfolding find insert
  find-insert a b v [] = refl
  find-insert a b v ((c, w) ∷ m) =
      ground (arith, k.beq_iff a b, k.beq_iff c a, k.beq_iff c b, find-insert a b v m)

  pub find-erase :
      (a b : K) (m : Map K V) → find b (erase a m) ≡ (if a =?= b then none else find b m)
  unfolding find erase
  find-erase a b [] = ground arith
  find-erase a b ((c, w) ∷ m) =
      ground (arith, k.beq_iff a b, k.beq_iff c a, k.beq_iff c b, find-erase a b m)

  pub find-contains : (a : K) (m : Map K V) (v : V) → find a m ≡ some v → contains a (keys m) ≡ true
  unfolding find contains
  find-contains a [] v h = absurd cc
  find-contains a ((b, w) ∷ m) v h = elim (Bool-cases (b =?= a)) [
    | inl this ↦ rw this refl
    | inr other ↦ rw other (find-contains a m v (rw other at h))
  ]

  pub find-none : (a : K) (m : Map K V) → contains a (keys m) ≡ false → find a m ≡ none
  find-none a m h = elim (Option-cases (find a m)) [
    | inl missing ↦ missing
    | inr (v, found) ↦ absurd cc (find-contains a m v found, h)
  ]

  pub contains-find :
      (a : K) (m : Map K V) → contains a (keys m) ≡ true → (v : V) × (find a m ≡ some v)
  unfolding contains find
  contains-find a [] h = absurd cc
  contains-find a ((b, w) ∷ m) h = elim (Bool-cases (b =?= a)) [
    | inl this ↦ (w, rw this refl)
    | inr other ↦ let r = contains-find a m (rw other at h) in (r.0, rw other r.1)
  ]

  pub insert-here : (a : K) (v : V) (m : Map K V) → find a (insert a v m) ≡ some v
  insert-here a v m = find-insert a a v m ∙ if_true (some v) (find a m) (=?=_refl a)

  pub insert-there :
      (a b : K) (v : V) (m : Map K V) → (a =?= b) ≡ false → find b (insert a v m) ≡ find b m
  insert-there a b v m h = find-insert a b v m ∙ if_false (some v) (find b m) h

  -- What holds of every entry.
  pub All-insert :
      (P : K × V → Type 0) (a : K) (v : V) (m : Map K V) → All P m → P (a, v) → All P (insert a v m)
  unfolding insert
  All-insert P a v [] h new = (new, tt)
  All-insert P a v ((b, w) ∷ m) (h, hs) new = elim (Bool-cases (b =?= a)) [
    | inl this ↦ rw this (new, hs)
    | inr other ↦ elim (Bool-cases (k.less a b)) [
      | inl before ↦ rw (other, before) (new, (h, hs))
      | inr after ↦ rw (other, after) (h, All-insert P a v m hs new)
    ]
  ]

  pub All-find :
      (P : K × V → Type 0) (a : K) (v : V) (m : Map K V) → All P m → find a m ≡ some v → P (a, v)
  unfolding find
  All-find P a v [] h f = absurd cc
  All-find P a v ((b, w) ∷ m) (h, hs) f = elim (Bool-cases (b =?= a)) [
    | inl this ↦ rw (sym ((k.beq_iff b a).0 this), sym (some-injective w v (rw this at f))) h
    | inr other ↦ All-find P a v m hs (rw other at f)
  ]

  pub contains-insert :
      (a b : K) (v : V) (m : Map K V)
      → (a =?= b) ≡ false
      → contains b (keys (insert a v m)) ≡ contains b (keys m)
  unfolding insert contains
  contains-insert a b v [] h = rw h refl
  contains-insert a b v ((c, w) ∷ m) h =
      ground (arith, h, k.beq_iff c a, k.beq_iff a b, k.beq_iff c b, contains-insert a b v m h)
