-- ===== src/Bitmap/ListBits.antt =====
-- Bitmaps as ascending lists: what the hwloc interface asks for can be had.
use srf.Base.{
  ℕ, ◌≡◌, refl, ◌<◌, Bool, true, false, List, [], ◌∷◌, length, arith, ltb, contains, nat_key, ◌==◌,
}
use srf.Ranges.{modulus}
use srf.Ranges.Runs.{Rising}
use srf.Bitmap.Indexes.{
  add, remove, above, head, after, add-Rising, remove-Rising, keep, keep-Rising, add_all,
  add_all-Rising, included,
}
use srf.Bitmap.Interface.{Hwloc}

abbrev pub ListBits : Type 0
ListBits = (xs : List ℕ) × Rising 0 xs

abbrev set_if : (a : ℕ) (b : ListBits) (c : Bool) → ltb a modulus ≡ c → ListBits
set_if a b true h = (add a b.0, add-Rising 0 a b.0 (omega arith) (ground arith) b.1)
set_if a b false h = b

abbrev only_if : (a : ℕ) (c : Bool) → ltb a modulus ≡ c → ListBits
only_if a true h = (a ∷ [], (omega arith, ground arith, tt))
only_if a false h = ([], tt)

abbrev set_if-adds :
    (a : ℕ) (b : ListBits) (c : Bool) (h : ltb a modulus ≡ c)
    → a < modulus
    → (set_if a b c h).0 ≡ add a b.0
set_if-adds a b true h l = refl
set_if-adds a b false h l = absurd (ground arith)

abbrev only_if-one :
    (a : ℕ) (c : Bool) (h : ltb a modulus ≡ c) → a < modulus → (only_if a c h).0 ≡ a ∷ []
only_if-one a true h l = refl
only_if-one a false h l = absurd (ground arith)

instance abbrev pub list_bits : Hwloc ListBits
list_bits = record {
  alloc = ([], tt);
  set = λ a b. set_if a b (ltb a modulus) refl;
  clr = λ a b. (remove a b.0, remove-Rising 0 a b.0 b.1);
  only = λ a b. only_if a (ltb a modulus) refl;
  next = λ prev b. head (above (after prev) b.0);
  weight = λ b. length b.0;
  isset = λ a b. contains a b.0;
  iszero = λ b. length b.0 == 0;
  and = λ a b. (keep b.0 a.0, keep-Rising 0 b.0 a.0 a.1);
  or = λ a b. (add_all a.0 b.0, add_all-Rising 0 0 a.0 b.0 (omega arith) a.1 b.1);
  isincluded = λ a b. included a.0 b.0;
  indexes = λ b. b.0;
  indexes-Rising = λ b. b.1;
  indexes-alloc = refl;
  indexes-set = λ a b h. set_if-adds a b (ltb a modulus) refl h;
  indexes-clr = λ a b. refl;
  indexes-only = λ a b h. only_if-one a (ltb a modulus) refl h;
  next_lem = λ prev b. refl;
  weight_lem = λ b. refl;
  isset_lem = λ a b. refl;
  iszero_lem = λ b. refl;
  indexes-and = λ a b. refl;
  indexes-or = λ a b. refl;
  isincluded_lem = λ a b. refl;
}
