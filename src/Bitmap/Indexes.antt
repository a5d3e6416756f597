-- ===== src/Bitmap/Indexes.antt =====
-- Ascending lists of indexes, as the indexes of a bitmap are enumerated.
use srf.Base.{
  ℕ, zero, suc, ◌+◌, ◌≤◌, ◌<◌, ◌≡◌, refl, ap, List, [], ◌∷◌, ◌++◌, Option, none, some, length,
  arith, ltb, leb, ◌==◌, if◌then◌else◌, Bool, true, Bool-cases, inl, inr, All, contains, ◌&&◌, ◌||◌,
  nat_key, ◌=?=◌,
}
use srf.Ranges.{modulus}
use srf.Ranges.Runs.{Rising}

abbrev pub add : ℕ → List ℕ → List ℕ
add a [] = a ∷ []
add a (x ∷ xs) =
    let rest = add a xs in if ltb a x then a ∷ x ∷ xs else if a == x then x ∷ xs else x ∷ rest

abbrev pub remove : ℕ → List ℕ → List ℕ
remove a [] = []
remove a (x ∷ xs) = let rest = remove a xs in if x == a then xs else x ∷ rest

-- Those of the second list that are in the first one.
abbrev pub keep : List ℕ → List ℕ → List ℕ
keep ys [] = []
keep ys (x ∷ xs) = let rest = keep ys xs in if contains x ys then x ∷ rest else rest

abbrev pub add_all : List ℕ → List ℕ → List ℕ
add_all [] ys = ys
add_all (x ∷ xs) ys = add x (add_all xs ys)

abbrev pub included : List ℕ → List ℕ → Bool
included [] ys = true
included (x ∷ xs) ys = contains x ys && included xs ys

-- The indexes from `m` on.
abbrev pub above : ℕ → List ℕ → List ℕ
above m [] = []
above m (x ∷ xs) = let rest = above m xs in if leb m x then x ∷ xs else rest

abbrev pub head : List ℕ → Option ℕ
head [] = none
head (x ∷ xs) = some x

abbrev pub take : ℕ → List ℕ → List ℕ
take zero xs = []
take (suc n) [] = []
take (suc n) (x ∷ xs) = x ∷ take n xs

abbrev pub drop : ℕ → List ℕ → List ℕ
drop zero xs = xs
drop (suc n) [] = []
drop (suc n) (x ∷ xs) = drop n xs

-- Where the index after `prev` is searched from; `none` is -1.
abbrev pub after : Option ℕ → ℕ
after none = 0
after (some p) = suc p

pub Rising-weaken : {m n : ℕ} (xs : List ℕ) → m ≤ n → Rising n xs → Rising m xs
Rising-weaken [] h r = tt
Rising-weaken (x ∷ xs) h (a, b, c) = (omega arith, b, c)

pub above-Rising : (m : ℕ) (xs : List ℕ) → Rising m xs → above m xs ≡ xs
above-Rising m [] r = refl
above-Rising m (x ∷ xs) (a, b, c) = ground arith

above-least : (l m y : ℕ) (xs ys : List ℕ) → Rising l xs → above m xs ≡ y ∷ ys → l ≤ y
above-least l m y [] ys r h = absurd cc
above-least l m y (x ∷ xs) ys (a, b, c) h = ground (arith, above-least (suc x) m y xs ys c)

-- What is left above an index that was just taken.
pub above-next :
    (l m y : ℕ) (xs ys : List ℕ) → Rising l xs → above m xs ≡ y ∷ ys → above (suc y) xs ≡ ys
above-next l m y [] ys r h = absurd cc
above-next l m y (x ∷ xs) ys (a, b, c) h = ground (
  arith,
  above-Rising (suc x) xs c,
  above-next (suc x) m y xs ys c,
  above-least (suc x) m y xs ys c,
)

pub add-last : (a : ℕ) (xs : List ℕ) → All (λ x. x < a) xs → add a xs ≡ xs ++ (a ∷ [])
add-last a [] h = refl
add-last a (x ∷ xs) (b, c) = ground (arith, add-last a xs c)

pub All-snoc : (y : ℕ) (xs : List ℕ) → All (λ x. x < y) xs → All (λ x. x < suc y) (xs ++ (y ∷ []))
All-snoc y [] h = (omega arith, tt)
All-snoc y (x ∷ xs) (a, b) = (omega arith, All-snoc y xs b)

pub All-below : (m y : ℕ) (xs : List ℕ) → m ≤ y → All (λ x. x < m) xs → All (λ x. x < y) xs
All-below m y [] h u = tt
All-below m y (x ∷ xs) h (a, b) = (omega arith, All-below m y xs h b)

pub remove-head : (y : ℕ) (ys : List ℕ) → remove y (y ∷ ys) ≡ ys
remove-head y ys = ground arith

pub take-drop : (n : ℕ) (xs : List ℕ) → take n xs ++ drop n xs ≡ xs
take-drop zero xs = refl
take-drop (suc n) [] = refl
take-drop (suc n) (x ∷ xs) = ap (λ l. x ∷ l) (take-drop n xs)

pub length-take : (n : ℕ) (xs : List ℕ) → n ≤ length xs → length (take n xs) ≡ n
length-take zero xs h = refl
length-take (suc n) [] h = absurd (omega arith)
length-take (suc n) (x ∷ xs) h = ap suc (length-take n xs (omega arith))

pub length-drop : (n : ℕ) (xs : List ℕ) → n ≤ length xs → length (drop n xs) + n ≡ length xs
length-drop zero xs h = omega arith
length-drop (suc n) [] h = absurd (omega arith)
length-drop (suc n) (x ∷ xs) h = omega (arith, length-drop n xs (omega arith))

pub add-Rising : (m a : ℕ) (xs : List ℕ) → m ≤ a → a < modulus → Rising m xs → Rising m (add a xs)
add-Rising m a [] h b r = (h, b, tt)
add-Rising m a (x ∷ xs) h b (c, d, e) = elim (Bool-cases (ltb a x)) [
  | inl less ↦ rw less (h, b, (ground arith, d, e))
  | inr more ↦ elim (Bool-cases (a == x)) [
    | inl same ↦ rw (more, same) (c, d, e)
    | inr other ↦ rw (more, other) (c, d, add-Rising (suc x) a xs (ground arith) b e)
  ]
]

pub remove-Rising : (m a : ℕ) (xs : List ℕ) → Rising m xs → Rising m (remove a xs)
remove-Rising m a [] r = tt
remove-Rising m a (x ∷ xs) (c, d, e) = elim (Bool-cases (x == a)) [
  | inl same ↦ rw same (Rising-weaken xs (omega arith) e)
  | inr other ↦ rw other (c, d, remove-Rising (suc x) a xs e)
]

pub contains-add : (x a : ℕ) (xs : List ℕ) → contains x (add a xs) ≡ (a =?= x) || contains x xs
unfolding contains
contains-add x a [] = refl
contains-add x a (y ∷ ys) = ground (arith, contains-add x a ys)

pub keep-Rising : (m : ℕ) (ys xs : List ℕ) → Rising m xs → Rising m (keep ys xs)
keep-Rising m ys [] r = tt
keep-Rising m ys (x ∷ xs) (c, d, e) = elim (Bool-cases (contains x ys)) [
  | inl in_both ↦ rw in_both (c, d, keep-Rising (suc x) ys xs e)
  | inr other ↦ rw other (Rising-weaken (keep ys xs) (omega arith) (keep-Rising (suc x) ys xs e))
]

pub add_all-Rising :
    (m n : ℕ) (xs ys : List ℕ) → m ≤ n → Rising n xs → Rising m ys → Rising m (add_all xs ys)
add_all-Rising m n [] ys h r s = s
add_all-Rising m n (x ∷ xs) ys h (c, d, e) s =
    add-Rising m x (add_all xs ys) (omega arith) d
      (add_all-Rising m (suc x) xs ys (omega arith) e s)
