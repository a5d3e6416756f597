-- ===== src/Ranges/Runs.antt =====
-- The ranges of an ascending list stand for the list.
use srf.Base.{
  ℕ, zero, suc, ◌+◌, ◌-◌, ◌%◌, ◌≤◌, ◌<◌, ◌≡◌, refl, ap, true, List, [], ◌∷◌, ◌++◌, length, arith,
  ◌==◌, Bool-cases, inl, inr, ==_iff, All,
}
use srf.ParseInts.{count_from}
use srf.Ranges.{Run, modulus, sort, insert_sorted, take_run, runs, find_ranges}

-- Strictly ascending from `m` on, in the range of T.
abbrev pub Rising : ℕ → List ℕ → Type 0
Rising m [] = Unit {0}
Rising m (x ∷ xs) = (m ≤ x) × (x < modulus) × Rising (suc x) xs

Rising-mono : {m n : ℕ} (xs : List ℕ) → m ≤ n → Rising n xs → Rising m xs
Rising-mono [] h r = tt
Rising-mono (x ∷ xs) h (a, b, c) = (omega arith, b, c)

sort-Rising : (m : ℕ) (xs : List ℕ) → Rising m xs → sort xs ≡ xs
unfolding sort
sort-Rising m [] r = refl
sort-Rising m (x ∷ xs) (a, b, c) = rw (sort-Rising (suc x) xs c) (first xs c)
  where
    first : (ys : List ℕ) → Rising (suc x) ys → insert_sorted x ys ≡ x ∷ ys
    first [] h = refl
    first (y ∷ ys) h = ground (arith, h.0)

-- The numbers that a range stands for.
abbrev pub numbers : Run → List ℕ
numbers (low, high) = count_from low (suc high - low)

abbrev pub expand : List Run → List ℕ
expand [] = []
expand (r ∷ rs) = numbers r ++ expand rs

-- What the inner loop has taken: the numbers after `high`, up to the new one.
record Took (high : ℕ) (xs : List ℕ) (out : ℕ × List ℕ) : Type 0 where
  grown : high ≤ out.0
  bounded : out.0 < modulus
  left : Rising (suc out.0) out.1
  whole : count_from (suc high) (out.0 - high) ++ out.1 ≡ xs
  shorter : length out.1 ≤ length xs

count_from-cons : (a n : ℕ) → 0 < n → count_from a n ≡ a ∷ count_from (suc a) (n - 1)
count_from-cons a zero h = absurd (omega arith)
count_from-cons a (suc n) h = let e : suc n - 1 ≡ n = omega arith in rw e

Took-cons :
    (high : ℕ) (xs : List ℕ) (out : ℕ × List ℕ)
    → Took (suc high) xs out
    → Took high (suc high ∷ xs) out
Took-cons high xs (h, rest) t = record {
  grown = omega arith;
  bounded = t.bounded;
  left = t.left;
  whole =
      rw (count_from-cons (suc high) (h - high) (omega (arith, t.grown))) (
        let e : h - high - 1 ≡ h - suc high = omega arith in rw e (ap (λ l. suc high ∷ l) t.whole));
  shorter = omega (arith, t.shorter);
}

Took-stop :
    (high : ℕ) (xs : List ℕ) → high < modulus → Rising (suc high) xs → Took high xs (high, xs)
Took-stop high xs b r = record {
  grown = omega arith;
  bounded = b;
  left = r;
  whole = let e : high - high ≡ 0 = omega arith in rw e;
  shorter = omega arith;
}

take_run-Took :
    (low i high : ℕ) (xs : List ℕ)
    → (low + i) % modulus ≡ suc high % modulus
    → high < modulus
    → Rising (suc high) xs
    → Took high xs (take_run low i high xs)
unfolding take_run
take_run-Took low i high [] e b r = Took-stop high [] b tt
take_run-Took low i high (x ∷ xs) e b (p, q, r) = elim (Bool-cases ((low + i) % modulus == x)) [
  | inl same ↦
      let at : suc high ≡ x = omega (arith, (==_iff ((low + i) % modulus) x).0 same) in
      rw (same, ← at)
        (Took-cons high xs _ (
          take_run-Took low ((i + 1) % modulus) (suc high) xs (omega arith) (omega arith)
            (rw at r)))
  | inr other ↦ rw other (Took-stop high (x ∷ xs) b (p, q, r))
]

take_run-first : (x : ℕ) (xs : List ℕ) → x < modulus → take_run x 0 x (x ∷ xs) ≡ take_run x 1 x xs
unfolding take_run
take_run-first x xs h = let e : ((x + 0) % modulus == x) ≡ true = ground arith in rw e

-- One round of the outer loop takes the numbers of its range.
numbers-Took :
    (x : ℕ) (xs : List ℕ) (out : ℕ × List ℕ) → Took x xs out → numbers (x, out.0) ++ out.1 ≡ x ∷ xs
numbers-Took x xs (h, rest) t =
    rw (count_from-cons x (suc h - x) (omega (arith, t.grown)))
      (let e : suc h - x - 1 ≡ h - x = omega arith in rw e (ap (λ l. x ∷ l) t.whole))

expand-runs :
    (fuel m : ℕ) (xs : List ℕ) → length xs ≤ fuel → Rising m xs → expand (runs fuel xs) ≡ xs
unfolding runs
expand-runs zero m [] h r = refl
expand-runs zero m (x ∷ xs) h r = absurd (omega arith)
expand-runs (suc fuel) m [] h r = refl
expand-runs (suc fuel) m (x ∷ xs) h (p, q, r) =
    let t = take_run-Took x 1 x xs (omega arith) q r in
    let (high, rest) = take_run x 1 x xs in
    rw (take_run-first x xs q) (
      rw (expand-runs fuel (suc high) rest (omega (arith, t.shorter)) t.left)
        (numbers-Took x xs _ t))

-- The ranges that `find_ranges` gives for strictly ascending 32-bit numbers stand for exactly these
-- numbers, in order.
pub expand-find_ranges : (xs : List ℕ) → Rising 0 xs → expand (find_ranges xs) ≡ xs
unfolding find_ranges
expand-find_ranges xs r = rw (sort-Rising 0 xs r) (expand-runs (length xs) 0 xs (omega arith) r)

-- A range within the numbers that `int` holds.
abbrev pub Fits : ℕ → Run → Type 0
Fits limit (low, high) = (low ≤ high) × (high < limit)

take_run-below :
    (limit low i high : ℕ) (xs : List ℕ)
    → high < limit
    → All (λ x. x < limit) xs
    → let (h, rest) = take_run low i high xs in (h < limit) × All (λ x. x < limit) rest
unfolding take_run
take_run-below limit low i high [] h b = (h, tt)
take_run-below limit low i high (x ∷ xs) h b = elim (Bool-cases ((low + i) % modulus == x)) [
  | inl same ↦ rw same (take_run-below limit low ((i + 1) % modulus) x xs b.0 b.1)
  | inr other ↦ rw other (h, b)
]

runs-Fits :
    (fuel m limit : ℕ) (xs : List ℕ)
    → Rising m xs
    → All (λ x. x < limit) xs
    → All (Fits limit) (runs fuel xs)
unfolding runs
runs-Fits zero m limit xs r b = tt
runs-Fits (suc fuel) m limit [] r b = tt
runs-Fits (suc fuel) m limit (x ∷ xs) (p, q, r) b =
    let t = take_run-Took x 1 x xs (omega arith) q r in
    let below = take_run-below limit x 1 x xs b.0 b.1 in
    rw (take_run-first x xs q) ((t.grown, below.0), runs-Fits fuel _ limit _ t.left below.1)

pub find_ranges-Fits :
    (limit : ℕ) (xs : List ℕ)
    → Rising 0 xs
    → All (λ x. x < limit) xs
    → All (Fits limit) (find_ranges xs)
unfolding find_ranges
find_ranges-Fits limit xs r b = rw (sort-Rising 0 xs r) (runs-Fits (length xs) 0 limit xs r b)
