-- ===== src/Bitmap/Taking.antt =====
-- Taking cpus off a bitmap: `pop` and `split`.
use srf.Base.{
  ℕ, zero, suc, ◌+◌, ◌-◌, ◌*◌, ◌/◌, ◌%◌, ◌≤◌, ◌<◌, ◌≡◌, refl, sym, ap, ◌∙◌, true, false, List, [],
  ◌∷◌, ◌++◌, Option, none, some, length, arith, Ensures, Ensures-and_then, Ensures-weaken,
  Ensures-ok, ok, ltb, leb, ◌==◌, if◌then◌else◌, All,
}
use mathlib.Core.List.{append-nil, append_assoc}
use native.Mathlib.Nat.{div-add-mod, mod-lt}
use srf.Ranges.Runs.{Rising}
use srf.Bitmap.Indexes.{
  after, take, drop, above, add, remove, head, above-Rising, Rising-weaken, add-last, All-snoc,
  All-below, remove-head, take-drop, length-take, length-drop,
}
use srf.Bitmap.Interface.{Hwloc}
use srf.Bitmap.{new_bitmap, vec, weight, on, off, pop_loop, pop, way, split_loop, split}

empty-list : (xs : List ℕ) → length xs ≡ 0 → xs ≡ []
empty-list [] h = refl
empty-list (x ∷ xs) h = absurd (omega arith)

module _ {B : Type 0} ⦃hwloc : Hwloc B⦄ where
  pop_loop-takes :
      (n m : ℕ) (prev : Option ℕ) (rv b : B) (out xs : List ℕ)
      → hwloc.indexes rv ≡ out
      → hwloc.indexes b ≡ xs
      → after prev ≤ m
      → Rising m xs
      → All (λ x. x < m) out
      → n ≤ length xs
      → Ensures
          (λ v s. (hwloc.indexes v ≡ out ++ take n xs) × (hwloc.indexes s ≡ drop n xs))
          (λ s. ⊥)
          (pop_loop n prev rv b)
  unfolding pop_loop
  pop_loop-takes zero m prev rv b out xs e f h r u l = (e ∙ sym (append-nil out), f)
  pop_loop-takes (suc n) m prev rv b out [] e f h r u l = absurd (omega arith)
  pop_loop-takes (suc n) m prev rv b out (y ∷ ys) e f h r u l = rw step (
      Ensures-weaken _ _ _ _ (pop_loop n (some y) (on y rv) (off y b))
        (pop_loop-takes n (suc y) (some y) (on y rv) (off y b) (out ++ (y ∷ [])) ys popped left
          (omega arith) r.2 (All-snoc y out below) (omega arith))
        (λ v s p. (p.0 ∙ append_assoc out (y ∷ []) (take n ys), p.1)) (λ s p. p))
    where
      below : All (λ x. x < y) out
      below = All-below m y out (r.0) u

      found : hwloc.next prev b ≡ some y
      found =
          hwloc.next_lem prev b
          ∙ ap (λ l. head (above (after prev) l)) f
          ∙ ap head (above-Rising (after prev) (y ∷ ys) (Rising-weaken (y ∷ ys) h r))

      step : pop_loop (suc n) prev rv b ≡ pop_loop n (some y) (on y rv) (off y b)
      step = rw (pop_loop, found)

      popped : hwloc.indexes (on y rv) ≡ out ++ (y ∷ [])
      popped = hwloc.indexes-set y rv r.1 ∙ ap (add y) e ∙ add-last y out below

      left : hwloc.indexes (off y b) ≡ ys
      left = hwloc.indexes-clr y b ∙ ap (remove y) f ∙ remove-head y ys

  -- `pop` takes the lowest cpus off a bitmap that has enough of them.
  pub pop-takes :
      (n : ℕ) (b : B)
      → n ≤ length (vec b)
      → Ensures (λ v s. (vec v ≡ take n (vec b)) × (vec s ≡ drop n (vec b))) (λ s. ⊥) (pop n b)
  unfolding pop
  pop-takes n b h = rw (enough) (
      pop_loop-takes n 0 none new_bitmap b [] (vec b) hwloc.indexes-alloc refl (omega arith)
        (hwloc.indexes-Rising b) tt h)
    where
      enough : leb n (hwloc.weight b) ≡ true
      enough = ground (arith, hwloc.weight_lem b)

  way-takes :
      (n : ℕ) (b : B)
      → n ≤ length (vec b)
      → Ensures (λ v s. (vec v ≡ take n (vec b)) × (vec s ≡ drop n (vec b))) (λ s. ⊥) (way n b)
  unfolding way
  way-takes zero b h = (hwloc.indexes-alloc, refl)
  way-takes (suc n) b h = rw (way, some_left) (pop-takes (suc n) b h)
    where
      some_left : (suc n == 0) ≡ false
      some_left = ground arith

  abbrev pub flat : List B → List ℕ
  flat [] = []
  flat (b ∷ bs) = vec b ++ flat bs

  -- The bitmaps have `div` or `div + 1` cpus each.
  abbrev pub Fair : ℕ → List B → Type 0
  Fair div = All λ b. (div ≤ length (vec b)) × (length (vec b) ≤ suc div)

  split_loop-shares :
      (div rem i n : ℕ) (b : B)
      → length (vec b) ≡ n * div + (rem - i)
      → rem - i ≤ n
      → Ensures
          (λ bs s. (flat bs ≡ vec b) × (length bs ≡ n) × Fair div bs)
          (λ s. ⊥)
          (split_loop div rem i n b)
  unfolding split_loop
  split_loop-shares div rem i zero b h k = (sym (empty-list (vec b) (omega arith)), refl, tt)
  split_loop-shares div rem i (suc n) b h k =
      Ensures-and_then _ _ _ (way count b) _ (way-takes count b enough) λ popped s p.
        Ensures-and_then _ _ _ (split_loop div rem (suc i) n s) _
          (split_loop-shares div rem (suc i) n s
            (rw p.1 (omega (arith, bounds, length-drop count (vec b) enough))) (omega arith))
          λ others t q. (
            ap2 p.0 (q.0 ∙ p.1) ∙ take-drop count (vec b),
            ap suc q.1,
            (rw p.0 (rw (length-take count (vec b) enough) (bounds.0, bounds.1)), q.2),
          )
    where
      count : ℕ
      count = div + (if ltb i rem then 1 else 0)

      bounds : (div ≤ count) × (count ≤ suc div) × (count + (rem - suc i) ≡ div + (rem - i))
      bounds = ground arith

      enough : count ≤ length (vec b)
      enough = omega (arith, bounds)

      ap2 : {a b c d : List ℕ} → a ≡ b → c ≡ d → a ++ c ≡ b ++ d
      ap2 e f = rw (e, f)

  -- A set that is split any positive number of ways is divided among that many sets, in order; their
  -- sizes differ by one at most.
  pub split-shares :
      (nways : ℕ) (b : B)
      → 0 < nways
      → (bs : List B) × (split nways b ≡ ok bs)
        × (flat bs ≡ vec b)
        × (length bs ≡ nways)
        × Fair (weight b / nways) bs
  unfolding split
  split-shares zero b h = absurd (omega arith)
  split-shares (suc n) b h =
      (divided.0, rw (split, some_ways) divided.1, divided.2.0, divided.2.1, divided.2.2)
    where
      w : ℕ
      w = hwloc.weight b

      some_ways : (suc n == 0) ≡ false
      some_ways = ground arith

      sizes : length (vec b) ≡ suc n * (w / suc n) + (w % suc n - 0)
      sizes = omega (arith, hwloc.weight_lem b, div-add-mod w (suc n))

      fewer : w % suc n - 0 ≤ suc n
      fewer = omega (arith, mod-lt w h)

      divided :
          (bs : List B) × ((split_loop (w / suc n) (w % suc n) 0 (suc n) b).0 ≡ ok bs)
          × ((flat bs ≡ vec b) × (length bs ≡ suc n) × Fair (w / suc n) bs)
      divided =
          Ensures-ok _ (split_loop (w / suc n) (w % suc n) 0 (suc n) b)
            (split_loop-shares (w / suc n) (w % suc n) 0 (suc n) b sizes fewer)
