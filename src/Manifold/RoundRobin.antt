-- ===== src/Manifold/RoundRobin.antt =====
-- The balancer writes to the channels of the pick list in turn.
use srf.Base.{
  ℕ, zero, suc, ◌+◌, ◌%◌, ◌<◌, ◌≡◌, refl, sym, ap, ◌∙◌, Bool, true, List, [], ◌∷◌, ◌++◌, map, some,
  ok, length, get_elem?, arith, Option-cases, inl, inr, some-injective,
}
use mathlib.Core.Path.{subst}
use native.Mathlib.Nat.{mod-eq_of_lt}
use mathlib.Core.List.{append_assoc, append-nil, Perm}
use mathlib.Core.List.Perm
use srf.Base.Turns.{nth, after, after_shift, after-lt, Cycles, Cycles-cons}
use srf.Manifold.{Writers, Turn, gets, ends, take_out, begin_write, end_write, take_turn, balance}

-- The items that the fibers get, in order.
abbrev pub items_of : {A : Type 0} → List (Turn A) → List A
items_of [] = []
items_of (gets item ∷ ts) = item ∷ items_of ts
items_of (ends i ∷ ts) = items_of ts

take_out-Perm :
    {B : Type 0} (i : ℕ) (xs ys : List B) (y : B) → take_out i xs ≡ some (y, ys) → Perm xs (y ∷ ys)
unfolding take_out
take_out-Perm i [] ys y h = absurd cc
take_out-Perm zero (x ∷ xs) ys y h =
    subst (λ p. Perm (x ∷ xs) (p.0 ∷ p.1)) (some-injective (x, xs) (y, ys) h) (Perm.refl (x ∷ xs))
take_out-Perm (suc i) (x ∷ xs) ys y h = elim (Option-cases (take_out i xs)) [
  | inl missing ↦ absurd cc (rw (take_out, missing) at h)
  | inr ((z, zs), found) ↦
      subst (λ p. Perm (x ∷ xs) (p.0 ∷ p.1))
        (some-injective (z, x ∷ zs) (y, ys) (rw (take_out, found) at h))
        (Perm.trans (Perm.cons x (take_out-Perm i xs zs z found)) (Perm.swap z x zs))
]

module _ {A : Type 0} (status : ℕ → A → Bool) where
  -- What is written or begun.
  abbrev pub all_writes : Writers A → List (ℕ × A)
  all_writes w = w.written ++ w.pending

  begun : A → ℕ → Writers A → Writers A
  begun item c w = record w {
    egress = record (w.egress) { next = after (length w.egress.pick_list) w.egress.next };
    pending = w.pending ++ ((c, item) ∷ []);
  }

  begin_write-begun :
      (item : A) (w : Writers A) (c : ℕ)
      → get_elem? w.egress.pick_list w.egress.next ≡ some c
      → begin_write status item w ≡ (ok tt, begun item c w)
  unfolding begin_write begun
  begin_write-begun item w c h = rw (begin_write, h) refl

  -- The end of a write only moves it.
  end_write-moves :
      ((c : ℕ) (item : A) → status c item ≡ true)
      → (i : ℕ) (w : Writers A)
      → (pending written : List (ℕ × A)) × (end_write status i w
          ≡ (ok tt, record w { pending = pending; written = written }))
        × Perm (written ++ pending) (all_writes w)
  unfolding end_write
  end_write-moves good i w = elim (Option-cases (take_out i w.pending)) [
    | inl missing ↦ (w.pending, w.written, rw (end_write, missing) refl, Perm.refl (all_writes w))
    | inr (((c, item), others), found) ↦ (
      others,
      w.written ++ ((c, item) ∷ []),
      rw (end_write, found, good c item) refl,
      rw (append_assoc w.written ((c, item) ∷ []) others) (
          Perm.append_left w.written
            (Perm.symm (take_out-Perm i w.pending others (c, item) found))),
    )
  ]

  -- Whatever the order in which any number of fibers begin and end their writes, with the next place inside the pick list
  -- and every write successful, no check fails; the items are picked, in the order in which the fibers get them, for the
  -- channels of the pick list in turn from the next place on; and what was written or is begun in the end is what was so
  -- at first and each item once, with its channel, in some order.
  pub balance-turns :
      ((c : ℕ) (item : A) → status c item ≡ true)
      → (ts : List (Turn A)) (w : Writers A) → w.egress.next < length w.egress.pick_list
      → (out : List (ℕ × A)) × (w' : Writers A) × (balance status ts w ≡ (ok tt, w'))
        × (w'.egress ≡ record (w.egress) {
          next = (w.egress.next + length (items_of ts)) % length w.egress.pick_list;
        })
        × (map (λ o. o.1) out ≡ items_of ts)
        × Cycles w.egress.pick_list (length (items_of ts)) w.egress.next (map (λ o. o.0) out)
        × Perm (w'.written ++ w'.pending) ((w.written ++ w.pending) ++ out)
  unfolding balance take_turn begun Cycles
  balance-turns good [] w h = (
    [],
    w,
    refl,
    ap (λ i. record (w.egress) { next = i }) (sym (mod-eq_of_lt (omega arith) ∙ omega arith)),
    refl,
    λ i l. absurd (omega arith),
    rw (append-nil (all_writes w)) (Perm.refl (all_writes w)),
  )
  balance-turns good (gets item ∷ ts) w h =
      let n = length w.egress.pick_list in
      let first = nth w.egress.pick_list w.egress.next h in
      let w1 = begun item first.0 w in
      let rest = balance-turns good ts w1 (after-lt n w.egress.next h) in
      (
        (first.0, item) ∷ rest.0,
        rest.1,
        rw (begin_write-begun item w first.0 first.1) rest.2,
        rest.3
            ∙ ap (λ i. record (w.egress) { next = i })
                (after_shift n w.egress.next (length (items_of ts)) h),
        ap (λ l. item ∷ l) rest.4,
        Cycles-cons w.egress.pick_list (length (items_of ts)) w.egress.next first.0
            (map (λ o. o.0) rest.0) h first.1 rest.5,
        subst (Perm (all_writes rest.1))
            (ap (λ l. l ++ rest.0) (sym (append_assoc w.written w.pending ((first.0, item) ∷ [])))
              ∙ append_assoc (all_writes w) ((first.0, item) ∷ []) rest.0)
            rest.6,
      )
  balance-turns good (ends i ∷ ts) w h =
      let m = end_write-moves good i w in
      let rest = balance-turns good ts (record w { pending = m.0; written = m.1 }) h in
      (
        rest.0,
        rest.1,
        rw m.2 rest.2,
        rest.3,
        rest.4,
        rest.5,
        Perm.trans rest.6 (Perm.append_right rest.0 m.3),
      )
