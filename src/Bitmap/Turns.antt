-- ===== src/Bitmap/Turns.antt =====
-- Taking the cpus of a set in turn: RoundRobinCpuSet.
use srf.Base.{
  ℕ, zero, suc, ◌≡◌, refl, ap, ◌∙◌, List, [], ◌∷◌, Option, none, some, length, Option-cases, inl,
  inr,
}
use srf.Bitmap.Indexes.{after, above, head, above-Rising, above-next}
use srf.Bitmap.Interface.{Hwloc}
use srf.Bitmap.{vec, RoundRobinCpuSet, increment, new_round, next_pair, reset}

-- The cpus with their numbers, from `i` on.
abbrev pub enumerate : ℕ → List ℕ → List (ℕ × ℕ)
enumerate i [] = []
enumerate i (x ∷ xs) = (i, x) ∷ enumerate (suc i) xs

module _ {B : Type 0} ⦃hwloc : Hwloc B⦄ where
  -- Some calls in a row; each one calls itself once at most.
  pub turns : ℕ → RoundRobinCpuSet B → Option (List (ℕ × ℕ) × RoundRobinCpuSet B)
  turns zero r = some ([], r)
  turns (suc n) r = elim (next_pair 2 r) [
    | none ↦ none
    | some (pair, r') ↦ elim (turns n r') [
      | none ↦ none
      | some (pairs, r'') ↦ some (pair ∷ pairs, r'')
    ]
  ]

  -- What the rest of a round gives, and that nothing is left after it.
  record Round (i : ℕ) (r : RoundRobinCpuSet B) (rest : List ℕ) : Type 0 where
    last : RoundRobinCpuSet B
    given : turns (length rest) r ≡ some (enumerate i rest, last)
    same : last.bits ≡ r.bits
    done : hwloc.next last.prev last.bits ≡ none

  Round-cons :
      (i x : ℕ) (rest : List ℕ) (r r' : RoundRobinCpuSet B)
      → next_pair 2 r ≡ some ((i, x), r')
      → r'.bits ≡ r.bits
      → Round (suc i) r' rest
      → Round i r (x ∷ rest)
  unfolding turns
  Round-cons i x rest r r' taken e others = record {
    last = others.last;
    given = rw (turns, taken, others.given);
    same = others.same ∙ e;
    done = others.done;
  }

  above-Round :
      (rest : List ℕ) (r : RoundRobinCpuSet B)
      → above (after r.prev) (vec r.bits) ≡ rest
      → Round (increment r.index) r rest
  unfolding turns next_pair
  above-Round [] r h = record {
    last = r;
    given = refl;
    same = refl;
    done = hwloc.next_lem r.prev r.bits ∙ ap head h;
  }
  above-Round (x ∷ rest) r h =
      Round-cons (increment r.index) x rest r next_one
        (rw (next_pair, hwloc.next_lem r.prev r.bits ∙ ap head h)) refl
        (above-Round rest next_one
          (above-next 0 (after r.prev) x (vec r.bits) rest (hwloc.indexes-Rising r.bits) h))
    where
      next_one : RoundRobinCpuSet B
      next_one = record r { prev = some x; index = some (increment r.index) }

  -- A new RoundRobinCpuSet gives every cpu of its set once, in ascending order and numbered from 0. The
  -- call after that is as if the object were reset.
  pub turns-round :
      (bits : B)
      → (last : RoundRobinCpuSet B) × (turns (length (vec bits)) (new_round bits)
          ≡ some (enumerate 0 (vec bits), last))
        × (next_pair 2 last ≡ next_pair 1 (reset last))
        × (last.bits ≡ bits)
  unfolding next_pair reset
  turns-round bits = (round.last, round.given, rw (next_pair, round.done, reset), round.same)
    where
      round : Round 0 (new_round bits) (vec bits)
      round =
          above-Round (vec bits) (new_round bits)
            (above-Rising 0 (vec bits) (hwloc.indexes-Rising bits))

  -- On a set with a cpu, every call returns.
  pub next_pair-returns :
      (r : RoundRobinCpuSet B) (x : ℕ) (xs : List ℕ)
      → vec r.bits ≡ x ∷ xs
      → (out : (ℕ × ℕ) × RoundRobinCpuSet B) × (next_pair 2 r ≡ some out)
  unfolding next_pair
  next_pair-returns r x xs h = elim (Option-cases (hwloc.next r.prev r.bits)) [
    | inl exhausted ↦
        (((0, x), record r { prev = some x; index = some 0 }), rw (next_pair, exhausted, first))
    | inr (id, found) ↦ (
      ((increment r.index, id), record r { prev = some id; index = some (increment r.index) }),
      rw (next_pair, found),
    )
  ]
    where
      first : hwloc.next none r.bits ≡ some x
      first =
          hwloc.next_lem none r.bits
          ∙ ap head (above-Rising 0 (vec r.bits) (hwloc.indexes-Rising r.bits) ∙ h)
