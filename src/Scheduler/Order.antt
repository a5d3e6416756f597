-- ===== src/Scheduler/Order.antt =====
-- The ready queue is in the order of the priorities, and first in, first out among equal ones.
use srf.Base.{
  ℕ, ◌≤◌, ◌<◌, ◌≡◌, refl, sym, ap, ◌∙◌, false, List, [], ◌∷◌, ◌++◌, arith, ltb, ◌==◌, if◌then◌else◌,
  Bool-cases, inl, inr, All, contains, nat_key,
}
use mathlib.Core.Path.{subst}
use mathlib.Core.List.{append-nil}
use srf.Scheduler.{
  Scheduler, insert_ready, awakened, unlink, property_change, with_priority, set_priority,
}

abbrev pub Sorted : (ℕ → ℕ) → List ℕ → Type 0
Sorted priority [] = Unit {0}
Sorted priority (c ∷ cs) = All (λ d. priority d ≤ priority c) cs × Sorted priority cs

-- The fibers of one priority, in order.
abbrev pub at_priority : (ℕ → ℕ) → ℕ → List ℕ → List ℕ
at_priority priority k [] = []
at_priority priority k (c ∷ cs) =
    let rest = at_priority priority k cs in if priority c == k then c ∷ rest else rest

insert_ready-below :
    (priority : ℕ → ℕ) (n ctx : ℕ) (cs : List ℕ)
    → priority ctx ≤ n
    → All (λ d. priority d ≤ n) cs
    → All (λ d. priority d ≤ n) (insert_ready priority ctx cs)
insert_ready-below priority n ctx [] h a = (h, tt)
insert_ready-below priority n ctx (c ∷ cs) h (b, a) =
    elim (Bool-cases (ltb (priority c) (priority ctx))) [
      | inl lower ↦ rw lower (h, (b, a))
      | inr higher ↦ rw higher (b, insert_ready-below priority n ctx cs h a)
    ]

All-below :
    (priority : ℕ → ℕ) (m n : ℕ) (cs : List ℕ)
    → m ≤ n
    → All (λ d. priority d ≤ m) cs
    → All (λ d. priority d ≤ n) cs
All-below priority m n [] h a = tt
All-below priority m n (c ∷ cs) h (b, a) = (omega arith, All-below priority m n cs h a)

insert_ready-Sorted :
    (priority : ℕ → ℕ) (ctx : ℕ) (cs : List ℕ)
    → Sorted priority cs
    → Sorted priority (insert_ready priority ctx cs)
insert_ready-Sorted priority ctx [] s = (tt, tt)
insert_ready-Sorted priority ctx (c ∷ cs) (a, s) =
    elim (Bool-cases (ltb (priority c) (priority ctx))) [
      | inl lower ↦
          let less : priority c ≤ priority ctx = ground arith in
          rw lower ((less, All-below priority (priority c) (priority ctx) cs less a), (a, s))
      | inr higher ↦ rw higher (
        insert_ready-below priority (priority c) ctx cs (ground arith) a,
        insert_ready-Sorted priority ctx cs s,
      )
    ]

at_priority-below :
    (priority : ℕ → ℕ) (k n : ℕ) (cs : List ℕ)
    → n < k
    → All (λ d. priority d ≤ n) cs
    → at_priority priority k cs ≡ []
at_priority-below priority k n [] h a = refl
at_priority-below priority k n (c ∷ cs) h (b, a) =
    ground (arith, at_priority-below priority k n cs h a)

at_priority-insert_ready :
    (priority : ℕ → ℕ) (k ctx : ℕ) (cs : List ℕ)
    → Sorted priority cs
    → at_priority priority k (insert_ready priority ctx cs)
      ≡ at_priority priority k cs ++ (if priority ctx == k then ctx ∷ [] else [])
at_priority-insert_ready priority k ctx [] s = refl
at_priority-insert_ready priority k ctx (c ∷ cs) (a, s) =
    elim (Bool-cases (ltb (priority c) (priority ctx))) [
      | inl lower ↦ elim (Bool-cases (priority ctx == k)) [
        | inl same ↦
            rw (lower, same)
              (ap (λ l. ctx ∷ l) (none_left (ground arith))
                ∙ ap (λ l. l ++ (ctx ∷ [])) (sym (none_left (ground arith))))
        | inr other ↦ rw (lower, other) (sym (append-nil (at_priority priority k (c ∷ cs))))
      ]
      | inr higher ↦ elim (Bool-cases (priority c == k)) [
        | inl same ↦
            rw (higher, same) (ap (λ l. c ∷ l) (at_priority-insert_ready priority k ctx cs s))
        | inr other ↦ rw (higher, other) (at_priority-insert_ready priority k ctx cs s)
      ]
    ]
  where
    none_left : priority c < k → at_priority priority k (c ∷ cs) ≡ []
    none_left h = at_priority-below priority k (priority c) (c ∷ cs) h (omega arith, a)

-- A sorted ready queue stays sorted when a fiber is awakened, and the fiber goes behind all others of
-- its priority, while the order within each priority is kept.
pub awakened-in_order :
    (ctx k : ℕ) (s : Scheduler)
    → Sorted s.priority s.rqueue
    → Sorted s.priority (awakened ctx s).rqueue
      × (at_priority s.priority k (awakened ctx s).rqueue
          ≡ at_priority s.priority k s.rqueue ++ (if s.priority ctx == k then ctx ∷ [] else []))
unfolding awakened
awakened-in_order ctx k s h = (
  insert_ready-Sorted s.priority ctx s.rqueue h,
  at_priority-insert_ready s.priority k ctx s.rqueue h,
)

unlink-below :
    (priority : ℕ → ℕ) (ctx p n : ℕ) (cs : List ℕ)
    → All (λ d. priority d ≤ n) cs
    → All (λ d. with_priority ctx p priority d ≤ n) (unlink ctx cs)
unlink-below priority ctx p n [] a = tt
unlink-below priority ctx p n (c ∷ cs) (b, a) = elim (Bool-cases (c == ctx)) [
  | inl same ↦ rw same (unlink-below priority ctx p n cs a)
  | inr other ↦ rw other ((ground arith), unlink-below priority ctx p n cs a)
]

unlink-Sorted :
    (priority : ℕ → ℕ) (ctx p : ℕ) (cs : List ℕ)
    → Sorted priority cs
    → Sorted (with_priority ctx p priority) (unlink ctx cs)
unlink-Sorted priority ctx p [] s = tt
unlink-Sorted priority ctx p (c ∷ cs) (a, s) = elim (Bool-cases (c == ctx)) [
  | inl same ↦ rw same (unlink-Sorted priority ctx p cs s)
  | inr other ↦ rw other (
    subst (λ n. All (λ d. with_priority ctx p priority d ≤ n) (unlink ctx cs))
        (sym (unchanged other)) (unlink-below priority ctx p (priority c) cs a),
    unlink-Sorted priority ctx p cs s,
  )
]
  where
    unchanged : (c == ctx) ≡ false → with_priority ctx p priority c ≡ priority c
    unchanged e = rw e

unlink-absent : (ctx : ℕ) (cs : List ℕ) → contains ctx cs ≡ false → unlink ctx cs ≡ cs
unfolding contains
unlink-absent ctx [] h = refl
unlink-absent ctx (c ∷ cs) h = ground (arith, unlink-absent ctx cs)

unlinked-Sorted :
    (priority : ℕ → ℕ) (ctx p : ℕ) (cs : List ℕ)
    → contains ctx cs ≡ false
    → Sorted priority cs
    → Sorted (with_priority ctx p priority) cs
unlinked-Sorted priority ctx p cs h s =
    subst (Sorted (with_priority ctx p priority)) (unlink-absent ctx cs h)
      (unlink-Sorted priority ctx p cs s)

-- After a change of a fiber's priority, a ready queue that was sorted is sorted by the new priorities,
-- whether or not the fiber is in it.
pub set_priority-Sorted :
    (ctx p : ℕ) (s : Scheduler)
    → Sorted s.priority s.rqueue
    → Sorted (set_priority ctx p s).priority (set_priority ctx p s).rqueue
unfolding set_priority property_change awakened
set_priority-Sorted ctx p s h = elim (Bool-cases (s.priority ctx == p)) [
  | inl same ↦ rw same h
  | inr other ↦ elim (Bool-cases (contains ctx s.rqueue)) [
    | inl linked ↦
        rw (other, linked)
          (insert_ready-Sorted (with_priority ctx p s.priority) ctx (unlink ctx s.rqueue)
            (unlink-Sorted s.priority ctx p s.rqueue h))
    | inr free ↦ rw (other, free) (unlinked-Sorted s.priority ctx p s.rqueue free h)
  ]
]
