-- ===== src/Partitions/Cores.antt =====
-- The shares of the cores of a partition.
use srf.Base.{
  ℕ, suc, zero, ◌+◌, ◌-◌, ◌*◌, ◌/◌, ◌%◌, ◌≤◌, ◌<◌, ◌≡◌, refl, sym, ap, ◌∙◌, arith, ltb, Bool-cases,
  inl, inr, ◌⊎◌, if◌then◌else◌, if_true, if_false,
}
use native.Mathlib.Nat.{div-add-mod, mul-suc, mul-zero, mul-add, mul_comm, mod-lt}
use srf.Partitions.{div_even}

le_cases : (a b : ℕ) → a ≤ b → (a < b) ⊎ (a ≡ b)
le_cases a b h = elim (Bool-cases (ltb a b)) [
  | inl less ↦ inl (ground arith)
  | inr not_less ↦ inr (ground arith)
]

abbrev first_core : ℕ → ℕ → ℕ → ℕ
first_core r e me = if ltb me e then (r + 1) * me else (r + 1) * e + r * (me - e)

first_core-lt : (r e me : ℕ) → me < e → first_core r e me ≡ (r + 1) * me
first_core-lt r e me h = if_true ((r + 1) * me) ((r + 1) * e + r * (me - e)) (ground arith)

first_core-ge : (r e me : ℕ) → e ≤ me → first_core r e me ≡ (r + 1) * e + r * (me - e)
first_core-ge r e me h = if_false ((r + 1) * me) ((r + 1) * e + r * (me - e)) (ground arith)

first_core-step_lt : (r e me : ℕ) → me < e → first_core r e (suc me) ≡ first_core r e me + r + 1
first_core-step_lt r e me h = elim (le_cases (suc me) e h) [
  | inl less ↦
      first_core-lt r e (suc me) less ∙ mul-suc (r + 1) me ∙ omega (arith, first_core-lt r e me h)
  | inr last ↦
      first_core-ge r e (suc me) (omega (arith, last))
      ∙ ap (λ d. (r + 1) * e + r * d) none_over
      ∙ ap (λ k. (r + 1) * k + r * 0) (sym last)
      ∙ omega (arith, mul-suc (r + 1) me, first_core-lt r e me h, mul-zero r)
]
  where
    none_over : suc me - e ≡ 0
    none_over = omega arith

first_core-step_ge : (r e me : ℕ) → e ≤ me → first_core r e (suc me) ≡ first_core r e me + r
first_core-step_ge r e me h =
    first_core-ge r e (suc me) (omega arith)
    ∙ ap (λ d. (r + 1) * e + r * d) over
    ∙ omega (arith, mul-suc r (me - e), first_core-ge r e me h)
  where
    over : suc me - e ≡ suc (me - e)
    over = omega arith

first_core-up : (r e me k : ℕ) → first_core r e me ≤ first_core r e (me + k)
first_core-up r e me zero = omega (arith, ap (first_core r e) zero_plus)
  where
    zero_plus : me ≡ me + 0
    zero_plus = omega arith
first_core-up r e me (suc k) = elim (Bool-cases (ltb (me + k) e)) [
  | inl less ↦ omega (
    arith,
    first_core-up r e me k,
    first_core-step_lt r e (me + k) (ground arith),
    ap (first_core r e) plus_suc,
  )
  | inr more ↦ omega (
    arith,
    first_core-up r e me k,
    first_core-step_ge r e (me + k) (ground arith),
    ap (first_core r e) plus_suc,
  )
]
  where
    plus_suc : suc (me + k) ≡ me + suc k
    plus_suc = omega arith

first_core-end : (r e np : ℕ) → e ≤ np → first_core r e np ≡ np * r + e
first_core-end r e np h = first_core-ge r e np h ∙ total
  where
    parted : np ≡ e + (np - e)
    parted = omega arith

    total : (r + 1) * e + r * (np - e) ≡ np * r + e
    total = omega (
      arith,
      mul_comm (r + 1) e,
      mul-suc e r,
      mul_comm e r,
      mul_comm np r,
      ap (λ k. r * k) parted,
      mul-add r e (np - e),
    )

-- The shares of `np` stand one after another and within the `n` cores: each has n / np of them, and it ends where
-- the next begins, or one core before that while there are cores left over, which no share gets.
pub div_even-shares :
    (n np me : ℕ)
    → me < np
    → ((div_even n np me).1 + (div_even n np me).0 ≤ n)
      × ((div_even n np me).0 ≡ n / np)
      × (me < n % np → (div_even n np (suc me)).1 ≡ (div_even n np me).1 + (div_even n np me).0 + 1)
      × (n % np ≤ me → (div_even n np (suc me)).1 ≡ (div_even n np me).1 + (div_even n np me).0)
unfolding div_even
div_even-shares n np me h = (
  omega (arith, up, all, step_le, inside),
  refl,
  first_core-step_lt (n / np) (n % np) me,
  first_core-step_ge (n / np) (n % np) me,
)
  where
    inside : n % np ≤ np
    inside = omega (arith, mod-lt n {m = np} (omega arith))

    all : first_core (n / np) (n % np) np ≡ n
    all = first_core-end (n / np) (n % np) np inside ∙ div-add-mod n np

    to_end : suc me + (np - suc me) ≡ np
    to_end = omega arith

    up : first_core (n / np) (n % np) (suc me) ≤ first_core (n / np) (n % np) np
    up = omega (
      arith,
      first_core-up (n / np) (n % np) (suc me) (np - suc me),
      ap (first_core (n / np) (n % np)) to_end,
    )

    step_le : first_core (n / np) (n % np) me + n / np ≤ first_core (n / np) (n % np) (suc me)
    step_le = elim (Bool-cases (ltb me (n % np))) [
      | inl less ↦ omega (arith, first_core-step_lt (n / np) (n % np) me (ground arith))
      | inr more ↦ omega (arith, first_core-step_ge (n / np) (n % np) me (ground arith))
    ]
