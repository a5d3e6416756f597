-- ===== src/Base/Turns.antt =====
-- Going round a list: the place after each place, and lists that repeat another in a circle.
use Prim.Native.Nat.{ℕ, zero, suc, ◌+◌, ◌%◌, ◌<◌}
use mathlib.Core.Path.{◌≡◌, refl, sym, ap, ◌∙◌}
use mathlib.Core.Logic.{◌⊎◌, inl, inr}
use mathlib.Core.List.{List, [], ◌∷◌}
use mathlib.Core.Option.{some}
use native.Mathlib.Omega.{arith}
use native.Mathlib.Nat.{mod-eq_of_lt, add-mod_left}
use srf.Base.Tests.{if◌then◌else◌, ◌==◌, Bool-cases}
use srf.Base.Lists.{length, get_elem?}

pub nth :
    {A : Type 0} (items : List A) (i : ℕ)
    → i < length items
    → (q : A) × (get_elem? items i ≡ some q)
nth [] i h = absurd (omega arith)
nth (q ∷ qs) zero h = (q, refl)
nth (q ∷ qs) (suc i) h = nth qs i (omega arith)

abbrev pub after : ℕ → ℕ → ℕ
after n o = if suc o == n then 0 else suc o

after_cases :
    (n o : ℕ) → o < n → ((suc o ≡ n) × (after n o ≡ 0)) ⊎ ((suc o < n) × (after n o ≡ suc o))
after_cases n o h = elim (Bool-cases (suc o == n)) [
  | inl last ↦ inl (ground arith, rw last)
  | inr more ↦ inr (ground arith, rw more)
]

pub after_shift : (n o j : ℕ) → o < n → (after n o + j) % n ≡ (o + suc j) % n
after_shift n o j h = elim (after_cases n o h) [
  | inl (last, e) ↦
      rw e (sym (ap (λ k. k % n) (omega arith) ∙ add-mod_left n j ∙ ap (λ k. k % n) zero_plus))
  | inr (more, e) ↦ rw e (ap (λ k. k % n) (omega arith))
]
  where
    zero_plus : j ≡ 0 + j
    zero_plus = omega arith

pub after-lt : (n o : ℕ) → o < n → after n o < n
after-lt n o h = elim (after_cases n o h) [
  | inl (last, e) ↦ omega (arith, e)
  | inr (more, e) ↦ omega (arith, e)
]

unfoldable pub Cycles : {A : Type 0} → List A → ℕ → ℕ → List A → Type 0
Cycles items count offset out =
    (i : ℕ) → i < count → get_elem? out i ≡ get_elem? items ((offset + i) % length items)

pub Cycles-cons :
    {A : Type 0} (items : List A) (count offset : ℕ) (q : A) (out : List A)
    → offset < length items
    → get_elem? items offset ≡ some q
    → Cycles items count (after (length items) offset) out
    → Cycles items (suc count) offset (q ∷ out)
unfolding Cycles
Cycles-cons items count offset q out h e c zero l =
    sym e ∙ ap (get_elem? items) (sym (mod-eq_of_lt (omega arith) ∙ omega arith))
Cycles-cons items count offset q out h e c (suc i) l =
    c i (omega arith) ∙ ap (get_elem? items) (after_shift (length items) offset i h)
