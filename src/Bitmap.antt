-- ===== src/Bitmap.antt =====
-- src/public/core/bitmap.cpp: sets of cpus, and taking them in turn. A Bitmap is the hwloc bitmap it
-- owns: moved-from objects are not modelled.
pub mod Indexes
pub mod Interface
pub mod ListBits
pub mod Taking
pub mod Visits
pub mod Turns
mod Tests
use srf.Base.{
  ℕ, zero, suc, ◌+◌, ◌-◌, ◌/◌, ◌%◌, Bool, ◌≡◌, List, [], ◌∷◌, Option, none, some, Text, Outcome, ok,
  fatal, M, and_then, ◌>>=◌, ◌>>◌, pure, leb, ltb, ◌==◌, if◌then◌else◌,
}
use srf.ParseInts.{parse_ints}
use srf.Ranges.{find_ranges, print_ranges}
use srf.Bitmap.Interface.{Hwloc}

module _ {B : Type 0} ⦃hwloc : Hwloc B⦄ where
  abbrev pub new_bitmap : B
  new_bitmap = hwloc.alloc

  -- Bitmap(int)
  abbrev pub of_cpu : ℕ → B
  of_cpu cpu_id = hwloc.set cpu_id new_bitmap

  abbrev pub on : ℕ → B → B
  on id b = hwloc.set id b

  abbrev pub off : ℕ → B → B
  off id b = hwloc.clr id b

  abbrev pub only : ℕ → B → B
  only id b = hwloc.only id b

  abbrev pub next : Option ℕ → B → Option ℕ
  next prev b = hwloc.next prev b

  abbrev pub first : B → Option ℕ
  first b = next none b

  abbrev pub weight : B → ℕ
  weight b = hwloc.weight b

  -- A negative number, `none`, fails the CHECK.
  abbrev pub is_set : Option ℕ → B → Outcome Bool
  is_set none b = fatal
  is_set (some cpu_id) b = ok (hwloc.isset cpu_id b)

  abbrev pub empty : B → Bool
  empty b = hwloc.iszero b

  abbrev pub set_intersect : B → B → B
  set_intersect other b = hwloc.and b other

  abbrev pub set_union : B → B → B
  set_union other b = hwloc.or b other

  abbrev pub zero_bits : B
  zero_bits = new_bitmap

  -- Whether `b` contains the other bitmap.
  abbrev pub contains_bits : B → B → Bool
  contains_bits sub_bitmap b = hwloc.isincluded sub_bitmap b

  abbrev pub vec : B → List ℕ
  vec b = hwloc.indexes b

  unfoldable pub str : B → Text
  str b = print_ranges (find_ranges (vec b))

  abbrev pub all_on : List ℕ → B → B
  all_on [] b = b
  all_on (cpu ∷ cpus) b = all_on cpus (on cpu b)

  -- Bitmap(const std::string&)
  unfoldable pub of_text : Text → Option B
  of_text cpu_str = elim (parse_ints cpu_str) [
    | none ↦ none
    | some cpus ↦ some (all_on cpus new_bitmap)
  ]

  -- `count` more rounds; an exhausted bitmap, which a round never meets, is `fatal`.
  pub each_bit : {S : Type 0} → (ℕ → ℕ → S → S) → ℕ → ℕ → Option ℕ → B → S → Outcome S
  each_bit lambda zero i prev b s = ok s
  each_bit lambda (suc count) i prev b s = elim (next prev b) [
    | none ↦ fatal
    | some bit ↦ each_bit lambda count (suc i) (some bit) b (lambda i bit s)
  ]

  unfoldable pub for_each_bit : {S : Type 0} → (ℕ → ℕ → S → S) → B → S → Outcome S
  unfolding each_bit
  for_each_bit lambda b s = each_bit lambda (weight b) 0 none b s

  unfoldable pub append : B → B → Outcome B
  unfolding for_each_bit
  append bitmap b = for_each_bit (λ idx. λ bit. λ s. on bit s) bitmap b

  -- The loop of `pop`, with `rv` what is popped so far.
  pub pop_loop : ℕ → Option ℕ → B → M B B
  pop_loop zero prev rv b = (ok rv, b)
  pop_loop (suc nbits) prev rv b = elim (next prev b) [
    | none ↦ (fatal, b)
    | some bit ↦ pop_loop nbits (some bit) (on bit rv) (off bit b)
  ]

  unfoldable pub pop : ℕ → M B B
  unfolding pop_loop
  pop nbits b = if leb nbits (weight b) then pop_loop nbits none new_bitmap b else (fatal, b)

  pub way : ℕ → M B B
  unfolding pop
  way count b = if count == 0 then (ok new_bitmap, b) else pop count b

  -- The rounds from `i` on, of which `n` are left.
  pub split_loop : ℕ → ℕ → ℕ → ℕ → M B (List B)
  unfolding way
  split_loop div rem i zero b = (ok [], b)
  split_loop div rem i (suc n) b =
      and_then (way (div + (if ltb i rem then 1 else 0)) b)
        λ popped. split_loop div rem (suc i) n >>= λ others. pure (popped ∷ others)

  -- The source splits a copy.
  unfoldable pub split : ℕ → B → Outcome (List B)
  unfolding split_loop
  split nways b =
      if nways == 0 then fatal else (split_loop (weight b / nways) (weight b % nways) 0 nways b).0

-- m_bits, m_prev, m_index: `none` is -1.
pub record RoundRobinCpuSet (B : Type 0) : Type 0 where
  pub bits : B
  pub prev : Option ℕ
  pub index : Option ℕ

-- The next value of m_index.
abbrev pub increment : Option ℕ → ℕ
increment none = 0
increment (some i) = suc i

module _ {B : Type 0} ⦃hwloc : Hwloc B⦄ where
  abbrev pub new_round : B → RoundRobinCpuSet B
  new_round bits = record { bits = bits; prev = none; index = none }

  -- The call, which calls itself when the bits are exhausted. On an empty set it does not return:
  -- `fuel` bounds the calls.
  unfoldable pub next_pair : ℕ → RoundRobinCpuSet B → Option ((ℕ × ℕ) × RoundRobinCpuSet B)
  next_pair zero r = none
  next_pair (suc fuel) r =
      let again = next_pair fuel (record r { prev = none; index = none }) in
      elim (next r.prev r.bits) [
        | none ↦ again
        | some id ↦
            some (
              (increment r.index, id),
              record r { prev = some id; index = some (increment r.index) },
            )
      ]

  unfoldable pub reset : RoundRobinCpuSet B → RoundRobinCpuSet B
  reset r = record r { prev = none; index = none }

  unfoldable pub next_index : ℕ → RoundRobinCpuSet B → Option (ℕ × RoundRobinCpuSet B)
  unfolding next_pair
  next_index fuel r = elim (next_pair fuel r) [ none ↦ none | some (pair, r') ↦ some (pair.0, r') ]

  unfoldable pub next_id : ℕ → RoundRobinCpuSet B → Option (ℕ × RoundRobinCpuSet B)
  unfolding next_pair
  next_id fuel r = elim (next_pair fuel r) [ none ↦ none | some (pair, r') ↦ some (pair.1, r') ]

  unfoldable pub next_binding : ℕ → RoundRobinCpuSet B → Option (B × RoundRobinCpuSet B)
  unfolding next_id
  next_binding fuel r = elim (next_id fuel r) [
    | none ↦ none
    | some (id, r') ↦ some (only id new_bitmap, r')
  ]
