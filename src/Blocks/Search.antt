-- ===== src/Blocks/Search.antt =====
-- The search by upper_bound finds the block that contains an address.
use srf.Base.{
  ℕ, ◌+◌, ◌≤◌, ◌<◌, ◌≡◌, refl, sym, ap, ◌∙◌, false, [], ◌∷◌, Option, none, some, nat_key, ltb, ◌==◌,
  if◌then◌else◌, Bool-cases, inl, inr, arith, All, ◌⊎◌,
}
use srf.Base.Map.{insert}
use srf.Blocks.{MemoryBlock, contains_address, BlockManager, add_block, find_entry, find_block}

-- Blocks that are not empty, one after the other from `low` on, under their ends.
abbrev pub Apart : ℕ → BlockManager → Type 0
Apart low [] = Unit {0}
Apart low ((key, b) ∷ m) =
    (key ≡ b.start + b.bytes) × (0 < b.bytes) × (low ≤ b.start) × (0 < b.start) × Apart key m

-- The first block that contains the address.
abbrev pub owner : ℕ → BlockManager → Option MemoryBlock
owner ptr [] = none
owner ptr ((key, b) ∷ m) = let rest = owner ptr m in if contains_address ptr b then some b else rest

Apart-weaken : {low low' : ℕ} (m : BlockManager) → low ≤ low' → Apart low' m → Apart low m
Apart-weaken [] h a = tt
Apart-weaken ((key, b) ∷ m) h (e, p, l, z, a) = (e, p, omega arith, z, a)

owner-below : (ptr low : ℕ) (m : BlockManager) → ptr < low → Apart low m → owner ptr m ≡ none
unfolding contains_address
owner-below ptr low [] h a = refl
owner-below ptr low ((key, b) ∷ m) h (e, p, l, z, a) =
    ground (arith, owner-below ptr key m (omega arith) a)

-- In a manager whose blocks are apart, the one lookup in the map does what a search through all blocks
-- does.
pub find_block-owner :
    (ptr low : ℕ) (m : BlockManager) → Apart low m → find_block ptr m ≡ owner ptr m
unfolding find_block find_entry contains_address
find_block-owner ptr low [] a = refl
find_block-owner ptr low ((key, b) ∷ m) (e, p, l, z, a) = elim (Bool-cases (ltb ptr key)) [
  | inl here ↦ elim (Bool-cases (contains_address ptr b)) [
    | inl within ↦ rw (find_block, find_entry, here, within) refl
    | inr outside ↦
        rw (find_block, find_entry, here, outside) (sym (owner-below ptr key m (ground arith) a))
  ]
  | inr later ↦
      let outside : contains_address ptr b ≡ false = ground arith in
      rw (find_block, find_entry, later, outside) (find_block-owner ptr key m a)
]

-- Clear of all blocks.
abbrev pub Clear : MemoryBlock → BlockManager → Type 0
Clear b = All λ e. (b.start + b.bytes ≤ e.1.start) ⊎ (e.1.start + e.1.bytes ≤ b.start)

-- A block that overlaps none can be added, and then the blocks are still apart.
pub add_block-Apart :
    (b : MemoryBlock) (low : ℕ) (m : BlockManager)
    → Apart low m
    → Clear b m
    → 0 < b.bytes
    → 0 < b.start
    → low ≤ b.start
    → Apart low (add_block b m)
unfolding add_block insert
add_block-Apart b low [] a c p z l = (refl, p, l, z, tt)
add_block-Apart b low ((key, d) ∷ m) (e, q, k, y, a) (c, cs) p z l =
    elim (Bool-cases (key == (b.start + b.bytes))) [
      | inl same ↦ absurd (ground arith)
      | inr other ↦ elim (Bool-cases (ltb (b.start + b.bytes) key)) [
        | inl before ↦ rw (other, before) (refl, p, l, z, (e, q, ground arith, y, a))
        | inr behind ↦
            rw (other, behind) (e, q, k, y, add_block-Apart b key m a cs p z (ground arith))
      ]
    ]

owner-add_block :
    (ptr : ℕ) (b : MemoryBlock) (low : ℕ) (m : BlockManager)
    → Apart low m
    → Clear b m
    → 0 < b.bytes
    → owner ptr (add_block b m) ≡ (if contains_address ptr b then some b else owner ptr m)
unfolding add_block insert contains_address
owner-add_block ptr b low [] a c p = refl
owner-add_block ptr b low ((key, d) ∷ m) (e, q, k, y, a) (c, cs) p =
    ground (arith, owner-add_block ptr b key m a cs p)

-- After `add_block` of a block that is not empty, does not start at 0 and overlaps none of the blocks,
-- which are apart, they are still apart, the addresses of the block are found in it, and the other
-- ones as before.
pub find_block-add_block :
    (b : MemoryBlock) (m : BlockManager)
    → Apart 0 m
    → Clear b m
    → 0 < b.bytes
    → 0 < b.start
    → Apart 0 (add_block b m)
      × ((ptr : ℕ)
          → find_block ptr (add_block b m)
            ≡ (if contains_address ptr b then some b else find_block ptr m))
find_block-add_block b m a c p z = (
  add_block-Apart b 0 m a c p z (omega arith),
  λ ptr.
      find_block-owner ptr 0 (add_block b m) (add_block-Apart b 0 m a c p z (omega arith))
      ∙ owner-add_block ptr b 0 m a c p
      ∙ ap (λ o. if contains_address ptr b then some b else o) (sym (find_block-owner ptr 0 m a)),
)
