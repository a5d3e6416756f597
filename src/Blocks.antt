-- ===== src/Blocks.antt =====
-- include/srf/memory/core: memory blocks, and the manager that finds a block by an address in it. An
-- address is a number, 0 the null pointer; a block ends within the address space.
pub mod Search
mod Tests
use srf.Base.{
  ℕ, ◌+◌, ◌-◌, Bool, true, false, not, ◌&&◌, [], ◌∷◌, Option, none, some, nat_key, ltb, leb, ◌==◌,
  if◌then◌else◌, length, Outcome, ok, throws, Exception,
}
use srf.Base.Map.{Map, insert, erase}

pub record MemoryBlock : Type 0 where
  pub start : ℕ
  pub bytes : ℕ

unfoldable pub contains_address : ℕ → MemoryBlock → Bool
contains_address ptr b = not (b.start == 0) && (leb b.start ptr && ltb ptr (b.start + b.bytes))

unfoldable pub distance : ℕ → MemoryBlock → Outcome ℕ
unfolding contains_address
distance ptr b = if contains_address ptr b then ok (ptr - b.start) else throws Exception.not_owned

-- `none` is a null pointer.
unfoldable pub offset : ℕ → MemoryBlock → Option ℕ
offset n b = if ltb b.bytes n then none else some (b.start + n)

-- m_block_map, by the address after the end of each block
abbrev pub BlockManager : Type 0
BlockManager = Map ℕ MemoryBlock

unfoldable pub add_block : MemoryBlock → BlockManager → BlockManager
add_block block m = insert (block.start + block.bytes) block m

-- std::map::upper_bound: the first entry whose key is greater.
unfoldable pub find_entry : ℕ → BlockManager → Option (ℕ × MemoryBlock)
find_entry ptr [] = none
find_entry ptr ((key, b) ∷ m) =
    let rest = find_entry ptr m in if ltb ptr key then some (key, b) else rest

abbrev pub if_contains : ℕ → Option (ℕ × MemoryBlock) → Option MemoryBlock
if_contains ptr none = none
if_contains ptr (some (key, b)) = if contains_address ptr b then some b else none

unfoldable pub find_block : ℕ → BlockManager → Option MemoryBlock
unfolding find_entry contains_address
find_block ptr m = if_contains ptr (find_entry ptr m)

unfoldable pub drop_block : ℕ → BlockManager → BlockManager
unfolding find_entry contains_address
drop_block ptr m = elim (find_entry ptr m) [
  | none ↦ m
  | some (key, b) ↦ if contains_address ptr b then erase key m else m
]

abbrev pub is_some : Option MemoryBlock → Bool
is_some none = false
is_some (some b) = true

unfoldable pub owns : ℕ → BlockManager → Bool
unfolding find_block
owns addr m = is_some (find_block addr m)

unfoldable pub size : BlockManager → ℕ
size m = length m

unfoldable pub clear : BlockManager → BlockManager
clear m = []
