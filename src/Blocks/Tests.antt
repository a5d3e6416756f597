-- ===== src/Blocks/Tests.antt =====
-- Two blocks of 16 bytes, and one between them.
use srf.Base.{◌≡◌, refl, [], ◌∷◌, arith, true}
use srf.Blocks.{MemoryBlock, BlockManager, find_block, drop_block, owns}
use srf.Blocks.Search.{owner, find_block-owner}

abbrev low_block : MemoryBlock
low_block = record { start = 16; bytes = 16 }

abbrev high_block : MemoryBlock
high_block = record { start = 64; bytes = 16 }

abbrev middle_block : MemoryBlock
middle_block = record { start = 32; bytes = 8 }

abbrev two_blocks : BlockManager
two_blocks = (32, low_block) ∷ (80, high_block) ∷ []

owns_runs : owns 31 two_blocks ≡ true
unfolding owns find_block
owns_runs = refl

drop_runs : drop_block 40 two_blocks ≡ two_blocks
unfolding drop_block
drop_runs = refl

find_block-owner_example : find_block 70 two_blocks ≡ owner 70 two_blocks
find_block-owner_example = find_block-owner 70 0 two_blocks (omega arith)
