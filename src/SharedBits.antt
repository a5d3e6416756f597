-- ===== src/SharedBits.antt =====
-- src/internal/utils/shared_resource_bit_map.cpp: the objects that share each resource, as bitmaps.
pub mod Objects
mod Tests
use srf.Base.{ℕ, suc, Option, none, some, nat_key, Outcome, ok}
use srf.Base.Map.{Map, find, insert}
use srf.Bitmap.{new_bitmap, on, for_each_bit}
use srf.Bitmap.Interface.{Hwloc}

module _ {B : Type 0} ⦃hwloc : Hwloc B⦄ where
  abbrev pub or_new : Option B → B
  or_new none = new_bitmap
  or_new (some bits) = bits

  -- m_map[bit_index].on(object_id)
  pub switch_on : ℕ → ℕ → Map ℕ B → Map ℕ B
  switch_on object_id bit_index m = insert bit_index (on object_id (or_new (find bit_index m))) m

  unfoldable pub insert_object : B → ℕ → Map ℕ B → Outcome (Map ℕ B)
  unfolding switch_on
  insert_object bitmap object_id m =
      for_each_bit (λ idx bit_index. switch_on object_id bit_index) bitmap m

  unfoldable pub for_objects : {S : Type 0} → ℕ → (ℕ → S → S) → Map ℕ B → S → Outcome S
  for_objects bit_index lambda m s = elim (find bit_index m) [
    | none ↦ ok s
    | some bitmap ↦ for_each_bit (λ idx bit. lambda bit) bitmap s
  ]

  unfoldable pub object_count : ℕ → Map ℕ B → Outcome ℕ
  unfolding for_objects
  object_count bit_index m = for_objects bit_index (λ object count. suc count) m 0

  unfoldable pub bitmap_of : ℕ → Map ℕ B → B
  bitmap_of bit_index m = or_new (find bit_index m)
