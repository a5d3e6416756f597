-- ===== src/Bitmap/Interface.antt =====
-- hwloc/bitmap.h, the library that src/public/core/bitmap.cpp calls: finite bitmaps, with what the
-- calls do to the indexes that are set. `none` is the index -1; allocations succeed.
use srf.Base.{ℕ, ◌≡◌, ◌<◌, List, [], ◌∷◌, Option, length, Bool, contains, nat_key, ◌==◌}
use srf.Ranges.{modulus}
use srf.Ranges.Runs.{Rising}
use srf.Bitmap.Indexes.{add, remove, above, head, after, keep, add_all, included}

pub record Hwloc (B : Type 0) : Type 0 where
  pub alloc : B
  pub set : ℕ → B → B
  pub clr : ℕ → B → B
  pub only : ℕ → B → B
  pub next : Option ℕ → B → Option ℕ
  pub weight : B → ℕ
  pub isset : ℕ → B → Bool
  pub iszero : B → Bool
  pub and : B → B → B
  pub or : B → B → B
  -- Whether the first bitmap is included in the second one.
  pub isincluded : B → B → Bool
  -- hwloc_bitmap_foreach_begin
  pub indexes : B → List ℕ
  pub indexes-Rising : (b : B) → Rising 0 (indexes b)
  pub indexes-alloc : indexes alloc ≡ []
  pub indexes-set : (a : ℕ) (b : B) → a < modulus → indexes (set a b) ≡ add a (indexes b)
  pub indexes-clr : (a : ℕ) (b : B) → indexes (clr a b) ≡ remove a (indexes b)
  pub indexes-only : (a : ℕ) (b : B) → a < modulus → indexes (only a b) ≡ a ∷ []
  pub next_lem : (prev : Option ℕ) (b : B) → next prev b ≡ head (above (after prev) (indexes b))
  pub weight_lem : (b : B) → weight b ≡ length (indexes b)
  pub isset_lem : (a : ℕ) (b : B) → isset a b ≡ contains a (indexes b)
  pub iszero_lem : (b : B) → iszero b ≡ (length (indexes b) == 0)
  pub indexes-and : (a b : B) → indexes (and a b) ≡ keep (indexes b) (indexes a)
  pub indexes-or : (a b : B) → indexes (or a b) ≡ add_all (indexes a) (indexes b)
  pub isincluded_lem : (a b : B) → isincluded a b ≡ included (indexes a) (indexes b)
