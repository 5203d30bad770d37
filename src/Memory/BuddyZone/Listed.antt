-- ===== src/Memory/BuddyZone/Listed.antt =====
-- What the linked lists of free blocks in kernel/memory/BuddyZone.cpp hold, as lists.
use duck_os.Prelude.{ℕ, ◌+◌, Bool, true, List, [], ◌∷◌, set, ◌==◌, if◌then◌else◌}
use duck_os.Memory.BuddyZone.{size_of_order, bit_index, bit_at}

-- `block_map` has a bit for each pair of buddies, `true` for `BuddyState::MIXED`. `freelist` are the blocks
-- of the list, from the head on.
pub record ListedOrder : Type 0 where
  pub block_map : List Bool
  pub freelist : List ℕ

abbrev pub bit_of : ℕ → ℕ → ListedOrder → Bool
bit_of order block bucket = bit_at bucket.block_map (bit_index order block)

abbrev pub with_bit : ℕ → ℕ → Bool → ListedOrder → ListedOrder
with_bit order block val bucket = record bucket {
  block_map = set bucket.block_map (bit_index order block) val;
}

-- The block whose bit is set is split off the one that the next order has given.
abbrev pub split_block : ℕ → ListedOrder → ℕ × List ListedOrder → ℕ × List ListedOrder
split_block order bucket (block, above) = (
  block,
  record (with_bit order block true bucket) { freelist = (block + size_of_order order) ∷ [] }
      ∷ above,
)

unfoldable pub remove : ℕ → List ℕ → List ℕ
remove block [] = []
remove block (x ∷ xs) = if x == block then xs else x ∷ remove block xs

abbrev pub buddy_of : ℕ → ℕ → ℕ → ℕ
buddy_of order block first = if block == first then first + size_of_order order else first
