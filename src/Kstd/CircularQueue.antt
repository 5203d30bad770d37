-- ===== src/Kstd/CircularQueue.antt =====
-- `kstd::circular_queue` of kernel/kstd/circular_queue.hpp: a queue of fixed capacity.
pub mod Refine
pub mod Spec
pub mod Copy
mod Examples
use duck_os.Prelude.{
  ℕ, zero, suc, ◌+◌, Bool, true, false, Option, none, some, List, [], ◌∷◌, replicate, set, ◌==◌,
  if◌then◌else◌,
}
use duck_os.Kstd.Ring.{Ring, slot, append_back, take_front, take_back}

module _ {A : Type 0} where
  unfoldable pub init : ℕ → Ring A
  init capacity = record {
    storage = replicate capacity none;
    capacity = capacity;
    size = 0;
    front = 0;
    back = 0;
  }

  unfoldable pub push_back : A → Ring A → Ring A × Bool
  push_back x r = if r.size == r.capacity then (r, false) else (append_back x r, true)

  abbrev pub pop_front : Ring A → Option A × Ring A
  pop_front r = take_front r

  abbrev pub pop_back : Ring A → Option A × Ring A
  pop_back r = take_back r

  unfoldable pub front : Ring A → Option A
  front r = slot r.storage r.front

  unfoldable pub back : Ring A → Option A
  back r = slot r.storage r.back

  unfoldable pub is_empty : Ring A → Bool
  is_empty r = r.size == 0
