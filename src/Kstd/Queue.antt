-- ===== src/Kstd/Queue.antt =====
-- `kstd::queue` of kernel/kstd/queue.hpp: a queue that grows.
pub mod Realloc
pub mod Refine
pub mod Contains
mod Examples
use duck_os.Prelude.{
  ℕ, zero, suc, ◌+◌, ◌*◌, ◌%◌, Bool, true, false, not, Option, none, some, List, [], ◌∷◌, replicate,
  set, ltb, ◌==◌, if◌then◌else◌,
}
use duck_os.Prelude.Words.{size_limit, add_size, sub_size}
use duck_os.Prelude.Outcome.{Outcome, ok, err, fault, ◌>>=◌, ◌>>◌, assert}
use duck_os.Kstd.Ring.{Ring, slot, append_back, take_front, take_back}

-- The capacity that a full queue asks for.
abbrev pub grown : ℕ → ℕ
grown capacity = if capacity == 0 then 1 else (capacity * 2) % size_limit

module _ {A : Type 0} where
  -- No storage yet, which is a capacity of zero.
  abbrev pub init : Ring A
  init = record { storage = []; capacity = 0; size = 0; front = 0; back = 0 }

  -- `for(i = i; n more times; i++) _storage[i].~T();`
  unfoldable pub destroy_slots : ℕ → ℕ → List (Option A) → List (Option A)
  destroy_slots zero i storage = storage
  destroy_slots (suc n) i storage = destroy_slots n (i + 1) (set storage i none)

  -- The loop that moves the objects over: object `i` of the queue to slot `i`.
  unfoldable pub move_slots : ℕ → ℕ → Ring A → List (Option A) → List (Option A)
  move_slots zero i r to = to
  move_slots (suc n) i r to =
      move_slots n (i + 1) r (set to i (slot r.storage (add_size r.front i % r.capacity)))

  -- What `realloc` does first when objects are too many for the new capacity.
  unfoldable pub shorten : ℕ → Ring A → Ring A
  unfolding destroy_slots
  shorten new_capacity r =
      if ltb new_capacity r.size
      then record r {
        storage = destroy_slots (sub_size r.size new_capacity) new_capacity r.storage;
        size = new_capacity;
      }
      else r

  unfoldable pub move_all : ℕ → Ring A → Ring A
  unfolding move_slots
  move_all new_capacity r = record r {
    storage = move_slots r.size 0 r (replicate new_capacity none);
    capacity = new_capacity;
    front = 0;
    back = sub_size r.size 1;
  }

  unfoldable pub realloc : ℕ → Ring A → Ring A
  realloc new_capacity r =
      if new_capacity == r.capacity
      then r
      else if r.capacity == 0
      then record r { storage = replicate new_capacity none; capacity = new_capacity }
      else move_all new_capacity (shorten new_capacity r)

  unfoldable pub push_back : A → Ring A → Ring A
  push_back x r = append_back x (if r.size == r.capacity then realloc (grown r.capacity) r else r)

  unfoldable pub is_empty : Ring A → Bool
  is_empty r = r.size == 0

  unfoldable pub pop_front : Ring A → Outcome (Option A × Ring A)
  pop_front r = do assert (not (is_empty r)); ok (take_front r)

  unfoldable pub pop_back : Ring A → Outcome (Option A × Ring A)
  pop_back r = do assert (not (is_empty r)); ok (take_back r)

  -- The loop of `contains`. A read of a slot where no object lives is a fault, and `none` is a loop
  -- that has not ended.
  unfoldable pub scan : (A → A → Bool) → A → ℕ → ℕ → Ring A → Option (Outcome Bool)
  scan same value zero i r = none
  scan same value (suc fuel) i r =
      let next : ℕ = add_size i 1 % r.capacity in
      let rest = scan same value fuel next r in
      elim (slot r.storage i) [
        | none ↦ some fault
        | some x ↦
            if same x value
            then some (ok true)
            else if next == add_size r.back 1 % r.size
            then some (ok false)
            else rest
      ]

  unfoldable pub contains : (A → A → Bool) → A → Ring A → Option (Outcome Bool)
  unfolding scan
  contains same value r =
      if is_empty r then some (ok false) else scan same value r.capacity r.front r
