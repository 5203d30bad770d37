-- ===== src/Kstd/Ring.antt =====
-- The array with a front and a back that `kstd::circular_queue` (kernel/kstd/circular_queue.hpp) and
-- `kstd::queue` (kernel/kstd/queue.hpp) are made of, with the code that the two share word for word.
pub mod Holds
pub mod Takes
use duck_os.Prelude.{
  ℕ, zero, suc, ◌+◌, ◌%◌, Option, none, some, List, [], ◌∷◌, get_elem?, set, replicate, ◌==◌,
  if◌then◌else◌,
}
use duck_os.Prelude.Words.{add_size, sub_size}

-- A slot of the storage is `none` while no object lives in it.
pub record Ring (A : Type 0) : Type 0 where
  pub storage : List (Option A)
  pub capacity : ℕ
  pub size : ℕ
  pub front : ℕ
  pub back : ℕ

module _ {A : Type 0} where
  -- A read of a slot. Past the end, and where no object lives, there is none to read.
  abbrev pub slot : List (Option A) → ℕ → Option A
  slot storage i = elim (get_elem? storage i) [ none ↦ none | some x ↦ x ]

  -- The end of `push_back`, when there is room.
  unfoldable pub append_back : A → Ring A → Ring A
  append_back x r =
      let back : ℕ = if r.size == 0 then 0 else add_size r.back 1 % r.capacity in
      record r {
        storage = set r.storage back (some x);
        size = add_size r.size 1;
        front = if r.size == 0 then 0 else r.front;
        back = back;
      }

  -- `pop_front`: the object is copied out and destroyed. The size is a `size_t`, so it wraps at an
  -- empty ring.
  unfoldable pub take_front : Ring A → Option A × Ring A
  take_front r =
      let size : ℕ = sub_size r.size 1 in
      (
        slot r.storage r.front,
        record r {
          storage = set r.storage r.front none;
          size = size;
          front = if size == 0 then 0 else add_size r.front 1 % r.capacity;
          back = if size == 0 then 0 else r.back;
        },
      )

  unfoldable pub take_back : Ring A → Option A × Ring A
  take_back r =
      let size : ℕ = sub_size r.size 1 in
      (
        slot r.storage r.back,
        record r {
          storage = set r.storage r.back none;
          size = size;
          front = if size == 0 then 0 else r.front;
          back =
              if size == 0
              then 0
              else if r.back == 0
              then sub_size r.capacity 1
              else sub_size r.back 1;
        },
      )

  -- The loop that both copies run: slot `i` to slot `i`, for `n` slots.
  unfoldable pub copy_slots : ℕ → ℕ → List (Option A) → List (Option A) → List (Option A)
  copy_slots zero i from to = to
  copy_slots (suc n) i from to = copy_slots n (i + 1) from (set to i (slot from i))

  -- The copy constructor makes room for the objects only, not for the capacity.
  unfoldable pub copy : Ring A → Ring A
  unfolding copy_slots
  copy other = record other {
    storage = copy_slots other.size 0 other.storage (replicate other.size none);
  }

  -- The copy assignment, from another queue.
  unfoldable pub assign : Ring A → Ring A
  unfolding copy_slots
  assign other = record other {
    storage = copy_slots other.size 0 other.storage (replicate other.capacity none);
  }

  -- What a move leaves of the other queue.
  unfoldable pub moved_out : Ring A
  moved_out = record { storage = []; capacity = 0; size = 0; front = 0; back = 0 }

  -- The move constructor: the queue that is made, and the other.
  unfoldable pub move : Ring A → Ring A × Ring A
  unfolding moved_out
  move other = (other, moved_out)

  -- The move assignment, to a queue and from another: what it held is freed.
  unfoldable pub move_assign : Ring A → Ring A → Ring A × Ring A
  unfolding move
  move_assign r other = move other

  -- The destructor's loop over the objects from number `i` on, `n` of them.
  unfoldable pub destroy_objects : ℕ → ℕ → Ring A → List (Option A) → List (Option A)
  destroy_objects zero i r storage = storage
  destroy_objects (suc n) i r storage =
      destroy_objects n (i + 1) r (set storage (add_size r.front i % r.capacity) none)

  -- The storage that the destructor frees.
  unfoldable pub destruct : Ring A → List (Option A)
  unfolding destroy_objects
  destruct r = destroy_objects r.size 0 r r.storage
