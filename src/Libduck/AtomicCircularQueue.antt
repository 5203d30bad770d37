-- ===== src/Libduck/AtomicCircularQueue.antt =====
-- `AtomicCircularQueue` of libraries/libduck/AtomicCircularQueue.h: a queue between two threads, without
-- a lock.
pub mod Positions
pub mod Order
pub mod Steps
pub mod Interleaved
mod Examples
use duck_os.Prelude.{
  ℕ, ◌%◌, Bool, true, false, Option, none, some, List, [], ◌∷◌, ◌++◌, set, replicate, ◌==◌,
  if◌then◌else◌,
}
use duck_os.Prelude.Words.{add_size, sub_size}
use duck_os.Kstd.Ring.{slot}

-- A slot of the storage is `none` until a value is written to it.
pub record Shared (A : Type 0) : Type 0 where
  pub front : ℕ
  pub back : ℕ
  pub storage : List (Option A)

-- Where the thread that pushes stands: not in `push`, behind the test, and behind the write.
pub data Producer (A : Type 0) : Type 0 where
  resting : Producer A
  admitted : A → Producer A
  written : A → Producer A

-- Where the thread that pops stands: not in `pop`, behind the test, and behind the read.
pub data Consumer (A : Type 0) : Type 0 where
  outside : Consumer A
  allowed : Consumer A
  loaded : Option A → Consumer A

-- `sent` are the values that `push` has taken, and `received` those that `pop` has given.
pub record System (A : Type 0) : Type 0 where
  pub queue : Shared A
  pub producer : Producer A
  pub consumer : Consumer A
  pub sent : List A
  pub received : List (Option A)

-- What the two threads do between two switches. Each test reads one variable of the other thread, once,
-- and one of its own, which only it changes.
pub data Action (A : Type 0) : Type 0 where
  try_push : A → Action A
  write count_push try_pop load count_pop : Action A

module _ {A : Type 0} (capacity : ℕ) where
  unfoldable pub empty_system : System A
  empty_system = record {
    queue = record { front = 0; back = 0; storage = replicate capacity none };
    producer = resting;
    consumer = outside;
    sent = [];
    received = [];
  }

  unfoldable pub is_full : Shared A → Bool
  is_full q = (sub_size q.front 1 % capacity) == (q.back % capacity)

  abbrev pub nothing_there : Shared A → Bool
  nothing_there q = q.front == q.back

  unfoldable pub push_from : A → System A → System A
  unfolding is_full
  push_from x s = if is_full s.queue then s else record s { producer = admitted x }

  abbrev pub write_value : A → System A → System A
  write_value x s = record s {
    queue = record s.queue { storage = set s.queue.storage (s.queue.back % capacity) (some x) };
    producer = written x;
  }

  abbrev pub push_done : A → System A → System A
  push_done x s = record s {
    queue = record s.queue { back = add_size s.queue.back 1 };
    producer = resting;
    sent = s.sent ++ x ∷ [];
  }

  unfoldable pub pop_from : System A → System A
  pop_from s = if nothing_there s.queue then s else record s { consumer = allowed }

  abbrev pub load_value : System A → System A
  load_value s = record s { consumer = loaded (slot s.queue.storage (s.queue.front % capacity)) }

  abbrev pub pop_done : Option A → System A → System A
  pop_done o s = record s {
    queue = record s.queue { front = add_size s.queue.front 1 };
    consumer = outside;
    received = s.received ++ o ∷ [];
  }

  -- The producer's part of an action. An action that it is not ready for is not one that happens.
  unfoldable pub produce : Action A → Producer A → System A → System A
  unfolding push_from
  produce (try_push x) resting s = push_from x s
  produce write (admitted x) s = write_value x s
  produce count_push (written x) s = push_done x s
  produce a p s = s

  unfoldable pub consume : Action A → Consumer A → System A → System A
  unfolding pop_from
  consume try_pop outside s = pop_from s
  consume load allowed s = load_value s
  consume count_pop (loaded o) s = pop_done o s
  consume a c s = s

  unfoldable pub act : Action A → System A → System A
  unfolding produce consume
  act (try_push x) s = produce (try_push x) s.producer s
  act write s = produce write s.producer s
  act count_push s = produce count_push s.producer s
  act try_pop s = consume try_pop s.consumer s
  act load s = consume load s.consumer s
  act count_pop s = consume count_pop s.consumer s

  unfoldable pub run_actions : List (Action A) → System A → System A
  unfolding act
  run_actions [] s = s
  run_actions (a ∷ actions) s = run_actions actions (act a s)
