-- ===== src/Tasking/Mutex.antt =====
-- kernel/tasking/Mutex.cpp and Mutex.h: the recursive lock of the kernel, with tasking enabled and no
-- panic. What a thread does in one piece is a function here: the atomic exchange, the atomic count, and
-- all of `release`, which runs with preemption off.
pub mod Threads
pub mod Ownership
pub mod Exclusion
mod Examples
use duck_os.Prelude.{ℕ, Bool, true, false, Option, none, some, ◌==◌, if◌then◌else◌}
use duck_os.Prelude.Words.{add_size, sub_size}

-- `holding_thread` is `none` for a thread id of -1. `times_locked` is the 32 bits of the `Atomic<int>`, which
-- is only counted up and down and tested for 1.
pub record Mutex : Type 0 where
  pub holding_thread : Option ℕ
  pub times_locked : ℕ

unfoldable pub new_mutex : Mutex
new_mutex = record { holding_thread = none; times_locked = 0 }

unfoldable pub locked : Mutex → Bool
locked m = elim m.holding_thread [ none ↦ false | some t ↦ true ]

unfoldable pub held_by : ℕ → Mutex → Bool
held_by tid m = elim m.holding_thread [ none ↦ false | some t ↦ tid == t ]

pub data AcquireMode : Type 0 where
  normal try_once : AcquireMode

-- Whether one round of the loop ends with the lock, goes round again, or gives up.
pub data Round : Type 0 where
  granted yielded refused : Round

abbrev pub on_contest : AcquireMode → Round
on_contest normal = yielded
on_contest try_once = refused

-- One round of the loop of `acquire_with_mode`: the exchange, and the tests after it.
unfoldable pub attempt : AcquireMode → ℕ → Mutex → Round × Mutex
attempt mode tid m = elim m.holding_thread [
  | none ↦ (granted, record m { holding_thread = some tid })
  | some holder ↦ (if holder == tid then granted else on_contest mode, m)
]

unfoldable pub count_up : Mutex → Mutex
count_up m = record m { times_locked = add_size m.times_locked 1 }

unfoldable pub release : Mutex → Mutex
release m = record {
  holding_thread = if m.times_locked == 1 then none else m.holding_thread;
  times_locked = sub_size m.times_locked 1;
}
