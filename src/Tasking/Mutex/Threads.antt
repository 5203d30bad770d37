-- ===== src/Tasking/Mutex/Threads.antt =====
-- Threads that use one mutex (kernel/tasking/Mutex.cpp), one atomic step of one thread at a time.
use duck_os.Prelude.{ℕ, ◌+◌, ◌-◌, ◌<◌, ◌≡◌, ◌==◌, if◌then◌else◌}
use duck_os.Prelude.Words.{size_limit}
use duck_os.Tasking.Mutex.{
  Mutex, new_mutex, AcquireMode, Round, granted, yielded, refused, attempt, count_up, release,
}

-- Where a thread is: not in a call of the mutex, in the loop of `acquire_with_mode`, or behind it and
-- not yet counted.
pub data Phase : Type 0 where
  outside looping uncounted : Phase

-- `depth` is how many more calls of the thread have acquired the mutex than have released it.
pub record Thread : Type 0 where
  pub phase : Phase
  pub depth : ℕ

pub record World : Type 0 where
  pub mutex : Mutex
  pub threads : ℕ → Thread

unfoldable pub started : World
unfolding new_mutex
started = record { mutex = new_mutex; threads = λ t. record { phase = outside; depth = 0 } }

-- Thread `tid` becomes `thread`.
abbrev pub put : ℕ → Thread → (ℕ → Thread) → ℕ → Thread
put tid thread threads t = if t == tid then thread else threads t

abbrev pub phase_after : Round → Phase
phase_after granted = uncounted
phase_after yielded = looping
phase_after refused = outside

abbrev pub calling : ℕ → World → World
calling tid w = record w {
  threads = put tid (record { phase = looping; depth = (w.threads tid).depth }) w.threads;
}

abbrev pub attempting : AcquireMode → ℕ → World → World
attempting mode tid w = record {
  mutex = (attempt mode tid w.mutex).1;
  threads =
      put tid
        (record { phase = phase_after (attempt mode tid w.mutex).0; depth = (w.threads tid).depth })
        w.threads;
}

abbrev pub counting : ℕ → World → World
counting tid w = record {
  mutex = count_up w.mutex;
  threads = put tid (record { phase = outside; depth = (w.threads tid).depth + 1 }) w.threads;
}

abbrev pub releasing : ℕ → World → World
releasing tid w = record {
  mutex = release w.mutex;
  threads = put tid (record { phase = outside; depth = (w.threads tid).depth - 1 }) w.threads;
}

-- A thread releases only what it has acquired, as the scoped lockers do, and never holds the mutex
-- 2^32 times over.
pub data Reached : World → Type 0 where
  at_start : Reached started
  calls :
      {w : World}
      → (tid : ℕ) → (w.threads tid).phase ≡ outside
      → Reached w
      → Reached (calling tid w)
  attempts :
      {w : World}
      → (mode : AcquireMode) → (tid : ℕ) → (w.threads tid).phase ≡ looping
      → Reached w
      → Reached (attempting mode tid w)
  counts :
      {w : World}
      → (tid : ℕ) → (w.threads tid).phase ≡ uncounted
      → (w.threads tid).depth + 1 < size_limit
      → Reached w
      → Reached (counting tid w)
  releases :
      {w : World}
      → (tid : ℕ) → (w.threads tid).phase ≡ outside
      → 0 < (w.threads tid).depth
      → Reached w
      → Reached (releasing tid w)
