-- ===== src/Tasking/Mutex/Examples.antt =====
-- Two threads at the mutex of kernel/tasking/Mutex.cpp.
use duck_os.Prelude.{ℕ, ◌<◌, ◌≡◌, refl, some, arith, ◌==◌, Bool-cases, inl, inr}
use duck_os.Tasking.Mutex.{new_mutex, attempt, count_up, normal, try_once, granted}
use duck_os.Tasking.Mutex.Threads.{
  World, started, calling, attempting, counting, releasing, Reached, at_start, calls, attempts,
  counts, releases,
}
use duck_os.Tasking.Mutex.Ownership.{Apart}
use duck_os.Tasking.Mutex.Exclusion.{mutual_exclusion, holding_thread-counts, attempt-unheld}

-- Thread 1 takes the mutex and thread 2 tries it.
abbrev one_holds : World
one_holds = attempting normal 2 (calling 2 (counting 1 (attempting normal 1 (calling 1 started))))

one_holds-Reached : Reached one_holds
unfolding started attempt new_mutex count_up
one_holds-Reached =
    attempts normal 2 refl
      (calls 2 refl (counts 1 refl (omega arith) (attempts normal 1 refl (calls 1 refl at_start))))

one_is_in : 0 < (one_holds.threads 1).depth
unfolding started
one_is_in = omega arith

mutual_exclusion_example : ◌≡◌ {A = ℕ} 1 1
mutual_exclusion_example = mutual_exclusion one_holds 1 1 one_holds-Reached one_is_in one_is_in

holding_thread-counts_example :
    (one_holds.mutex.holding_thread ≡ some 1)
    × (one_holds.mutex.times_locked ≡ (one_holds.threads 1).depth)
holding_thread-counts_example = holding_thread-counts one_holds 1 one_holds-Reached one_is_in

-- Thread 1 has taken the mutex and let it go.
abbrev none_holds : World
none_holds = releasing 1 (counting 1 (attempting normal 1 (calling 1 started)))

none_holds-Reached : Reached none_holds
unfolding started attempt new_mutex count_up
none_holds-Reached =
    releases 1 refl (omega arith)
      (counts 1 refl (omega arith) (attempts normal 1 refl (calls 1 refl at_start)))

all-Apart : (t : ℕ) → Apart (none_holds.threads t)
unfolding started
all-Apart t = elim (Bool-cases (t == 1)) [
  | inl e ↦ rw e (record { shallow = refl; counted = λ f. cc })
  | inr e ↦ rw e (record { shallow = refl; counted = λ f. cc })
]

attempt-unheld_example : (attempt try_once 2 none_holds.mutex).0 ≡ granted
attempt-unheld_example = attempt-unheld none_holds try_once 2 none_holds-Reached all-Apart
