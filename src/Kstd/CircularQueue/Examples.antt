-- ===== src/Kstd/CircularQueue/Examples.antt =====
-- Runs of `kstd::circular_queue` (kernel/kstd/circular_queue.hpp), and its theorems at them.
use duck_os.Prelude.{
  ℕ, zero, suc, ◌<◌, ◌≡◌, refl, inl, inr, true, false, none, some, List, [], ◌∷◌, arith, get_elem?,
}
use duck_os.Kstd.Ring.{Ring, copy, moved_out, move_assign, destruct}
use duck_os.Kstd.Ring.Holds.{Holds, around}
use duck_os.Kstd.CircularQueue.{front}
use duck_os.Kstd.CircularQueue.Spec.{Op, push, pop, pop_last, pushed, popped, run, run_list, unsnoc}
use duck_os.Kstd.CircularQueue.Refine.{run_refines}
use duck_os.Kstd.CircularQueue.Copy.{copy-unreadable}

-- Three slots, the objects 8 and 9 round the end of them.
abbrev wrapped : Ring ℕ
wrapped = record {
  storage = some 9 ∷ none ∷ some 8 ∷ [];
  capacity = 3;
  size = 2;
  front = 2;
  back = 0;
}

wrapped-Holds : Holds wrapped (8 ∷ 9 ∷ [])
wrapped-Holds = record {
  sized = refl;
  fits = omega arith;
  room = refl;
  small = omega arith;
  front_in = inl (omega arith);
  back_at = inr refl;
  slots = two_slots;
}
  where
    two_slots :
        (k : ℕ) → k < 2 → get_elem? wrapped.storage (around 3 2 k) ≡ some (get_elem? (8 ∷ 9 ∷ []) k)
    two_slots zero h = refl
    two_slots (suc zero) h = refl
    two_slots (suc (suc k)) h = absurd (omega arith)

abbrev calls : List (Op ℕ)
calls = pop ∷ push 4 ∷ push 5 ∷ push 6 ∷ pop_last ∷ pop ∷ pop ∷ pop ∷ []

calls_run :
    run_list 3 (8 ∷ 9 ∷ []) calls
    ≡ popped (some 8)
      ∷ pushed true
      ∷ pushed true
      ∷ pushed false
      ∷ popped (some 5)
      ∷ popped (some 9)
      ∷ popped (some 4)
      ∷ popped none
      ∷ []
unfolding run_list unsnoc
calls_run = refl

run_refines_example : run wrapped calls ≡ run_list 3 (8 ∷ 9 ∷ []) calls
run_refines_example = run_refines calls wrapped (8 ∷ 9 ∷ []) wrapped-Holds

copy-unreadable_example :
    ((copy wrapped).size ≡ 2) × (get_elem? (copy wrapped).storage (copy wrapped).front ≡ none)
copy-unreadable_example =
    copy-unreadable wrapped (8 ∷ 9 ∷ []) wrapped-Holds (omega arith) (omega arith)

-- The destructor goes round the end of the storage, where the objects are.
destruct-wrapped : destruct wrapped ≡ none ∷ none ∷ none ∷ []
unfolding destruct
destruct-wrapped = refl

-- A moved queue keeps its slots, so its objects stay at their places behind the front.
move_assign-wrapped :
    (front (move_assign moved_out wrapped).0 ≡ some 8)
    × ((move_assign moved_out wrapped).1 ≡ moved_out)
unfolding front move_assign
move_assign-wrapped = (refl, refl)
