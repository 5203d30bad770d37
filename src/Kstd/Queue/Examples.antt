-- ===== src/Kstd/Queue/Examples.antt =====
-- A run of `kstd::queue` (kernel/kstd/queue.hpp) that grows it three times.
use duck_os.Prelude.{ℕ, ◌≡◌, refl, some, List, [], ◌∷◌, arith}
use duck_os.Prelude.Outcome.{ok}
use duck_os.Kstd.Ring.Takes.{Holds-none}
use duck_os.Kstd.CircularQueue.Spec.{Op, push, pop, pop_last, unsnoc}
use duck_os.Kstd.Ring.{Ring}
use duck_os.Kstd.Queue.{init}
use duck_os.Kstd.Queue.Refine.{run_queue, run_objects, run_queue-run_objects}

abbrev calls : List (Op ℕ)
calls = push 1 ∷ push 2 ∷ pop ∷ push 3 ∷ push 4 ∷ push 5 ∷ push 6 ∷ pop_last ∷ pop ∷ pop ∷ []

abbrev no_objects : Ring ℕ
no_objects = init

objects_run : run_objects [] calls ≡ ok (some 1 ∷ some 6 ∷ some 2 ∷ some 3 ∷ [])
unfolding run_objects unsnoc
objects_run = refl

run_queue-run_objects_example : run_queue no_objects calls ≡ run_objects [] calls
run_queue-run_objects_example =
    run_queue-run_objects calls 10 no_objects [] (Holds-none no_objects refl refl (omega arith))
      (omega arith) (omega arith) (omega arith)
