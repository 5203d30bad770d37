-- ===== src/Libduck/AtomicCircularQueue/Examples.antt =====
-- Runs of libraries/libduck/AtomicCircularQueue.h, and its theorem at one.
use duck_os.Prelude.{ℕ, ◌≡◌, refl, some, List, [], ◌∷◌, arith}
use duck_os.Libduck.AtomicCircularQueue.{
  Action, try_push, write, count_push, try_pop, load, count_pop, empty_system, run_actions,
}
use duck_os.Libduck.AtomicCircularQueue.Interleaved.{Fifo, run_actions-Fifo}

-- A pop between the pieces of a push.
abbrev mixed : List (Action ℕ)
mixed =
    try_push 7
    ∷ write
    ∷ try_pop
    ∷ count_push
    ∷ try_push 8
    ∷ try_pop
    ∷ write
    ∷ load
    ∷ count_push
    ∷ count_pop
    ∷ []

mixed-received : (run_actions 4 mixed (empty_system 4)).received ≡ some 7 ∷ []
unfolding run_actions empty_system
mixed-received = refl

mixed-sent : (run_actions 4 mixed (empty_system 4)).sent ≡ 7 ∷ 8 ∷ []
unfolding run_actions empty_system
mixed-sent = refl

run_actions-Fifo_example : Fifo 4096 (run_actions 4096 mixed (empty_system 4096))
run_actions-Fifo_example = run_actions-Fifo 4096 1048575 mixed refl (omega arith)

-- With three slots, which do not divide 2^32, a new queue takes itself for full: 2^32 - 1 is a
-- multiple of three, so the slot before the front is the front.
refused : (run_actions {A = ℕ} 3 (try_push 7 ∷ write ∷ count_push ∷ []) (empty_system 3)).sent ≡ []
unfolding run_actions empty_system
refused = refl
