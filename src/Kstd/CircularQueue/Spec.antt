-- ===== src/Kstd/CircularQueue/Spec.antt =====
-- What a client of `kstd::circular_queue` (kernel/kstd/circular_queue.hpp) may ask of it, what it
-- gets from the code, and what it gets from a list of bounded length.
use duck_os.Prelude.{ℕ, Bool, Option, none, some, List, [], ◌∷◌, ◌++◌, length, ltb, if◌then◌else◌}
use duck_os.Kstd.Ring.{Ring}
use duck_os.Kstd.CircularQueue.{push_back, pop_front, pop_back, is_empty}

-- The calls that change a queue.
pub data Op (A : Type 0) : Type 0 where
  push : A → Op A
  pop : Op A
  pop_last : Op A

pub data Reply (A : Type 0) : Type 0 where
  pushed : Bool → Reply A
  popped : Option A → Reply A

module _ {A : Type 0} where
  -- A client takes an object only after it has seen that the queue is not empty.
  unfoldable pub run : Ring A → List (Op A) → List (Reply A)
  run r [] = []
  run r (push x ∷ ops) = let (r', done) = push_back x r in pushed done ∷ run r' ops
  run r (pop ∷ ops) =
      let (out, r') = if is_empty r then (none, r) else pop_front r in popped out ∷ run r' ops
  run r (pop_last ∷ ops) =
      let (out, r') = if is_empty r then (none, r) else pop_back r in popped out ∷ run r' ops

  -- A list taken apart at its end.
  unfoldable pub unsnoc : List A → Option A × List A
  unsnoc [] = (none, [])
  unsnoc (x ∷ xs) = elim (unsnoc xs).0 [
    | none ↦ (some x, [])
    | some y ↦ (some y, x ∷ (unsnoc xs).1)
  ]

  unfoldable pub run_list : ℕ → List A → List (Op A) → List (Reply A)
  run_list capacity xs [] = []
  run_list capacity xs (push x ∷ ops) =
      let room = ltb (length xs) capacity in
      pushed room ∷ run_list capacity (if room then xs ++ x ∷ [] else xs) ops
  run_list capacity [] (pop ∷ ops) = popped none ∷ run_list capacity [] ops
  run_list capacity (x ∷ xs) (pop ∷ ops) = popped (some x) ∷ run_list capacity xs ops
  run_list capacity xs (pop_last ∷ ops) = popped (unsnoc xs).0 ∷ run_list capacity (unsnoc xs).1 ops
