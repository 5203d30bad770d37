-- ===== src/Filesystem/Pipe/Examples.antt =====
-- A small pipe (kernel/filesystem/Pipe.cpp), and the theorems at it.
use duck_os.Prelude.{
  ℕ, List, zero, suc, ◌<◌, ◌≡◌, refl, inl, inr, true, false, none, some, [], ◌∷◌, arith, get_elem?,
}
use duck_os.Kstd.Ring.{Ring}
use duck_os.Kstd.Ring.Holds.{around}
use duck_os.Filesystem.Pipe.{Pipe, done, read, write}
use duck_os.Filesystem.Pipe.Write.{PipeHolds, write-PipeHolds}
use duck_os.Filesystem.Pipe.{new_pipe, add_reader, read_ready}
use duck_os.Filesystem.Pipe.History.{
  placed, delivered, created, reader_added, written, was_read, InOrder, History-InOrder,
}
use duck_os.Filesystem.Pipe.Read.{read-write}

-- Room for one more byte.
abbrev three_slots : Ring ℕ
three_slots = record {
  storage = some 9 ∷ none ∷ some 8 ∷ [];
  capacity = 3;
  size = 2;
  front = 2;
  back = 0;
}

abbrev small_pipe : Pipe
small_pipe = record { queue = three_slots; readers = 1; writers = 1; ready = true }

small_pipe-PipeHolds : PipeHolds small_pipe (8 ∷ 9 ∷ [])
small_pipe-PipeHolds = record {
  queued = record {
    sized = refl;
    fits = omega arith;
    room = refl;
    small = omega arith;
    front_in = inl (omega arith);
    back_at = inr refl;
    slots = two_slots;
  };
  awake = inr refl;
}
  where
    two_slots :
        (k : ℕ)
        → k < 2
        → get_elem? three_slots.storage (around 3 2 k) ≡ some (get_elem? (8 ∷ 9 ∷ []) k)
    two_slots zero h = refl
    two_slots (suc zero) h = refl
    two_slots (suc (suc k)) h = absurd (omega arith)

-- One byte of three fits, and the call says two.
write-PipeHolds_example :
    ((write (5 ∷ 6 ∷ 7 ∷ []) small_pipe).0 ≡ done 2)
    × PipeHolds (write (5 ∷ 6 ∷ 7 ∷ []) small_pipe).1 (8 ∷ 9 ∷ 5 ∷ [])
    × ((write (5 ∷ 6 ∷ 7 ∷ []) small_pipe).1.queue.capacity ≡ 3)
write-PipeHolds_example =
    write-PipeHolds (5 ∷ 6 ∷ 7 ∷ []) (8 ∷ 9 ∷ []) small_pipe small_pipe-PipeHolds (omega arith)
      (omega arith)

read-write_example :
    ((write (5 ∷ []) small_pipe).0 ≡ done 1)
    × ((read (λ p. p) false 4 (write (5 ∷ []) small_pipe).1).0
        ≡ done (some 8 ∷ some 9 ∷ some 5 ∷ []))
read-write_example =
    read-write (λ p. p) 4 (5 ∷ []) (8 ∷ 9 ∷ []) small_pipe small_pipe-PipeHolds (omega arith)
      (omega arith) (omega arith) (omega arith)

abbrev buffer : List ℕ
buffer = 1 ∷ 2 ∷ []

abbrev filled : Pipe
filled = (write buffer (add_reader new_pipe)).1

History-InOrder_example :
    InOrder
      (placed buffer (add_reader new_pipe))
      (delivered (read_ready 1 filled).0)
      (read_ready 1 filled).1
History-InOrder_example =
    History-InOrder (was_read 1 (written buffer (omega arith) (reader_added created)))
