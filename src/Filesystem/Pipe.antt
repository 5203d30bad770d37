-- ===== src/Filesystem/Pipe.antt =====
-- kernel/filesystem/Pipe.h and Pipe.cpp: a pipe over a circular queue of bytes. A call that blocks
-- takes what the other threads do to the pipe in the meantime as an argument.
pub mod Write
pub mod Read
pub mod History
mod Examples
use duck_os.Prelude.{
  ℕ, zero, suc, ◌+◌, ◌-◌, Bool, true, false, not, ◌&&◌, Option, none, some, List, [], ◌∷◌, ltb,
  ◌==◌, if◌then◌else◌,
}
use duck_os.Prelude.Words.{add_size, sub_size}
use duck_os.Kstd.Ring.{Ring}
use duck_os.Kstd.CircularQueue
use duck_os.Kstd.CircularQueue.{push_back, pop_front, is_empty}

abbrev pub pipe_size : ℕ
pipe_size = 4096

-- `ready` is the flag of `_blocker`.
pub record Pipe : Type 0 where
  pub queue : Ring ℕ
  pub readers : ℕ
  pub writers : ℕ
  pub ready : Bool

unfoldable pub new_pipe : Pipe
unfolding CircularQueue.init
new_pipe = record { queue = CircularQueue.init pipe_size; readers = 0; writers = 0; ready = false }

unfoldable pub add_reader : Pipe → Pipe
add_reader p = record p { readers = add_size p.readers 1 }

unfoldable pub add_writer : Pipe → Pipe
add_writer p = record p { writers = add_size p.writers 1 }

unfoldable pub remove_reader : Pipe → Pipe
remove_reader p = record p { readers = sub_size p.readers 1 }

unfoldable pub remove_writer : Pipe → Pipe
remove_writer p =
    let writers : ℕ = sub_size p.writers 1 in
    record p { writers = writers; ready = if writers == 0 then true else p.ready }

-- A failed call of either kind. A write to a pipe without readers also sends SIGPIPE.
pub data PipeResult (A : Type 0) : Type 0 where
  done : A → PipeResult A
  interrupted : PipeResult A
  broken_pipe : PipeResult A

-- `for(i = 0; i < count; i++) buffer.set(i, _queue.pop_front());`
unfoldable pub read_loop : ℕ → Ring ℕ → List (Option ℕ) × Ring ℕ
read_loop zero q = ([], q)
read_loop (suc n) q =
    let (out, q') = pop_front q in let rest = read_loop n q' in (out ∷ rest.0, rest.1)

-- What `read` does once it need not wait any more: the bytes that it sets in the buffer.
unfoldable pub read_ready : ℕ → Pipe → PipeResult (List (Option ℕ)) × Pipe
read_ready count p =
    let n : ℕ = if ltb p.queue.size count then p.queue.size else count in
    let taken = read_loop n p.queue in
    (
      done taken.0,
      record p {
        queue = taken.1;
        ready = if is_empty taken.1 && not (p.writers == 0) then false else p.ready;
      },
    )

-- `others` is what happens to the pipe while the thread is blocked, and `signalled` whether the
-- blocker was interrupted.
unfoldable pub read : (Pipe → Pipe) → Bool → ℕ → Pipe → PipeResult (List (Option ℕ)) × Pipe
read others signalled count p =
    if p.writers == 0 && is_empty p.queue
    then (done [], p)
    else let awake : Pipe = if p.ready then p else others p in
      if signalled then (interrupted, awake) else read_ready count awake

-- The loop of `write` over the bytes of the buffer: `nwrote`, and the queue.
unfoldable pub write_loop : List ℕ → ℕ → Ring ℕ → ℕ × Ring ℕ
write_loop [] nwrote q = (nwrote, q)
write_loop (b ∷ bs) nwrote q =
    let pushed = push_back b q in
    let rest = write_loop bs (add_size nwrote 1) pushed.0 in
    if pushed.1 then rest else (add_size nwrote 1, pushed.0)

unfoldable pub write : List ℕ → Pipe → PipeResult ℕ × Pipe
write buffer p =
    if p.readers == 0
    then (broken_pipe, p)
    else let (nwrote, queue) = write_loop buffer 0 p.queue in
      (done nwrote, record p { queue = queue; ready = if nwrote == 0 then p.ready else true })

-- Whether a reader's descriptor can read, for `poll`.
unfoldable pub can_read : Bool → Pipe → Bool
can_read fifo_writer p = not (is_empty p.queue) && not fifo_writer
