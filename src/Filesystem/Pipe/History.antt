-- ===== src/Filesystem/Pipe/History.antt =====
-- What goes into a pipe and what comes out of it over any sequence of calls
-- (kernel/filesystem/Pipe.cpp).
use duck_os.Prelude.{
  ℕ, zero, suc, ◌-◌, ◌<◌, ◌≡◌, refl, sym, ap, subst, ◌∙◌, inl, inr, true, Option, some, List, [],
  ◌∷◌, ◌++◌, append-nil, append_assoc, arith, length, take, drop, ◌==◌, if◌then◌else◌, Bool-cases,
}
use mathlib.Core.List.{map, map-append}
use duck_os.Prelude.Words.{size_limit}
use duck_os.Kstd.CircularQueue
use duck_os.Kstd.CircularQueue.Refine.{init-Holds}
use duck_os.Filesystem.Pipe.{
  Pipe, PipeResult, done, interrupted, broken_pipe, pipe_size, new_pipe, add_reader, add_writer,
  remove_reader, remove_writer, read_ready, write,
}
use duck_os.Filesystem.Pipe.Write.{PipeHolds, write-PipeHolds}
use duck_os.Filesystem.Pipe.Read.{available, read_ready-PipeHolds, capacity-read_ready}

-- The bytes of a buffer that a write can place in the queue.
unfoldable pub placed : List ℕ → Pipe → List ℕ
placed buffer p = if p.readers == 0 then [] else take (pipe_size - p.queue.size) buffer

unfoldable pub delivered : PipeResult (List (Option ℕ)) → List (Option ℕ)
delivered (done out) = out
delivered interrupted = []
delivered broken_pipe = []

-- The pipes that calls lead to, with the bytes placed and the bytes delivered so far. A reader that
-- has waited goes on with `read_ready`.
pub data History : List ℕ → List (Option ℕ) → Pipe → Type 0 where
  created : History [] [] new_pipe
  reader_added :
      {ins : List ℕ}
      → {outs : List (Option ℕ)} → {p : Pipe} → History ins outs p
      → History ins outs (add_reader p)
  writer_added :
      {ins : List ℕ}
      → {outs : List (Option ℕ)} → {p : Pipe} → History ins outs p
      → History ins outs (add_writer p)
  reader_removed :
      {ins : List ℕ}
      → {outs : List (Option ℕ)} → {p : Pipe} → History ins outs p
      → History ins outs (remove_reader p)
  writer_removed :
      {ins : List ℕ}
      → {outs : List (Option ℕ)} → {p : Pipe} → History ins outs p
      → History ins outs (remove_writer p)
  written :
      {ins : List ℕ}
      → {outs : List (Option ℕ)} → {p : Pipe} → (buffer : List ℕ) → length buffer < size_limit
      → History ins outs p
      → History (ins ++ placed buffer p) outs (write buffer p).1
  was_read :
      {ins : List ℕ}
      → {outs : List (Option ℕ)} → {p : Pipe} → (count : ℕ) → History ins outs p
      → History ins (outs ++ delivered (read_ready count p).0) (read_ready count p).1

-- The pipe holds what was placed in it and not delivered yet.
pub record InOrder (ins : List ℕ) (outs : List (Option ℕ)) (p : Pipe) : Type 0 where
  pub held : List ℕ
  pub holds : PipeHolds p held
  pub same_capacity : p.queue.capacity ≡ pipe_size
  pub balance : map some ins ≡ outs ++ map some held

new_pipe-InOrder : InOrder [] [] new_pipe
unfolding new_pipe CircularQueue.init
new_pipe-InOrder = record {
  held = [];
  holds = record { queued = init-Holds pipe_size (omega arith); awake = inl refl };
  same_capacity = refl;
  balance = refl;
}

remove_writer-PipeHolds : (p : Pipe) (xs : List ℕ) → PipeHolds p xs → PipeHolds (remove_writer p) xs
unfolding remove_writer
remove_writer-PipeHolds p xs v = record { queued = v.queued; awake = ground (arith, v.awake) }

take-append-drop : (n : ℕ) (xs : List ℕ) → take n xs ++ drop n xs ≡ xs
take-append-drop zero xs = refl
take-append-drop (suc n) [] = refl
take-append-drop (suc n) (x ∷ xs) = ap (◌∷◌ x) (take-append-drop n xs)

write-closed : (buffer : List ℕ) (p : Pipe) → (p.readers == 0) ≡ true → (write buffer p).1 ≡ p
unfolding write
write-closed buffer p h = rw h refl

balance-more :
    (ins held more : List ℕ) (outs : List (Option ℕ))
    → map some ins ≡ outs ++ map some held
    → map some (ins ++ more) ≡ outs ++ map some (held ++ more)
balance-more ins held more outs e =
    map-append some ins more
    ∙ ap (λ ys. ys ++ map some more) e
    ∙ append_assoc outs (map some held) (map some more)
    ∙ ap (λ ys. outs ++ ys) (sym (map-append some held more))

balance-less :
    (n : ℕ) (ins held : List ℕ) (outs : List (Option ℕ))
    → map some ins ≡ outs ++ map some held
    → map some ins ≡ (outs ++ map some (take n held)) ++ map some (drop n held)
balance-less n ins held outs e =
    e
    ∙ ap (λ ys. outs ++ map some ys) (sym (take-append-drop n held))
    ∙ ap (λ ys. outs ++ ys) (map-append some (take n held) (drop n held))
    ∙ sym (append_assoc outs (map some (take n held)) (map some (drop n held)))

written-InOrder :
    {ins : List ℕ}
    → {outs : List (Option ℕ)} → {p : Pipe} → (buffer : List ℕ) → length buffer < size_limit
    → InOrder ins outs p
    → InOrder (ins ++ placed buffer p) outs (write buffer p).1
unfolding placed
written-InOrder {ins} {outs} {p} buffer h v = elim (Bool-cases (p.readers == 0)) [
  | inl closed ↦ rw (closed, append-nil, write-closed buffer p closed) v
  | inr open_end ↦
      let room : p.queue.capacity - length v.held ≡ pipe_size - p.queue.size =
        omega (arith, v.same_capacity, v.holds.queued.sized) in
      let fed = write-PipeHolds buffer v.held p v.holds (ground arith) h in
      rw open_end (record {
        held = v.held ++ take (pipe_size - p.queue.size) buffer;
        holds = subst (λ k. PipeHolds (write buffer p).1 (v.held ++ take k buffer)) room fed.1;
        same_capacity = fed.2 ∙ v.same_capacity;
        balance = balance-more ins v.held (take (pipe_size - p.queue.size) buffer) outs v.balance;
      })
]

was_read-InOrder :
    {ins : List ℕ}
    → {outs : List (Option ℕ)} → {p : Pipe} → (count : ℕ) → InOrder ins outs p
    → InOrder ins (outs ++ delivered (read_ready count p).0) (read_ready count p).1
unfolding delivered
was_read-InOrder {ins} {outs} {p} count v =
    let n : ℕ = available count v.held in
    let got = read_ready-PipeHolds count v.held p v.holds in
    rw got.0 (record {
      held = drop n v.held;
      holds = got.1;
      same_capacity = capacity-read_ready count p ∙ v.same_capacity;
      balance = balance-less n ins v.held outs v.balance;
    })

-- After any sequence of calls that add and remove readers and writers, write buffers shorter than
-- 2^32 bytes, and read, interleaved in any order from a new pipe, the bytes placed in the queue
-- are, in order, the bytes delivered to readers and then the bytes that the queue still holds,
-- with none lost, doubled or read from a dead slot; and readers are kept from waiting while it
-- holds a byte.
pub History-InOrder :
    {ins : List ℕ} → {outs : List (Option ℕ)} → {p : Pipe} → History ins outs p → InOrder ins outs p
unfolding add_reader add_writer remove_reader remove_writer
History-InOrder created = new_pipe-InOrder
History-InOrder (reader_added h) =
    let v = History-InOrder h in
    record {
      held = v.held;
      holds = record { queued = v.holds.queued; awake = v.holds.awake };
      same_capacity = v.same_capacity;
      balance = v.balance;
    }
History-InOrder (writer_added h) =
    let v = History-InOrder h in
    record {
      held = v.held;
      holds = record { queued = v.holds.queued; awake = v.holds.awake };
      same_capacity = v.same_capacity;
      balance = v.balance;
    }
History-InOrder (reader_removed h) =
    let v = History-InOrder h in
    record {
      held = v.held;
      holds = record { queued = v.holds.queued; awake = v.holds.awake };
      same_capacity = v.same_capacity;
      balance = v.balance;
    }
History-InOrder (writer_removed {p = p} h) =
    let v = History-InOrder h in
    record {
      held = v.held;
      holds = remove_writer-PipeHolds p v.held v.holds;
      same_capacity = v.same_capacity;
      balance = v.balance;
    }
History-InOrder (written buffer small h) = written-InOrder buffer small (History-InOrder h)
History-InOrder (was_read count h) = was_read-InOrder count (History-InOrder h)
