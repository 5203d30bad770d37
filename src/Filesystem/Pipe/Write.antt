-- ===== src/Filesystem/Pipe/Write.antt =====
-- `Pipe::write` of kernel/filesystem/Pipe.cpp.
use duck_os.Prelude.{
  ℕ, ◌+◌, ◌-◌, ◌<◌, ◌≡◌, ◌≢◌, refl, ap, subst, ◌∙◌, ◌⊎◌, inl, inr, true, false, List, [], ◌∷◌, ◌++◌,
  append-nil, append_assoc, arith, length, length-append, take, take-nil, take-cons_pos, leb, ◌==◌,
  if◌then◌else◌,
}
use duck_os.Prelude.Words.{size_limit, add_size}
use duck_os.Kstd.Ring.{Ring}
use duck_os.Kstd.Ring.Holds.{Holds}
use duck_os.Kstd.CircularQueue.{push_back}
use duck_os.Kstd.CircularQueue.Refine.{push_back-Holds, capacity-push_back}
use duck_os.Filesystem.Pipe.{Pipe, done, write_loop, write}

-- What the loop leaves: as many bytes as there was room for, and a count that is one too high if
-- some byte found no room.
pub record Wrote (bytes : List ℕ) (n : ℕ) (q : Ring ℕ) (xs : List ℕ) (out : ℕ × Ring ℕ)
    : Type 0 where
  pub held : Holds out.1 (xs ++ take (q.capacity - length xs) bytes)
  pub same_capacity : out.1.capacity ≡ q.capacity
  pub count : out.0 ≡ (
      if leb (length bytes) (q.capacity - length xs)
      then n + length bytes
      else n + (q.capacity - length xs) + 1)

-- One byte more in front of the bytes that are taken.
take_behind :
    (xs bs : List ℕ) (b cap : ℕ)
    → length xs < cap
    → (xs ++ b ∷ []) ++ take (cap - length (xs ++ b ∷ [])) bs
      ≡ xs ++ take (cap - length xs) (b ∷ bs)
take_behind xs bs b cap h =
    let e : cap - length (xs ++ b ∷ []) ≡ cap - length xs - 1 =
      omega (arith, length-append xs (b ∷ [])) in
    rw (e, take-cons_pos (cap - length xs) b bs (omega arith))
      (append_assoc xs (b ∷ []) (take (cap - length xs - 1) bs))

Wrote-more :
    (b : ℕ) (bs : List ℕ) (n : ℕ) (q q' : Ring ℕ) (xs : List ℕ) (out : ℕ × Ring ℕ)
    → length xs < q.capacity
    → q'.capacity ≡ q.capacity
    → Wrote bs (n + 1) q' (xs ++ b ∷ []) out
    → Wrote (b ∷ bs) n q xs out
Wrote-more b bs n q q' xs out h c w = record {
  held =
      subst (Holds out.1)
        (ap (λ k. (xs ++ b ∷ []) ++ take (k - length (xs ++ b ∷ [])) bs) c
          ∙ take_behind xs bs b q.capacity h)
        w.held;
  same_capacity = w.same_capacity ∙ c;
  count = ground (arith, w.count, length-append xs (b ∷ []));
}

write_loop-Wrote :
    (bytes : List ℕ) (n : ℕ) (q : Ring ℕ) (xs : List ℕ)
    → Holds q xs
    → n + length bytes < size_limit
    → Wrote bytes n q xs (write_loop bytes n q)
unfolding write_loop
write_loop-Wrote [] n q xs v h = record {
  held = rw (take-nil, append-nil) v;
  same_capacity = refl;
  count = ground arith;
}
write_loop-Wrote (b ∷ bs) n q xs v h = elim (push_back-Holds b q xs v) [
  | inl (room, fine, v') ↦
      let e : add_size n 1 ≡ n + 1 = omega arith in
      rw (fine, e)
        (Wrote-more b bs n q (push_back b q).0 xs (write_loop bs (n + 1) (push_back b q).0) room
          (capacity-push_back b q)
          (write_loop-Wrote bs (n + 1) (push_back b q).0 (xs ++ b ∷ []) v' (omega arith)))
  | inr (full, same) ↦
      let none_left : q.capacity - length xs ≡ 0 = omega arith in
      rw same
        (record { held = rw (none_left, append-nil) v; same_capacity = refl; count = ground arith })
]

-- A pipe whose queue holds some bytes, and whose readers do not wait while there are any.
pub record PipeHolds (p : Pipe) (xs : List ℕ) : Type 0 where
  pub queued : Holds p.queue xs
  pub awake : (xs ≡ []) ⊎ (p.ready ≡ true)

write_loop-awake :
    (bytes xs : List ℕ) (p : Pipe) (out : ℕ × Ring ℕ)
    → PipeHolds p xs
    → Wrote bytes 0 p.queue xs out
    → (xs ++ take (p.queue.capacity - length xs) bytes ≡ [])
      ⊎ ((if out.0 == 0 then p.ready else true) ≡ true)
write_loop-awake [] xs p out v w = elim v.awake [
  | inl e ↦ inl (rw (take-nil, append-nil) e)
  | inr e ↦ inr (ground arith)
]
write_loop-awake (b ∷ bs) xs p out v w = inr (ground (arith, w.count))

-- A write to a pipe with a reader that holds bytes adds the bytes that there is room for at the
-- end and keeps the readers from waiting while there are bytes; it reports the number of bytes
-- given if there is room for all of them, and otherwise one byte more than it has added.
pub write-PipeHolds :
    (bytes xs : List ℕ) (p : Pipe)
    → PipeHolds p xs
    → p.readers ≢ 0
    → length bytes < size_limit
    → let room = p.queue.capacity - length xs in
      ((write bytes p).0 ≡ done (if leb (length bytes) room then length bytes else room + 1))
      × PipeHolds (write bytes p).1 (xs ++ take room bytes)
      × ((write bytes p).1.queue.capacity ≡ p.queue.capacity)
unfolding write
write-PipeHolds bytes xs p v r h =
    let out = write_loop bytes 0 p.queue in
    let w : Wrote bytes 0 p.queue xs out =
      write_loop-Wrote bytes 0 p.queue xs v.queued (omega arith) in
    let open_end : (p.readers == 0) ≡ false = ground arith in
    rw open_end (
      ap done (ground (arith, w.count)),
      record { queued = w.held; awake = write_loop-awake bytes xs p out v w },
      w.same_capacity,
    )
