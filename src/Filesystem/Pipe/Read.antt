-- ===== src/Filesystem/Pipe/Read.antt =====
-- `Pipe::read` of kernel/filesystem/Pipe.cpp, and what is written is what is read.
use duck_os.Prelude.{
  ℕ, zero, suc, ◌+◌, ◌-◌, ◌≤◌, ◌<◌, ◌≡◌, ◌≢◌, refl, ap, subst, ◌∙◌, ◌⊎◌, inl, inr, true, false, not,
  ◌&&◌, some, List, [], ◌∷◌, ◌++◌, arith, length, length-append, take, drop, ltb, ◌==◌,
  if◌then◌else◌,
}
use mathlib.Core.List.{map}
use duck_os.Prelude.Words.{size_limit}
use duck_os.Kstd.Ring.{Ring, take_front}
use duck_os.Kstd.Ring.Holds.{Holds}
use duck_os.Kstd.Ring.Takes.{take_front-Holds}
use duck_os.Kstd.CircularQueue.{is_empty}
use duck_os.Kstd.CircularQueue.Refine.{is_empty-cons, capacity-take_front}
use duck_os.Filesystem.Pipe.{Pipe, done, read_loop, read_ready, read, write}
use duck_os.Filesystem.Pipe.Write.{PipeHolds, write-PipeHolds}

read_loop-Holds :
    (n : ℕ) (q : Ring ℕ) (xs : List ℕ)
    → Holds q xs
    → n ≤ length xs
    → ((read_loop n q).0 ≡ map some (take n xs)) × Holds (read_loop n q).1 (drop n xs)
unfolding read_loop
read_loop-Holds zero q xs v h = (refl, v)
read_loop-Holds (suc n) q [] v h = absurd (omega arith)
read_loop-Holds (suc n) q (x ∷ xs) v h =
    let taken = take_front-Holds q x xs v in
    let rest = read_loop-Holds n (take_front q).1 xs taken.1 (omega arith) in
    (ap (λ b. b ∷ (read_loop n (take_front q).1).0) taken.0 ∙ ap (◌∷◌ (some x)) rest.0, rest.1)

-- The number of bytes that a read gets.
abbrev pub available : ℕ → List ℕ → ℕ
available count xs = if ltb (length xs) count then length xs else count

drop-nil : (n : ℕ) → drop {A = ℕ} n [] ≡ []
drop-nil zero = refl
drop-nil (suc n) = refl

nil-or_more : (xs : List ℕ) → (xs ≡ []) ⊎ (0 < length xs)
nil-or_more [] = inl refl
nil-or_more (x ∷ xs) = inr (omega arith)

ready_stays :
    (xs ys : List ℕ) (p : Pipe) (q : Ring ℕ)
    → 0 < length ys
    → Holds q ys
    → p.ready ≡ true
    → (if is_empty q && not (p.writers == 0) then false else p.ready) ≡ true
ready_stays xs ys p q h w r = rw (is_empty-cons q ys h w) r

-- After a read, the flag is down only if nothing is left.
awake_after :
    (n : ℕ) (xs : List ℕ) (p : Pipe) (q : Ring ℕ)
    → PipeHolds p xs
    → Holds q (drop n xs)
    → (drop n xs ≡ []) ⊎ ((if is_empty q && not (p.writers == 0) then false else p.ready) ≡ true)
awake_after n xs p q v w = elim v.awake [
  | inl e ↦ inl (ap (drop n) e ∙ drop-nil n)
  | inr r ↦ elim (nil-or_more (drop n xs)) [
    | inl e ↦ inl e
    | inr more ↦ inr (ready_stays xs (drop n xs) p q more w r)
  ]
]

pub read_ready-PipeHolds :
    (count : ℕ) (xs : List ℕ) (p : Pipe)
    → PipeHolds p xs
    → ((read_ready count p).0 ≡ done (map some (take (available count xs) xs)))
      × PipeHolds (read_ready count p).1 (drop (available count xs) xs)
unfolding read_ready
read_ready-PipeHolds count xs p v =
    let e : (if ltb p.queue.size count then p.queue.size else count) ≡ available count xs =
      ground (arith, v.queued.sized) in
    let taken = read_loop-Holds (available count xs) p.queue xs v.queued (ground arith) in
    rw e (
      ap done taken.0,
      record { queued = taken.1; awake = awake_after (available count xs) xs p _ v taken.1 },
    )

capacity-read_loop : (n : ℕ) (q : Ring ℕ) → (read_loop n q).1.capacity ≡ q.capacity
unfolding read_loop
capacity-read_loop zero q = refl
capacity-read_loop (suc n) q = capacity-read_loop n (take_front q).1 ∙ capacity-take_front q

pub capacity-read_ready :
    (count : ℕ) (p : Pipe) → (read_ready count p).1.queue.capacity ≡ p.queue.capacity
unfolding read_ready
capacity-read_ready count p = capacity-read_loop _ p.queue

-- A read of a pipe that is not empty neither waits nor ends early.
read-at_once :
    (others : Pipe → Pipe) (count : ℕ) (xs : List ℕ) (p : Pipe)
    → 0 < length xs
    → PipeHolds p xs
    → read others false count p ≡ read_ready count p
unfolding read
read-at_once others count xs p h v =
    let r : p.ready ≡ true = elim v.awake [
      | inl e ↦ absurd (omega (arith, ap length e))
      | inr e ↦ e
    ] in
    let e : is_empty p.queue ≡ false = is_empty-cons p.queue xs h v.queued in ground (arith, e, r)

-- A read that no signal interrupts, of a pipe that holds at least one byte, gives the first bytes
-- held, as many as there are up to the count asked for, leaves the others in order, and the flag
-- that keeps readers from waiting stays up while bytes are left.
pub read-PipeHolds :
    (others : Pipe → Pipe) (count : ℕ) (xs : List ℕ) (p : Pipe)
    → PipeHolds p xs
    → 0 < length xs
    → ((read others false count p).0 ≡ done (map some (take (available count xs) xs)))
      × PipeHolds (read others false count p).1 (drop (available count xs) xs)
read-PipeHolds others count xs p v h =
    rw (read-at_once others count xs p h v) (read_ready-PipeHolds count xs p v)

take-all : (n : ℕ) (xs : List ℕ) → length xs ≤ n → take n xs ≡ xs
take-all zero [] h = refl
take-all zero (x ∷ xs) h = absurd (omega arith)
take-all (suc n) [] h = refl
take-all (suc n) (x ∷ xs) h = ap (◌∷◌ x) (take-all n xs (omega arith))

-- On a pipe with a reader that holds bytes, a write of at least one byte, for which there is room,
-- reports all of its bytes written, and a read after it that no signal interrupts gives the first
-- bytes of those held before and those written, in that order, as many as there are up to the
-- count asked for.
pub read-write :
    (others : Pipe → Pipe) (count : ℕ) (bytes xs : List ℕ) (p : Pipe)
    → PipeHolds p xs
    → p.readers ≢ 0
    → 0 < length bytes
    → length xs + length bytes ≤ p.queue.capacity
    → length bytes < size_limit
    → ((write bytes p).0 ≡ done (length bytes))
      × ((read others false count (write bytes p).1).0
          ≡ done (map some (take (available count (xs ++ bytes)) (xs ++ bytes))))
read-write others count bytes xs p v r h f small =
    let written = write-PipeHolds bytes xs p v r small in
    let all : take (p.queue.capacity - length xs) bytes ≡ bytes =
      take-all (p.queue.capacity - length xs) bytes (omega arith) in
    let held : PipeHolds (write bytes p).1 (xs ++ bytes) =
      subst (λ ys. PipeHolds (write bytes p).1 (xs ++ ys)) all written.1 in
    let longer : 0 < length (xs ++ bytes) = omega (arith, length-append xs bytes) in
    (
      written.0 ∙ ap done (ground arith),
      (read-PipeHolds others count (xs ++ bytes) (write bytes p).1 held longer).0,
    )
