-- ===== src/Kstd/Queue/Refine.antt =====
-- `kstd::queue` (kernel/kstd/queue.hpp) against a list.
use duck_os.Prelude.{
  ℕ, ◌+◌, ◌*◌, ◌≤◌, ◌<◌, ◌≡◌, refl, subst, ap, inl, inr, true, false, Option, some, List, [], ◌∷◌,
  ◌++◌, arith, length, length-append, ◌==◌, Bool-cases,
}
use duck_os.Prelude.Words.{size_limit}
use duck_os.Prelude.Outcome.{Outcome, ok, fault, ◌>>=◌}
use duck_os.Kstd.Ring.{Ring, append_back, take_front, take_back}
use duck_os.Kstd.Ring.Holds.{Holds, append_back-Holds}
use duck_os.Kstd.Ring.Takes.{take_front-Holds, take_back-Holds}
use duck_os.Kstd.CircularQueue.Spec.{Op, push, pop, pop_last, unsnoc}
use duck_os.Kstd.CircularQueue.Refine.{
  capacity-take_front, capacity-take_back, unsnoc-append, snoc-cases,
}
use duck_os.Kstd.Queue.{grown, realloc, push_back, pop_front, pop_back, is_empty}
use duck_os.Kstd.Queue.Realloc.{realloc-Holds, capacity-realloc}

module _ {A : Type 0} where
  -- The objects that the pops of a sequence of calls give. A pop of an empty queue stops the run.
  unfoldable pub run_queue : Ring A → List (Op A) → Outcome (List (Option A))
  run_queue r [] = ok []
  run_queue r (push x ∷ ops) = run_queue (push_back x r) ops
  run_queue r (pop ∷ ops) = do (out, r') ← pop_front r; rest ← run_queue r' ops; ok (out ∷ rest)
  run_queue r (pop_last ∷ ops) = do (out, r') ← pop_back r; rest ← run_queue r' ops; ok (out ∷ rest)

  unfoldable pub run_objects : List A → List (Op A) → Outcome (List (Option A))
  run_objects xs [] = ok []
  run_objects xs (push x ∷ ops) = run_objects (xs ++ x ∷ []) ops
  run_objects [] (pop ∷ ops) = fault
  run_objects (x ∷ xs) (pop ∷ ops) = do rest ← run_objects xs ops; ok (some x ∷ rest)
  run_objects [] (pop_last ∷ ops) = fault
  run_objects (x ∷ xs) (pop_last ∷ ops) = do
    rest ← run_objects (unsnoc (x ∷ xs)).1 ops
    ok ((unsnoc (x ∷ xs)).0 ∷ rest)

  capacity-append_back : (x : A) (r : Ring A) → (append_back x r).capacity ≡ r.capacity
  unfolding append_back
  capacity-append_back x r = refl

  -- A queue of fewer than `n` objects grows to at most twice `n`.
  grown_queue-Holds :
      (x : A) (n : ℕ) (r : Ring A) (xs : List A)
      → Holds r xs
      → length xs < n
      → r.capacity ≤ n * 2
      → n * 4 ≤ size_limit
      → Holds (push_back x r) (xs ++ x ∷ []) × ((push_back x r).capacity ≤ n * 2)
  unfolding push_back
  grown_queue-Holds x n r xs v room c small = elim (Bool-cases (r.size == r.capacity)) [
    | inl full ↦
        let g : ℕ = grown r.capacity in
        let wide : r.size < g = ground (arith, v.sized) in
        let narrow : g ≤ n * 2 = ground (arith, v.sized) in
        let moved : Holds (realloc g r) xs =
          realloc-Holds g r xs v (ground (arith, v.sized)) (omega arith) (omega arith) in
        rw full (
          append_back-Holds x (realloc g r) xs moved
              (omega (arith, moved.sized, v.sized, capacity-realloc g r)),
          omega (arith, capacity-append_back x (realloc g r), capacity-realloc g r),
        )
    | inr open_end ↦ rw open_end (
      append_back-Holds x r xs v (ground (arith, v.fits)),
      omega (arith, capacity-append_back x r),
    )
  ]

  pop-nonempty :
      (r : Ring A) (xs : List A)
      → Holds r xs
      → 0 < length xs
      → (pop_front r ≡ ok (take_front r)) × (pop_back r ≡ ok (take_back r))
  unfolding pop_front pop_back is_empty
  pop-nonempty r xs v h =
      let e : (r.size == 0) ≡ false = ground (arith, v.sized) in (rw e refl, rw e refl)

  pop-empty : (r : Ring A) → Holds r [] → (pop_front r ≡ fault) × (pop_back r ≡ fault)
  unfolding pop_front pop_back is_empty
  pop-empty r v = let e : (r.size == 0) ≡ true = ground (arith, v.sized) in (rw e refl, rw e refl)

  run_objects-pop_last :
      (x : A) (ys : List A) (ops : List (Op A))
      → run_objects (ys ++ x ∷ []) (pop_last ∷ ops)
        ≡ (run_objects ys ops >>= λ rest. ok (some x ∷ rest))
  unfolding run_objects unsnoc
  run_objects-pop_last x [] ops = refl
  run_objects-pop_last x (y ∷ ys) ops = rw (unsnoc-append x (y ∷ ys)) refl

  -- From a ring that holds a list of objects, any sequence of push_back, pop_front and pop_back
  -- calls pops the objects that the same calls pop off that list, the queue growing as it must,
  -- and stops at a failed ASSERT just where a pop meets the empty list; provided that the objects
  -- held and the calls are at most n in number, the capacity is at most 2 n, and 4 n is at most
  -- 2^32.
  pub run_queue-run_objects :
      (ops : List (Op A)) (n : ℕ) (r : Ring A) (xs : List A)
      → Holds r xs
      → length xs + length ops ≤ n
      → r.capacity ≤ n * 2
      → n * 4 ≤ size_limit
      → run_queue r ops ≡ run_objects xs ops
  unfolding run_queue run_objects
  run_queue-run_objects [] n r xs v h c small = refl
  run_queue-run_objects (push x ∷ ops) n r xs v h c small =
      let grows = grown_queue-Holds x n r xs v (omega arith) c small in
      run_queue-run_objects ops n (push_back x r) (xs ++ x ∷ []) grows.0
        (omega (arith, length-append xs (x ∷ []))) grows.1 small
  run_queue-run_objects (pop ∷ ops) n r [] v h c small = rw ((pop-empty r v).0) refl
  run_queue-run_objects (pop ∷ ops) n r (x ∷ xs) v h c small =
      let taken = take_front-Holds r x xs v in
      let ih =
        run_queue-run_objects ops n (take_front r).1 xs taken.1 (omega arith)
          (omega (arith, capacity-take_front r)) small in
      rw ((pop-nonempty r (x ∷ xs) v (omega arith)).0, taken.0, ih) refl
  run_queue-run_objects (pop_last ∷ ops) n r xs v h c small = elim (snoc-cases xs) [
    | inl e ↦ let out = pop-empty r (subst (Holds r) e v) in rw (e, out.1) refl
    | inr (x, ys, e) ↦
        let held : Holds r (ys ++ x ∷ []) = subst (Holds r) e v in
        let longer : length (ys ++ x ∷ []) ≡ length ys + 1 = length-append ys (x ∷ []) in
        let taken = take_back-Holds r x ys held in
        let ih =
          run_queue-run_objects ops n (take_back r).1 ys taken.1 (omega (arith, ap length e))
            (omega (arith, capacity-take_back r)) small in
        rw
          (
            e,
            run_objects-pop_last x ys ops,
            (pop-nonempty r (ys ++ x ∷ []) held (omega arith)).1,
            taken.0,
            ih,
          )
          refl
  ]
