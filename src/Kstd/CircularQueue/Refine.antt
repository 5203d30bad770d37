-- ===== src/Kstd/CircularQueue/Refine.antt =====
-- `kstd::circular_queue` (kernel/kstd/circular_queue.hpp) against a list of bounded length.
use duck_os.Prelude.{
  ℕ, ◌<◌, ◌≡◌, refl, subst, ap, ◌∙◌, ◌⊎◌, inl, inr, true, false, Option, none, some, List, [], ◌∷◌,
  ◌++◌, arith, length, length-replicate, length-append, ◌==◌, Bool-cases,
}
use duck_os.Prelude.Words.{size_limit}
use duck_os.Kstd.Ring.{Ring, append_back, take_front, take_back}
use duck_os.Kstd.Ring.Holds.{Holds, append_back-Holds}
use duck_os.Kstd.Ring.Takes.{take_front-Holds, take_back-Holds, Holds-none}
use duck_os.Kstd.CircularQueue.{init, push_back, is_empty}
use duck_os.Kstd.CircularQueue.Spec.{Op, push, pop, pop_last, Reply, popped, run, unsnoc, run_list}

module _ {A : Type 0} where
  pub init-Holds : (capacity : ℕ) → capacity < size_limit → Holds {A = A} (init capacity) []
  unfolding init
  init-Holds capacity h = Holds-none _ refl (length-replicate capacity none) h

  -- `push_back` adds its object at the end if there is room, and otherwise changes nothing.
  pub push_back-Holds :
      (x : A) (r : Ring A) (xs : List A)
      → Holds r xs
      → ((length xs < r.capacity)
          × ((push_back x r).1 ≡ true)
          × Holds (push_back x r).0 (xs ++ x ∷ []))
        ⊎ ((length xs ≡ r.capacity) × (push_back x r ≡ (r, false)))
  unfolding push_back
  push_back-Holds x r xs v = elim (Bool-cases (r.size == r.capacity)) [
    | inl full ↦ inr (ground (arith, v.sized), rw full)
    | inr room ↦ rw room (
        inl (
          ground (arith, v.sized, v.fits),
          refl,
          append_back-Holds x r xs v (ground (arith, v.fits)),
        ))
  ]

  pub capacity-push_back : (x : A) (r : Ring A) → (push_back x r).0.capacity ≡ r.capacity
  unfolding push_back append_back
  capacity-push_back x r = ground arith

  pub capacity-take_front : (r : Ring A) → (take_front r).1.capacity ≡ r.capacity
  unfolding take_front
  capacity-take_front r = refl

  pub capacity-take_back : (r : Ring A) → (take_back r).1.capacity ≡ r.capacity
  unfolding take_back
  capacity-take_back r = refl

  -- A list that is not empty is its front and its last object.
  pub unsnoc-append : (x : A) (xs : List A) → unsnoc (xs ++ x ∷ []) ≡ (some x, xs)
  unfolding unsnoc
  unsnoc-append x [] = refl
  unsnoc-append x (y ∷ xs) = ground (arith, unsnoc-append x xs)

  pub unsnoc-nil : unsnoc {A = A} [] ≡ (none, [])
  unfolding unsnoc
  unsnoc-nil = refl

  pub snoc-cases : (xs : List A) → (xs ≡ []) ⊎ ((x : A) × (ys : List A) × (xs ≡ ys ++ x ∷ []))
  snoc-cases [] = inl refl
  snoc-cases (x ∷ xs) = inr (snoc_behind (snoc-cases xs))
    where
      snoc_behind :
          (xs ≡ []) ⊎ ((y : A) × (ys : List A) × (xs ≡ ys ++ y ∷ []))
          → (y : A) × (ys : List A) × (x ∷ xs ≡ ys ++ y ∷ [])
      snoc_behind (inl e) = (x, [], ap (◌∷◌ x) e)
      snoc_behind (inr (y, ys, e)) = (y, x ∷ ys, ap (◌∷◌ x) e)

  pub is_empty-nil : (r : Ring A) → Holds r [] → is_empty r ≡ true
  unfolding is_empty
  is_empty-nil r v = ground (arith, v.sized)

  pub is_empty-cons : (r : Ring A) (xs : List A) → 0 < length xs → Holds r xs → is_empty r ≡ false
  unfolding is_empty
  is_empty-cons r xs p v = ground (arith, v.sized)

  same_reply :
      {a b : Option A} {us ws : List (Reply A)} → a ≡ b → us ≡ ws → popped a ∷ us ≡ popped b ∷ ws
  same_reply p q = cc

  -- From a ring that holds a list of objects, any sequence of push_back, pop_front and pop_back
  -- calls in which the client pops only after empty() has said no gives, call by call, the results
  -- of the same calls on that list with its length bounded by the capacity: a push on a full queue
  -- fails and changes nothing, and no pop reads a slot where no object lives.
  pub run_refines :
      (ops : List (Op A)) (r : Ring A) (xs : List A)
      → Holds r xs
      → run r ops ≡ run_list r.capacity xs ops
  unfolding run run_list
  run_refines [] r xs v = refl
  run_refines (push x ∷ ops) r xs v = elim (push_back-Holds x r xs v) [
    | inl (room, done, v') ↦
        let ih = run_refines ops (push_back x r).0 (xs ++ x ∷ []) v' in
        ground (arith, ih, capacity-push_back x r)
    | inr (full, same) ↦ let ih = run_refines ops r xs v in rw same (ground (arith, ih))
  ]
  run_refines (pop ∷ ops) r [] v =
      rw (is_empty-nil r v) (ap (◌∷◌ (popped none)) (run_refines ops r [] v))
  run_refines (pop ∷ ops) r (x ∷ xs) v =
      let taken = take_front-Holds r x xs v in
      let ih = run_refines ops (take_front r).1 xs taken.1 in
      rw (is_empty-cons r (x ∷ xs) (omega arith) v)
        (ground (arith, ih, taken.0, capacity-take_front r))
  run_refines (pop_last ∷ ops) r xs v = elim (snoc-cases xs) [
    | inl e ↦
        let v' : Holds r [] = subst (Holds r) e v in
        rw (e, is_empty-nil r v', unsnoc-nil) (ap (◌∷◌ (popped none)) (run_refines ops r [] v'))
    | inr (x, ys, e) ↦
        let v' : Holds r (ys ++ x ∷ []) = subst (Holds r) e v in
        let taken = take_back-Holds r x ys v' in
        let ih = run_refines ops (take_back r).1 ys taken.1 in
        rw
          (
            e,
            is_empty-cons r (ys ++ x ∷ []) (omega (arith, length-append ys (x ∷ []))) v',
            unsnoc-append x ys,
          )
          (same_reply taken.0 (ih ∙ ap (λ c. run_list c ys ops) (capacity-take_back r)))
  ]
