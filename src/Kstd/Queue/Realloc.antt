-- ===== src/Kstd/Queue/Realloc.antt =====
-- `realloc` of `kstd::queue` (kernel/kstd/queue.hpp).
use duck_os.Prelude.{
  ℕ, zero, suc, ◌+◌, ◌*◌, ◌%◌, ◌≤◌, ◌<◌, ◌≡◌, refl, subst, ◌∙◌, inl, inr, true, false, Option, none,
  some, List, arith, length, get_elem?, set, replicate, length-set, length-replicate,
  get_elem?-set_self, get_elem?-set_ne, ◌==◌, ltb, Bool-cases,
}
use native.Mathlib.Decide.{ℕ_discrete}
use duck_os.Prelude.Words.{size_limit, add_size}
use duck_os.Kstd.Ring.{Ring, slot}
use duck_os.Kstd.Ring.Holds.{Holds, around, mod-around, nil_of_length}
use duck_os.Kstd.Ring.Takes.{Holds-none}
use duck_os.Kstd.Queue.{move_slots, shorten, move_all, realloc}

module _ {A : Type 0} where
  length-move_slots :
      (n i : ℕ) (r : Ring A) (to : List (Option A)) → length (move_slots n i r to) ≡ length to
  unfolding move_slots
  length-move_slots zero i r to = refl
  length-move_slots (suc n) i r to = length-move_slots n (i + 1) r _ ∙ length-set to i _

  move_slots-below :
      (n i j : ℕ) (r : Ring A) (to : List (Option A))
      → j < i
      → get_elem? (move_slots n i r to) j ≡ get_elem? to j
  unfolding move_slots
  move_slots-below zero i j r to h = refl
  move_slots-below (suc n) i j r to h =
      move_slots-below n (i + 1) j r _ (omega arith) ∙ get_elem?-set_ne to i j _ (omega arith)

  move_slots-moved :
      (n i j : ℕ) (r : Ring A) (to : List (Option A))
      → i ≤ j
      → j < i + n
      → j < length to
      → get_elem? (move_slots n i r to) j ≡ some (slot r.storage (add_size r.front j % r.capacity))
  unfolding move_slots
  move_slots-moved zero i j r to lo hi h = absurd (omega arith)
  move_slots-moved (suc n) i j r to lo hi h =
      let moved : Option A = slot r.storage (add_size r.front i % r.capacity) in
      elim (ℕ_discrete i j) [
        | yes e ↦ rw (← e) (
            move_slots-below n (i + 1) i r (set to i moved) (omega arith)
            ∙ get_elem?-set_self to i moved (omega arith))
        | no ne ↦
            move_slots-moved n (i + 1) j r (set to i moved) (omega arith) (omega arith)
              (omega (arith, length-set to i moved))
      ]

  -- Object `k` of the queue is where the loop looks for it.
  slot-held :
      (r : Ring A) (xs : List A) (k : ℕ)
      → Holds r xs
      → r.capacity * 2 ≤ size_limit
      → k < r.size
      → slot r.storage (add_size r.front k % r.capacity) ≡ get_elem? xs k
  slot-held r xs k v half h =
      let at : add_size r.front k % r.capacity ≡ around r.capacity r.front k =
        ground (arith, mod-around r.capacity r.front k) in
      rw at (ground (arith, v.slots k h))

  move_all-Holds :
      (new_capacity : ℕ) (r : Ring A) (xs : List A)
      → Holds r xs
      → r.capacity * 2 ≤ size_limit
      → r.size ≤ new_capacity
      → new_capacity < size_limit
      → Holds (move_all new_capacity r) xs
  unfolding move_all
  move_all-Holds new_capacity r xs v half h q = record {
    sized = v.sized;
    fits = h;
    room = length-move_slots r.size 0 r _ ∙ length-replicate new_capacity none;
    small = q;
    front_in = ground arith;
    back_at = ground arith;
    slots = λ k p.
        let at : around new_capacity 0 k ≡ k = ground arith in
        rw (at, ← slot-held r xs k v half p)
          (move_slots-moved r.size 0 k r _ (omega arith) (omega arith)
            (omega (arith, length-replicate {A = Option A} new_capacity none)));
  }

  pub realloc-Holds :
      (new_capacity : ℕ) (r : Ring A) (xs : List A)
      → Holds r xs
      → r.capacity * 2 ≤ size_limit
      → r.size ≤ new_capacity
      → new_capacity < size_limit
      → Holds (realloc new_capacity r) xs
  unfolding realloc shorten
  realloc-Holds new_capacity r xs v half h q = elim (ℕ_discrete new_capacity r.capacity) [
    | yes e ↦ let t : (new_capacity == r.capacity) ≡ true = ground arith in rw t v
    | no ne ↦
        let t : (new_capacity == r.capacity) ≡ false = ground arith in
        let kept : ltb new_capacity r.size ≡ false = ground arith in
        elim (Bool-cases (r.capacity == 0)) [
          | inl none_yet ↦
              rw (t, none_yet)
                (subst
                  (Holds
                    (record r { storage = replicate new_capacity none; capacity = new_capacity }))
                  (nil_of_length xs (ground arith))
                  (Holds-none _ (ground arith) (length-replicate new_capacity none) q))
          | inr some_yet ↦ rw (t, some_yet, kept) (move_all-Holds new_capacity r xs v half h q)
        ]
  ]

  pub capacity-realloc :
      (new_capacity : ℕ) (r : Ring A) → (realloc new_capacity r).capacity ≡ new_capacity
  unfolding realloc move_all
  capacity-realloc new_capacity r = ground arith
