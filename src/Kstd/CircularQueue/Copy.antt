-- ===== src/Kstd/CircularQueue/Copy.antt =====
-- The copies of `kstd::circular_queue` (kernel/kstd/circular_queue.hpp). They go over the slots from
-- zero on, whatever the front is.
use duck_os.Prelude.{
  ℕ, zero, suc, ◌+◌, ◌≤◌, ◌<◌, ◌≡◌, refl, ◌∙◌, ◌⊎◌, inr, Option, none, some, List, [], ◌∷◌, arith,
  length, get_elem?, set, replicate, length-set, length-replicate, get_elem?-set_self,
  get_elem?-set_ne,
}
use native.Mathlib.Decide.{ℕ_discrete}
use duck_os.Kstd.Ring.{Ring, slot, copy_slots, copy, assign}
use duck_os.Kstd.Ring.Holds.{Holds}
use duck_os.Kstd.CircularQueue.{front}

get_elem?-past_end : {B : Type 0} (xs : List B) (i : ℕ) → length xs ≤ i → get_elem? xs i ≡ none
get_elem?-past_end [] i h = refl
get_elem?-past_end (x ∷ xs) zero h = absurd (omega arith)
get_elem?-past_end (x ∷ xs) (suc i) h = get_elem?-past_end xs i (omega arith)

module _ {A : Type 0} where
  length-copy_slots :
      (n i : ℕ) (from to : List (Option A)) → length (copy_slots n i from to) ≡ length to
  unfolding copy_slots
  length-copy_slots zero i from to = refl
  length-copy_slots (suc n) i from to =
      length-copy_slots n (i + 1) from (set to i (slot from i)) ∙ length-set to i (slot from i)

  copy_slots-outside :
      (n i j : ℕ) (from to : List (Option A))
      → (j < i) ⊎ (i + n ≤ j)
      → get_elem? (copy_slots n i from to) j ≡ get_elem? to j
  unfolding copy_slots
  copy_slots-outside zero i j from to h = refl
  copy_slots-outside (suc n) i j from to h =
      copy_slots-outside n (i + 1) j from (set to i (slot from i)) (omega arith)
      ∙ get_elem?-set_ne to i j (slot from i) (omega arith)

  copy_slots-inside :
      (n i j : ℕ) (from to : List (Option A))
      → i ≤ j
      → j < i + n
      → j < length to
      → get_elem? (copy_slots n i from to) j ≡ some (slot from j)
  unfolding copy_slots
  copy_slots-inside zero i j from to lo hi h = absurd (omega arith)
  copy_slots-inside (suc n) i j from to lo hi h = elim (ℕ_discrete i j) [
    | yes e ↦ rw (← e) (
        copy_slots-outside n (i + 1) i from (set to i (slot from i)) (omega arith)
        ∙ get_elem?-set_self to i (slot from i) (omega arith))
    | no ne ↦
        copy_slots-inside n (i + 1) j from (set to i (slot from i)) (omega arith) (omega arith)
          (omega (arith, length-set to i (slot from i)))
  ]

  -- When a nonempty queue holds a list and its front index is at least its size, the copy
  -- constructor makes a queue of the same size whose front index lies past the end of its storage.
  pub copy-unreadable :
      (r : Ring A) (xs : List A)
      → Holds r xs
      → 0 < r.size
      → r.size ≤ r.front
      → ((copy r).size ≡ length xs) × (get_elem? (copy r).storage (copy r).front ≡ none)
  unfolding copy
  copy-unreadable r xs v p h = (
    v.sized,
    get_elem?-past_end (copy r).storage r.front (
        omega (
          arith,
          length-copy_slots r.size 0 r.storage (replicate r.size none),
          length-replicate {A = Option A} r.size none,
        )),
  )

  get_elem?-replicate : (n i : ℕ) (a : Option A) → i < n → get_elem? (replicate n a) i ≡ some a
  get_elem?-replicate zero i a h = elim h [ ]
  get_elem?-replicate (suc n) zero a h = refl
  get_elem?-replicate (suc n) (suc i) a h = get_elem?-replicate n i a (omega arith)

  -- When a queue holds a list with a first object and its front index is at least its size, the
  -- queue that copy assignment makes has no object at its front.
  pub assign-loses_front :
      (r : Ring A) (x : A) (xs : List A)
      → Holds r (x ∷ xs)
      → r.size ≤ r.front
      → (front r ≡ some x) × (front (assign r) ≡ none)
  unfolding assign front
  assign-loses_front r x xs v h = (
    ground (arith, v.slots 0, v.front_in),
    let e : get_elem? (assign r).storage r.front ≡ some none =
          copy_slots-outside r.size 0 r.front r.storage (replicate r.capacity none)
            (inr (omega arith))
          ∙ get_elem?-replicate r.capacity r.front none (ground (arith, v.front_in)) in
        ground (arith, e),
  )

  pub assign-Holds : (r : Ring A) (xs : List A) → Holds r xs → r.front ≡ 0 → Holds (assign r) xs
  unfolding assign
  assign-Holds r xs v z = record {
    sized = v.sized;
    fits = v.fits;
    room =
        length-copy_slots r.size 0 r.storage (replicate r.capacity none)
        ∙ length-replicate {A = Option A} r.capacity none;
    small = v.small;
    front_in = v.front_in;
    back_at = v.back_at;
    slots = λ k h. ground (
      arith,
      v.slots k,
      copy_slots-inside r.size 0 k r.storage (replicate r.capacity none),
      length-replicate {A = Option A} r.capacity none,
    );
  }
