-- ===== src/Kstd/Ring/Takes.antt =====
-- Taking an object from either end of a ring (kernel/kstd/circular_queue.hpp, kernel/kstd/queue.hpp).
use duck_os.Prelude.{
  suc, ◌+◌, ◌-◌, ◌%◌, ◌<◌, ◌≡◌, ◌≢◌, refl, subst, ◌∙◌, inl, inr, none, some, List, [], ◌∷◌, ◌++◌,
  arith, length, set, length-set, get_elem?-set_ne, length-append,
}
use native.Mathlib.Decide.{ℕ_discrete}
use duck_os.Prelude.Words.{size_limit, add_size}
use duck_os.Kstd.Ring.{Ring, take_front, take_back}
use duck_os.Kstd.Ring.Holds.{
  Holds, around, mod-around, get_elem?-append_left, get_elem?-append_end, nil_of_length,
}

module _ {A : Type 0} where
  -- A ring of no objects, whatever its slots hold.
  pub Holds-none :
      (r : Ring A)
      → r.size ≡ 0
      → length r.storage ≡ r.capacity
      → r.capacity < size_limit
      → Holds r []
  Holds-none r z l q = record {
    sized = z;
    fits = omega arith;
    room = l;
    small = q;
    front_in = inr z;
    back_at = inl z;
    slots = λ k h. absurd (omega arith);
  }

  take_front-slot :
      (r : Ring A) (x : A) (xs : List A) → Holds r (x ∷ xs) → (take_front r).0 ≡ some x
  unfolding take_front
  take_front-slot r x xs v = ground (arith, v.slots 0, v.front_in)

  take_front-more :
      (r : Ring A) (x : A) (xs : List A)
      → Holds r (x ∷ xs)
      → r.size ≢ 1
      → (take_front r).1 ≡ record r {
        storage = set r.storage r.front none;
        size = r.size - 1;
        front = around r.capacity r.front 1;
      }
  unfolding take_front
  take_front-more r x xs v n =
      let f : add_size r.front 1 % r.capacity ≡ around r.capacity r.front 1 =
        ground (arith, v.front_in, mod-around r.capacity r.front 1) in
      ground (arith, f)

  Holds-behind_front :
      (r : Ring A) (x : A) (xs : List A)
      → Holds r (x ∷ xs)
      → r.size ≢ 1
      → Holds
          (record r {
            storage = set r.storage r.front none;
            size = r.size - 1;
            front = around r.capacity r.front 1;
          })
          xs
  Holds-behind_front r x xs v n = record {
    sized = omega (arith, v);
    fits = omega (arith, v);
    room = length-set r.storage r.front none ∙ v.room;
    small = v.small;
    front_in = ground (arith, v.front_in);
    back_at = ground (arith, v.front_in, v.back_at);
    slots = λ k p. ground (
      arith,
      v.front_in,
      v.slots (suc k),
      get_elem?-set_ne r.storage r.front (around r.capacity r.front (suc k)) none,
    );
  }

  take_front-last :
      (r : Ring A)
      → r.size ≡ 1
      → (take_front r).1
        ≡ record r { storage = set r.storage r.front none; size = 0; front = 0; back = 0 }
  unfolding take_front
  take_front-last r e = ground arith

  -- Taking from the front yields the first object and leaves the others.
  pub take_front-Holds :
      (r : Ring A) (x : A) (xs : List A)
      → Holds r (x ∷ xs)
      → ((take_front r).0 ≡ some x) × Holds (take_front r).1 xs
  take_front-Holds r x xs v = (
    take_front-slot r x xs v,
    elim (ℕ_discrete r.size 1) [
      | no n ↦ rw (take_front-more r x xs v n) (Holds-behind_front r x xs v n)
      | yes e ↦ rw (take_front-last r e) (
          subst
            (Holds
              (record r { storage = set r.storage r.front none; size = 0; front = 0; back = 0 }))
            (nil_of_length xs (omega (arith, v)))
            (Holds-none _ refl (length-set r.storage r.front none ∙ v.room) v.small))
    ],
  )

  take_back-slot :
      (r : Ring A) (x : A) (xs : List A) → Holds r (xs ++ x ∷ []) → (take_back r).0 ≡ some x
  unfolding take_back
  take_back-slot r x xs v = ground (
    arith,
    length-append xs (x ∷ []),
    v.back_at,
    v.slots (r.size - 1),
    get_elem?-append_end xs x (r.size - 1),
  )

  take_back-last :
      (r : Ring A)
      → r.size ≡ 1
      → (take_back r).1
        ≡ record r { storage = set r.storage r.back none; size = 0; front = 0; back = 0 }
  unfolding take_back
  take_back-last r e = ground arith

  take_back-more :
      (r : Ring A) (x : A) (xs : List A)
      → Holds r (xs ++ x ∷ [])
      → r.size ≢ 1
      → (take_back r).1 ≡ record r {
        storage = set r.storage r.back none;
        size = r.size - 1;
        back = around r.capacity r.front (r.size - 2);
      }
  unfolding take_back
  take_back-more r x xs v n =
      let s : r.size ≡ length xs + 1 = omega (arith, v, length-append xs (x ∷ [])) in
      ground (arith, v.front_in, v.back_at)

  Holds-before_back :
      (r : Ring A) (x : A) (xs : List A)
      → Holds r (xs ++ x ∷ [])
      → r.size ≢ 1
      → Holds
          (record r {
            storage = set r.storage r.back none;
            size = r.size - 1;
            back = around r.capacity r.front (r.size - 2);
          })
          xs
  Holds-before_back r x xs v n =
      let s : r.size ≡ length xs + 1 = omega (arith, v, length-append xs (x ∷ [])) in
      record {
        sized = omega arith;
        fits = omega (arith, v);
        room = length-set r.storage r.back none ∙ v.room;
        small = v.small;
        front_in = ground (arith, v.front_in);
        back_at = ground (arith, v.front_in, v.back_at);
        slots = λ k p. ground (
          arith,
          v.front_in,
          v.back_at,
          v.slots k,
          get_elem?-append_left xs (x ∷ []) k,
          get_elem?-set_ne r.storage r.back (around r.capacity r.front k) none,
        );
      }

  -- Taking from the back yields the last object and leaves the others.
  pub take_back-Holds :
      (r : Ring A) (x : A) (xs : List A)
      → Holds r (xs ++ x ∷ [])
      → ((take_back r).0 ≡ some x) × Holds (take_back r).1 xs
  take_back-Holds r x xs v = (
    take_back-slot r x xs v,
    elim (ℕ_discrete r.size 1) [
      | no n ↦ rw (take_back-more r x xs v n) (Holds-before_back r x xs v n)
      | yes e ↦ rw (take_back-last r e) (
          subst
            (Holds
              (record r { storage = set r.storage r.back none; size = 0; front = 0; back = 0 }))
            (nil_of_length xs (omega (arith, v, length-append xs (x ∷ []))))
            (Holds-none _ refl (length-set r.storage r.back none ∙ v.room) v.small))
    ],
  )
