-- ===== src/Kstd/Queue/Contains.antt =====
-- `contains` of `kstd::queue` (kernel/kstd/queue.hpp). Its loop ends at a remainder by the size instead
-- of the capacity.
use duck_os.Prelude.{
  ℕ, zero, suc, ◌+◌, ◌-◌, ◌%◌, ◌≤◌, ◌<◌, ◌≡◌, refl, subst, ◌∙◌, inl, inr, Bool, true, false, Option,
  some, List, [], ◌∷◌, arith, length, get_elem?, ◌==◌, ltb, if◌then◌else◌, Bool-cases,
}
use native.Mathlib.Nat.{mod-eq_of_lt, mod-eq-sub-mod, mod-le}
use duck_os.Prelude.Words.{add_size}
use duck_os.Prelude.Outcome.{Outcome, ok}
use duck_os.Kstd.Ring.{Ring, slot}
use duck_os.Kstd.Ring.Holds.{Holds, around, mod-around}
use duck_os.Kstd.Queue.{scan, contains, is_empty}

get_elem?-inside :
    {A : Type 0} (xs : List A) (k : ℕ) → k < length xs → (x : A) × (get_elem? xs k ≡ some x)
get_elem?-inside [] k h = absurd (omega arith)
get_elem?-inside (x ∷ xs) zero h = (x, refl)
get_elem?-inside (x ∷ xs) (suc k) h = get_elem?-inside xs k (omega arith)

either_way :
    (b : Bool)
    → ◌≡◌ {A = Option (Outcome Bool)}
        (if b then some (ok true) else some (ok true))
        (some (ok true))
either_way true = refl
either_way false = refl

module _ {A : Type 0} where
  next_slot :
      (r : Ring A) (xs : List A) (j : ℕ)
      → Holds r xs
      → j + 1 < r.size
      → add_size (around r.capacity r.front j) 1 % r.capacity ≡ around r.capacity r.front (j + 1)
  next_slot r xs j v h =
      ground (arith, v.front_in, mod-around r.capacity (around r.capacity r.front j) 1)

  -- The loop does not end in front of an object that the queue holds.
  not_yet :
      (r : Ring A) (xs : List A) (j : ℕ)
      → Holds r xs
      → j + 1 < r.size
      → (around r.capacity r.front (j + 1) == add_size r.back 1 % r.size) ≡ false
  not_yet r xs j v h = elim (Bool-cases (ltb (r.front + (r.size - 1)) r.capacity)) [
    | inl straight ↦
        let behind : add_size r.back 1 ≡ r.front + r.size = ground (arith, v.back_at, v.front_in) in
        let early : (r.front + r.size) % r.size ≤ r.front = omega (
          arith,
          mod-eq-sub-mod {n = r.front + r.size} {m = r.size} (omega arith),
          mod-le (r.front + r.size - r.size) r.size,
        ) in
        rw behind (ground (arith, early))
    | inr wrapped ↦
        let behind : add_size r.back 1 ≡ r.front + r.size - r.capacity =
          ground (arith, v.back_at, v.front_in) in
        let end : (r.front + r.size - r.capacity) % r.size ≡ r.front + r.size - r.capacity =
          mod-eq_of_lt (ground (arith, v.front_in)) in
        rw behind (ground (arith, end, v.front_in))
  ]

  slot-live :
      (r : Ring A) (xs : List A) (k : ℕ) (x : A)
      → Holds r xs
      → k < r.size
      → get_elem? xs k ≡ some x
      → slot r.storage (around r.capacity r.front k) ≡ some x
  slot-live r xs k x v h g = ground (arith, v.slots k h, g)

  scan-round :
      (same : A → A → Bool) (value y : A) (fuel i : ℕ) (r : Ring A)
      → slot r.storage i ≡ some y
      → scan same value (suc fuel) i r ≡ (
          if same y value
          then some (ok true)
          else if (add_size i 1 % r.capacity) == (add_size r.back 1 % r.size)
          then some (ok false)
          else scan same value fuel (add_size i 1 % r.capacity) r)
  unfolding scan
  scan-round same value y fuel i r s = rw (scan, s) refl

  scan-held :
      (same : A → A → Bool) (value x : A) (r : Ring A) (xs : List A) (d fuel j : ℕ)
      → Holds r xs
      → j + d < r.size
      → get_elem? xs (j + d) ≡ some x
      → same x value ≡ true
      → d < fuel
      → scan same value fuel (around r.capacity r.front j) r ≡ some (ok true)
  scan-held same value x r xs d zero j v h g e f = absurd (omega arith)
  scan-held same value x r xs zero (suc fuel) j v h g e f =
      let at : j + 0 ≡ j = omega arith in
      let found : get_elem? xs j ≡ some x = subst (λ k. get_elem? xs k ≡ some x) at g in
      rw
        (
          scan-round same value x fuel (around r.capacity r.front j) r
              (slot-live r xs j x v (omega arith) found),
          e,
        )
        refl
  scan-held same value x r xs (suc d) (suc fuel) j v h g e f =
      let (y, here) = get_elem?-inside xs j (omega (arith, v.sized)) in
      let at : j + suc d ≡ j + 1 + d = omega arith in
      let ih =
        scan-held same value x r xs d fuel (j + 1) v (omega arith)
          (subst (λ k. get_elem? xs k ≡ some x) at g) e (omega arith) in
      scan-round same value y fuel (around r.capacity r.front j) r
        (slot-live r xs j y v (omega arith) here)
      ∙ rw (next_slot r xs j v (omega arith), not_yet r xs j v (omega arith), ih)
          (either_way (same y value))

  -- When a ring holds a list of objects and one of them is the same as the value by the test
  -- given, contains ends within as many rounds as the capacity and says true, before it has read
  -- any slot where no object lives.
  pub contains-held :
      (same : A → A → Bool) (value x : A) (k : ℕ) (r : Ring A) (xs : List A)
      → Holds r xs
      → get_elem? xs k ≡ some x
      → k < length xs
      → same x value ≡ true
      → contains same value r ≡ some (ok true)
  unfolding contains is_empty
  contains-held same value x k r xs v g h e =
      let some_in : (r.size == 0) ≡ false = ground (arith, v.sized) in
      let first : around r.capacity r.front 0 ≡ r.front = ground (arith, v.front_in, v.sized) in
      rw some_in (
        subst (λ i. scan same value r.capacity i r ≡ some (ok true)) first
          (scan-held same value x r xs k r.capacity 0 v (omega (arith, v.sized))
            (subst (λ i. get_elem? xs i ≡ some x) (omega arith) g) e
            (omega (arith, v.sized, v.fits))))
