-- ===== src/Memory/VmSpace/Place/View.antt =====
-- `VMSpace::alloc_space_at` of kernel/memory/VMSpace.cpp against the set of addresses in use.
use duck_os.Prelude.{
  ℕ, ◌+◌, ◌≤◌, ◌<◌, ◌≡◌, inl, inr, subst, Bool, true, false, not, ◌&&◌, ◌||◌, Option, none, some,
  List, [], ◌∷◌, arith, ◌==◌, Bool-cases,
}
use duck_os.Prelude.Words.{size_limit, add_size, sub_size}
use duck_os.Memory.VmSpace.{SpaceRegion, contains, behind, followed_by, take_at, alloc_at_in}
use duck_os.Memory.VmSpace.Invariant.{
  Chain, Chain-le, Gives, start_at, used_at, in_range, contains-in_range,
}

module _ (size address e : ℕ) (pos : 0 < size) (small : e < size_limit) (x : ℕ) where
  -- The granted range was free, and is all that changes.
  abbrev pub Claims : List SpaceRegion → List SpaceRegion → ℕ → Type 0
  Claims rs rs' i =
      (used_at rs' x ≡ (used_at rs x || in_range (start_at rs' i) size x))
      × ((in_range (start_at rs' i) size x && used_at rs x) ≡ false)

  abbrev gap : ℕ → ℕ → SpaceRegion
  gap start n = record { start = start; size = n; used = false; vm_region = none }

  take_at-Claims :
      (free : Bool) (a : ℕ) (r : SpaceRegion) (rs : List SpaceRegion)
      → Chain free a (r ∷ rs) e
      → in_range r.start r.size address ≡ true
      → Gives (Claims (r ∷ rs)) (followed_by rs (take_at size address r))
  unfolding take_at used_at
  take_at-Claims free a r rs c m = elim (Bool-cases (r.size == size)) [
    | inl exact ↦ ground (
      arith,
      Chain-le (not r.used) (a + r.size) e rs c.4,
      contains-in_range r x,
      contains-in_range (record r { used = true }) x,
    )
    | inr larger ↦ ground (
      arith,
      Chain-le (not r.used) (a + r.size) e rs c.4,
      contains-in_range r x,
      contains-in_range (record r { start = address; size = size; used = true }) x,
      contains-in_range (gap r.start (sub_size address r.start)) x,
      contains-in_range
          (gap (add_size address size) (sub_size (add_size r.start r.size) (add_size address size)))
          x,
    )
  ]

  alloc_at_in-Claims-behind :
      (r : SpaceRegion) (rs : List SpaceRegion) (o : Option (List SpaceRegion × ℕ))
      → r.start + r.size < size_limit
      → Gives (λ rs' i. r.start + r.size ≤ start_at rs' i) o
      → Gives (Claims rs) o
      → Gives (Claims (r ∷ rs)) (behind r o)
  unfolding used_at
  alloc_at_in-Claims-behind r rs none h b c = tt
  alloc_at_in-Claims-behind r rs (some (rs', i)) h b c = ground (arith, contains-in_range r x)

  alloc_at_in-start_at :
      (free : Bool) (a : ℕ) (rs : List SpaceRegion)
      → Chain free a rs e
      → Gives (λ rs' i. a ≤ start_at rs' i) (alloc_at_in size address rs)
  unfolding alloc_at_in take_at
  alloc_at_in-start_at free a [] c = tt
  alloc_at_in-start_at free a (r ∷ rs) c = ground (
    arith,
    contains-in_range r address,
    Chain-le (not r.used) (a + r.size) e rs c.4,
    alloc_at_in-start_at (not r.used) (a + r.size) rs c.4,
  )

  pub alloc_at_in-Claims :
      (free : Bool) (a : ℕ) (rs : List SpaceRegion)
      → Chain free a rs e
      → Gives (Claims rs) (alloc_at_in size address rs)
  unfolding alloc_at_in
  alloc_at_in-Claims free a [] c = tt
  alloc_at_in-Claims free a (r ∷ rs) c = elim (Bool-cases (contains r address)) [
    | inl here ↦ rw here (
        take_at-Claims free a r rs c (
          ground (arith, contains-in_range r address, Chain-le (not r.used) (a + r.size) e rs c.4)))
    | inr past ↦ rw past (
        alloc_at_in-Claims-behind r rs (alloc_at_in size address rs)
          (omega (arith, Chain-le (not r.used) (a + r.size) e rs c.4))
          (subst (λ k. Gives (λ rs' i. k ≤ start_at rs' i) (alloc_at_in size address rs))
            (omega arith) (alloc_at_in-start_at (not r.used) (a + r.size) rs c.4))
          (alloc_at_in-Claims (not r.used) (a + r.size) rs c.4))
  ]
