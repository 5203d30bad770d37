-- ===== src/Memory/VmSpace/Alloc.antt =====
-- `VMSpace::alloc_space` of kernel/memory/VMSpace.cpp: the first free region that is large enough.
use duck_os.Prelude.{
  ℕ, zero, suc, ◌+◌, ◌≤◌, ◌<◌, ◌≡◌, ◌⊎◌, inl, inr, Bool, true, false, not, ◌||◌, none, some, List,
  [], ◌∷◌, ◌++◌, arith, get_elem?, ◌==◌, Bool-cases,
}
use duck_os.Prelude.Words.{size_limit, add_size, sub_size}
use duck_os.Memory.VmSpace.{SpaceRegion, take_front, alloc_in}
use duck_os.Memory.VmSpace.Invariant.{
  Chain, Chain-le, Chain-weaken, used_total, Gives, start_at, used_at, in_range, granted,
  contains-in_range,
}

module _ (size e : ℕ) (pos : 0 < size) (small : e < size_limit) where
  take_front-Chain :
      (free : Bool) (a : ℕ) (r : SpaceRegion) (rs : List SpaceRegion)
      → r.used ≡ false
      → size ≤ r.size
      → Chain free a (r ∷ rs) e
      → Chain free a (take_front size r ++ rs) e
  unfolding take_front
  take_front-Chain free a r rs u fits c = ground (
    arith,
    Chain-le (not r.used) (a + r.size) e rs c.4,
    Chain-weaken (not r.used) (a + r.size) e rs c.4,
  )

  pub alloc_in-Chain :
      (free : Bool) (a : ℕ) (rs : List SpaceRegion)
      → Chain free a rs e
      → Gives (λ rs' i. Chain free a rs' e) (alloc_in size rs)
  unfolding alloc_in
  alloc_in-Chain free a [] c = tt
  alloc_in-Chain free a (r ∷ rs) c =
      ground (arith, alloc_in-Chain (not r.used) (a + r.size) rs c.4, take_front-Chain free a r rs)

  -- The granted region starts inside the space.
  alloc_in-start_at :
      (free : Bool) (a : ℕ) (rs : List SpaceRegion)
      → Chain free a rs e
      → Gives (λ rs' i. a ≤ start_at rs' i) (alloc_in size rs)
  unfolding alloc_in take_front
  alloc_in-start_at free a [] c = tt
  alloc_in-start_at free a (r ∷ rs) c =
      ground (arith, alloc_in-start_at (not r.used) (a + r.size) rs c.4)

  pub alloc_in-used_total :
      (free : Bool) (a : ℕ) (rs : List SpaceRegion)
      → Chain free a rs e
      → Gives (λ rs' i. used_total rs' ≡ used_total rs + size) (alloc_in size rs)
  unfolding alloc_in take_front used_total
  alloc_in-used_total free a [] c = tt
  alloc_in-used_total free a (r ∷ rs) c =
      ground (arith, alloc_in-used_total (not r.used) (a + r.size) rs c.4)

  take_front-used_at :
      (x : ℕ) (r : SpaceRegion) (rs : List SpaceRegion)
      → r.used ≡ false
      → size ≤ r.size
      → r.start + r.size ≤ e
      → used_at (take_front size r ++ rs) x
        ≡ (used_at (r ∷ rs) x || in_range (start_at (take_front size r ++ rs) 0) size x)
  unfolding take_front used_at
  take_front-used_at x r rs u fits h = elim (Bool-cases (r.size == size)) [
    | inl exact ↦ ground (
      arith,
      contains-in_range r x (omega arith),
      contains-in_range (record r { used = true }) x (omega arith),
    )
    | inr larger ↦ ground (
      arith,
      contains-in_range r x (omega arith),
      contains-in_range (record { start = r.start; size = size; used = true; vm_region = none }) x,
      contains-in_range (record r { start = add_size r.start size; size = sub_size r.size size }) x,
    )
  ]

  pub alloc_in-used_at :
      (free : Bool) (a x : ℕ) (rs : List SpaceRegion)
      → Chain free a rs e
      → Gives
          (λ rs' i. used_at rs' x ≡ (used_at rs x || in_range (start_at rs' i) size x))
          (alloc_in size rs)
  unfolding alloc_in used_at
  alloc_in-used_at free a x [] c = tt
  alloc_in-used_at free a x (r ∷ rs) c = ground (
    arith,
    alloc_in-used_at (not r.used) (a + r.size) x rs c.4,
    alloc_in-start_at (not r.used) (a + r.size) rs c.4,
    Chain-le (not r.used) (a + r.size) e rs c.4,
    take_front-used_at x r rs,
    contains-in_range r x,
  )

  take_front-fresh :
      (x : ℕ) (r : SpaceRegion) (rs : List SpaceRegion)
      → r.used ≡ false
      → size ≤ r.size
      → r.start + r.size ≤ e
      → in_range (start_at (take_front size r ++ rs) 0) size x ≡ true
      → used_at (r ∷ rs) x ≡ false
  unfolding take_front used_at
  take_front-fresh x r rs u fits h m = ground (arith, contains-in_range r x)

  -- No address of the granted range was in use.
  pub alloc_in-fresh :
      (free : Bool) (a x : ℕ) (rs : List SpaceRegion)
      → Chain free a rs e
      → Gives
          (λ rs' i. in_range (start_at rs' i) size x ≡ true → used_at rs x ≡ false)
          (alloc_in size rs)
  unfolding alloc_in used_at
  alloc_in-fresh free a x [] c = tt
  alloc_in-fresh free a x (r ∷ rs) c = ground (
    arith,
    alloc_in-fresh (not r.used) (a + r.size) x rs c.4,
    alloc_in-start_at (not r.used) (a + r.size) rs c.4,
    Chain-le (not r.used) (a + r.size) e rs c.4,
    take_front-fresh x r rs,
    contains-in_range r x,
  )

  -- The region that the returned position names.
  pub alloc_in-region :
      (free : Bool) (a : ℕ) (rs : List SpaceRegion)
      → Chain free a rs e
      → Gives (λ rs' i. get_elem? rs' i ≡ some (granted (start_at rs' i) size)) (alloc_in size rs)
  unfolding alloc_in take_front
  alloc_in-region free a [] c = tt
  alloc_in-region free a (r ∷ rs) c =
      ground (arith, alloc_in-region (not r.used) (a + r.size) rs c.4)

-- When the call fails, no region is free and large enough.
pub alloc_in-none :
    (size : ℕ) (rs : List SpaceRegion) (i : ℕ) (r : SpaceRegion)
    → alloc_in size rs ≡ none
    → get_elem? rs i ≡ some r
    → (r.used ≡ true) ⊎ (r.size < size)
unfolding alloc_in
alloc_in-none size [] i r h g = cc
alloc_in-none size (s ∷ rs) zero r h g = ground arith
alloc_in-none size (s ∷ rs) (suc i) r h g = ground (arith, alloc_in-none size rs i r)
