-- ===== src/Memory/VmSpace/Place.antt =====
-- `VMSpace::alloc_space_at` of kernel/memory/VMSpace.cpp: a region at a given address.
pub mod View
pub mod Undo
pub mod Position
use duck_os.Prelude.{
  ℕ, zero, suc, ◌+◌, ◌-◌, ◌≤◌, ◌<◌, ◌≡◌, refl, ◌⊎◌, inl, inr, Bool, true, false, not, ◌&&◌, ◌||◌,
  Option, none, some, List, [], ◌∷◌, ◌++◌, arith, length, get_elem?, ltb, leb, ◌==◌, if◌then◌else◌,
  Bool-cases,
}
use duck_os.Prelude.Words.{size_limit, add_size, sub_size}
use duck_os.Memory.VmSpace.{
  SpaceRegion, contains, behind, followed_by, before_gap, after_gap, take_at, alloc_at_in,
}
use duck_os.Memory.VmSpace.Invariant.{
  Chain, Chain-le, Chain-weaken, used_total, Gives, start_at, used_at, in_range, granted,
  contains-in_range,
}

module _ (size address e : ℕ) (pos : 0 < size) (small : e < size_limit) where
  take_at-Chain :
      (free : Bool) (a : ℕ) (r : SpaceRegion) (rs : List SpaceRegion)
      → Chain free a (r ∷ rs) e
      → in_range r.start r.size address ≡ true
      → Gives (λ rs' i. Chain free a rs' e) (followed_by rs (take_at size address r))
  unfolding take_at
  take_at-Chain free a r rs c m = ground (
    arith,
    Chain-le (not r.used) (a + r.size) e rs c.4,
    Chain-weaken (not r.used) (a + r.size) e rs c.4,
  )

  pub alloc_at_in-Chain :
      (free : Bool) (a : ℕ) (rs : List SpaceRegion)
      → Chain free a rs e
      → Gives (λ rs' i. Chain free a rs' e) (alloc_at_in size address rs)
  unfolding alloc_at_in
  alloc_at_in-Chain free a [] c = tt
  alloc_at_in-Chain free a (r ∷ rs) c = elim (Bool-cases (contains r address)) [
    | inl here ↦ rw here (
        take_at-Chain free a r rs c (
          ground (arith, contains-in_range r address, Chain-le (not r.used) (a + r.size) e rs c.4)))
    | inr past ↦ rw past (ground (arith, alloc_at_in-Chain (not r.used) (a + r.size) rs c.4))
  ]

  -- Where the granted region starts: at the address, unless a free region of just that size holds
  -- the address, which is then granted whole.
  abbrev pub Placed : List SpaceRegion → ℕ → Type 0
  Placed rs' i =
      (get_elem? rs' i ≡ some (granted (start_at rs' i) size))
      × (start_at rs' i ≤ address)
      × (address < start_at rs' i + size)

  take_at-Placed :
      (free : Bool) (a : ℕ) (r : SpaceRegion) (rs : List SpaceRegion)
      → Chain free a (r ∷ rs) e
      → in_range r.start r.size address ≡ true
      → Gives Placed (followed_by rs (take_at size address r))
  unfolding take_at
  take_at-Placed free a r rs c m = ground (arith, Chain-le (not r.used) (a + r.size) e rs c.4)

  pub alloc_at_in-Placed :
      (free : Bool) (a : ℕ) (rs : List SpaceRegion)
      → Chain free a rs e
      → Gives Placed (alloc_at_in size address rs)
  unfolding alloc_at_in
  alloc_at_in-Placed free a [] c = tt
  alloc_at_in-Placed free a (r ∷ rs) c = elim (Bool-cases (contains r address)) [
    | inl here ↦ rw here (
        take_at-Placed free a r rs c (
          ground (arith, contains-in_range r address, Chain-le (not r.used) (a + r.size) e rs c.4)))
    | inr past ↦ rw past (ground (arith, alloc_at_in-Placed (not r.used) (a + r.size) rs c.4))
  ]

  take_at-used_total :
      (free : Bool) (a : ℕ) (r : SpaceRegion) (rs : List SpaceRegion)
      → Chain free a (r ∷ rs) e
      → Gives
          (λ rs' i. used_total rs' ≡ used_total (r ∷ rs) + size)
          (followed_by rs (take_at size address r))
  unfolding take_at used_total
  take_at-used_total free a r rs c = ground arith

  pub alloc_at_in-used_total :
      (free : Bool) (a : ℕ) (rs : List SpaceRegion)
      → Chain free a rs e
      → Gives (λ rs' i. used_total rs' ≡ used_total rs + size) (alloc_at_in size address rs)
  unfolding alloc_at_in used_total
  alloc_at_in-used_total free a [] c = tt
  alloc_at_in-used_total free a (r ∷ rs) c = elim (Bool-cases (contains r address)) [
    | inl here ↦ rw here (take_at-used_total free a r rs c)
    | inr past ↦ rw past (ground (arith, alloc_at_in-used_total (not r.used) (a + r.size) rs c.4))
  ]
