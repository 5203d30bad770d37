-- ===== src/Memory/VmSpace/Place/Position.antt =====
-- Where `VMSpace::alloc_space_at` of kernel/memory/VMSpace.cpp puts the region.
use duck_os.Prelude.{
  ℕ, zero, suc, ◌+◌, ◌≤◌, ◌<◌, ◌≡◌, Bool, true, not, some, List, [], ◌∷◌, arith, get_elem?, ◌==◌,
  if◌then◌else◌,
}
use duck_os.Prelude.Words.{size_limit}
use duck_os.Memory.VmSpace.{SpaceRegion, followed_by, take_at, alloc_at_in}
use duck_os.Memory.VmSpace.Invariant.{
  Chain, Chain-le, Chain-bounds, Gives, start_at, in_range, contains-in_range,
}

module _ (size address e : ℕ) (small : e < size_limit) where
  take_at-start_at :
      (r : SpaceRegion) (rs : List SpaceRegion)
      → r.start + r.size ≤ e
      → in_range r.start r.size address ≡ true
      → Gives
          (λ rs' i. start_at rs' i ≡ (if r.size == size then r.start else address))
          (followed_by rs (take_at size address r))
  unfolding take_at
  take_at-start_at r rs h m = ground arith

  pub alloc_at_in-start_at_region :
      (free : Bool) (a j : ℕ) (r : SpaceRegion) (rs : List SpaceRegion)
      → Chain free a rs e
      → get_elem? rs j ≡ some r
      → in_range r.start r.size address ≡ true
      → Gives
          (λ rs' i. start_at rs' i ≡ (if r.size == size then r.start else address))
          (alloc_at_in size address rs)
  unfolding alloc_at_in
  alloc_at_in-start_at_region free a j r [] c g m = cc
  alloc_at_in-start_at_region free a zero r (s ∷ rs) c g m = ground (
    arith,
    take_at-start_at s rs,
    contains-in_range s address,
    Chain-le (not s.used) (a + s.size) e rs c.4,
  )
  alloc_at_in-start_at_region free a (suc j) r (s ∷ rs) c g m = ground (
    arith,
    contains-in_range s address,
    Chain-bounds (not s.used) (a + s.size) e j r rs c.4 g,
    alloc_at_in-start_at_region (not s.used) (a + s.size) j r rs c.4 g m,
  )
