-- ===== src/Memory/VmSpace/Place/Undo.antt =====
-- `VMSpace::free_region` undoes `VMSpace::alloc_space_at` (kernel/memory/VMSpace.cpp).
use duck_os.Prelude.{
  ℕ, ◌+◌, ◌<◌, ◌≡◌, ◌⊎◌, inl, inr, Bool, true, not, List, [], ◌∷◌, arith, Bool-cases,
}
use duck_os.Prelude.Words.{size_limit}
use duck_os.Memory.VmSpace.{
  SpaceRegion, contains, followed_by, take_at, alloc_at_in, merge_next, merge_prev, freed, free_in,
}
use duck_os.Memory.VmSpace.Invariant.{Chain, Chain-le, Gives, in_range, contains-in_range}
use duck_os.Memory.VmSpace.Undo.{merge_next-alone, undo-behind}

module _ (size address e : ℕ) (pos : 0 < size) (small : e < size_limit) where
  take_at-undo :
      (free : Bool) (a : ℕ) (r : SpaceRegion) (rs : List SpaceRegion)
      → Chain free a (r ∷ rs) e
      → in_range r.start r.size address ≡ true
      → Gives (λ rs' i. free_in i rs' ≡ r ∷ rs) (followed_by rs (take_at size address r))
  unfolding take_at free_in freed merge_prev merge_next
  take_at-undo free a r rs c m =
      ground
        (arith, merge_next-alone (a + r.size) e r rs, Chain-le (not r.used) (a + r.size) e rs c.4)

  -- The region at the front is in use, so it is not the one that is granted.
  alloc_at_in-index :
      (a : ℕ) (rs : List SpaceRegion)
      → Chain true a rs e
      → Gives (λ rs' i. 0 < i) (alloc_at_in size address rs)
  unfolding alloc_at_in take_at
  alloc_at_in-index a [] c = tt
  alloc_at_in-index a (r ∷ rs) c = ground arith

  alloc_at_in-undo_step :
      (free : Bool) (a : ℕ) (r : SpaceRegion) (rs : List SpaceRegion)
      → Chain free a (r ∷ rs) e
      → (r.used ≡ true) ⊎ Gives (λ rs' i. 0 < i) (alloc_at_in size address rs)
      → Gives (λ rs' i. free_in i rs' ≡ rs) (alloc_at_in size address rs)
      → Gives (λ rs' i. free_in i rs' ≡ r ∷ rs) (alloc_at_in size address (r ∷ rs))
  unfolding alloc_at_in
  alloc_at_in-undo_step free a r rs c h ih = elim (Bool-cases (contains r address)) [
    | inr past ↦ rw past (undo-behind r rs (alloc_at_in size address rs) h ih)
    | inl here ↦ rw here (
        take_at-undo free a r rs c (
          ground (arith, contains-in_range r address, Chain-le (not r.used) (a + r.size) e rs c.4)))
  ]

  pub alloc_at_in-undo :
      (free : Bool) (a : ℕ) (rs : List SpaceRegion)
      → Chain free a rs e
      → Gives (λ rs' i. free_in i rs' ≡ rs) (alloc_at_in size address rs)
  unfolding alloc_at_in
  alloc_at_in-undo free a [] c = tt
  alloc_at_in-undo free a (r ∷ rs) c = elim (Bool-cases r.used) [
    | inl u ↦
        alloc_at_in-undo_step free a r rs c (inl u)
          (alloc_at_in-undo (not r.used) (a + r.size) rs c.4)
    | inr u ↦
        alloc_at_in-undo_step free a r rs c (inr (alloc_at_in-index (a + r.size) rs (rw u at c.4)))
          (alloc_at_in-undo (not r.used) (a + r.size) rs c.4)
  ]
