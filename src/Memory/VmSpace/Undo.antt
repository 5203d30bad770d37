-- ===== src/Memory/VmSpace/Undo.antt =====
-- `VMSpace::free_region` undoes `VMSpace::alloc_space` (kernel/memory/VMSpace.cpp): the list of
-- regions is as it was before.
use duck_os.Prelude.{
  ℕ, zero, suc, ◌+◌, ◌≤◌, ◌<◌, ◌≡◌, refl, ◌⊎◌, inl, inr, Bool, true, false, not, ◌||◌, Option, none,
  some, ap, ◌∙◌, List, [], ◌∷◌, ◌++◌, arith, ltb, Bool-cases,
}
use duck_os.Prelude.Words.{size_limit}
use duck_os.Memory.VmSpace.{
  SpaceRegion, take_front, behind, alloc_in, merge_next, merge_prev, freed, free_in,
}
use duck_os.Memory.VmSpace.Invariant.{Chain, Chain-le, Gives}

-- Behind a region in use, or further on, freeing does not look at the region in front.
pub free_in-behind :
    (p : SpaceRegion) (i : ℕ) (rs : List SpaceRegion)
    → (p.used ≡ true) ⊎ (0 < i)
    → free_in (suc i) (p ∷ rs) ≡ p ∷ free_in i rs
unfolding free_in merge_prev
free_in-behind p zero [] h = refl
free_in-behind p zero (r ∷ rs) h = ground arith
free_in-behind p (suc i) rs h = refl

-- A region in use is not merged into.
pub merge_next-alone :
    (a e : ℕ) (r : SpaceRegion) (rs : List SpaceRegion)
    → Chain true a rs e
    → merge_next r rs ≡ r ∷ rs
unfolding merge_next
merge_next-alone a e r [] c = refl
merge_next-alone a e r (n ∷ rs) c = ground arith

-- The same of a position that an allocation further on gives.
pub undo-behind :
    (p : SpaceRegion) (rs : List SpaceRegion) (o : Option (List SpaceRegion × ℕ))
    → (p.used ≡ true) ⊎ Gives (λ rs' i. 0 < i) o
    → Gives (λ rs' i. free_in i rs' ≡ rs) o
    → Gives (λ rs' i. free_in i rs' ≡ p ∷ rs) (behind p o)
undo-behind p rs none h u = tt
undo-behind p rs (some (rs', i)) h u = free_in-behind p i rs' h ∙ ap (◌∷◌ p) u

module _ (size e : ℕ) (pos : 0 < size) (small : e < size_limit) where
  take_front-undo :
      (a : ℕ) (free : Bool) (r : SpaceRegion) (rs : List SpaceRegion)
      → Chain free a (r ∷ rs) e
      → r.used ≡ false
      → size ≤ r.size
      → free_in zero (take_front size r ++ rs) ≡ r ∷ rs
  unfolding take_front free_in freed merge_next
  take_front-undo a free r rs c u fits = ground (
    arith,
    merge_next-alone (a + r.size) e r rs (rw u at c.4),
    Chain-le (not r.used) (a + r.size) e rs c.4,
  )

  alloc_in-index :
      (a : ℕ) (rs : List SpaceRegion)
      → Chain true a rs e
      → Gives (λ rs' i. 0 < i) (alloc_in size rs)
  unfolding alloc_in
  alloc_in-index a [] c = tt
  alloc_in-index a (r ∷ rs) c = ground arith

  alloc_in-undo_step :
      (free : Bool) (a : ℕ) (r : SpaceRegion) (rs : List SpaceRegion)
      → Chain free a (r ∷ rs) e
      → (r.used ≡ true) ⊎ Gives (λ rs' i. 0 < i) (alloc_in size rs)
      → Gives (λ rs' i. free_in i rs' ≡ rs) (alloc_in size rs)
      → Gives (λ rs' i. free_in i rs' ≡ r ∷ rs) (alloc_in size (r ∷ rs))
  unfolding alloc_in
  alloc_in-undo_step free a r rs c h ih = elim (Bool-cases (r.used || ltb r.size size)) [
    | inl skip ↦ rw skip (undo-behind r rs (alloc_in size rs) h ih)
    | inr fit ↦ rw fit (take_front-undo a free r rs c (ground arith) (ground arith))
  ]

  pub alloc_in-undo :
      (free : Bool) (a : ℕ) (rs : List SpaceRegion)
      → Chain free a rs e
      → Gives (λ rs' i. free_in i rs' ≡ rs) (alloc_in size rs)
  unfolding alloc_in
  alloc_in-undo free a [] c = tt
  alloc_in-undo free a (r ∷ rs) c = elim (Bool-cases r.used) [
    | inl u ↦
        alloc_in-undo_step free a r rs c (inl u) (alloc_in-undo (not r.used) (a + r.size) rs c.4)
    | inr u ↦
        alloc_in-undo_step free a r rs c (inr (alloc_in-index (a + r.size) rs (rw u at c.4)))
          (alloc_in-undo (not r.used) (a + r.size) rs c.4)
  ]
