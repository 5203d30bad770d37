-- ===== src/Memory/VmSpace/Find.antt =====
-- `VMSpace::find_free_space` against `VMSpace::alloc_space` (kernel/memory/VMSpace.cpp).
use duck_os.Prelude.{ℕ, ◌≡◌, true, not, ◌&&◌, Option, none, some, List, [], ◌∷◌, arith, leb}
use duck_os.Prelude.Outcome.{ok, err, enomem}
use duck_os.Memory.VmSpace.{SpaceRegion, take_front, alloc_in}
use duck_os.Memory.VmSpace.Invariant.{start_at}
use duck_os.Memory.VmSpace.Space.{Space, is_aligned, find_region, find_free_space, alloc_space}

-- Both loops stop at the same region, or neither does.
abbrev Agrees : Option (List SpaceRegion × ℕ) → Option (ℕ × SpaceRegion) → Type 0
Agrees none none = Unit {0}
Agrees none (some p) = ⊥
Agrees (some p) none = ⊥
Agrees (some (rs, i)) (some (j, r)) = (j ≡ i) × (r.start ≡ start_at rs i)

alloc_in-Agrees :
    (size : ℕ) (rs : List SpaceRegion)
    → Agrees (alloc_in size rs) (find_region (λ r. not r.used && leb size r.size) rs)
unfolding alloc_in take_front find_region
alloc_in-Agrees size [] = tt
alloc_in-Agrees size (r ∷ rs) = ground (arith, alloc_in-Agrees size rs)

module _ {D : Type 0} where
  -- For a page-aligned size, find_free_space names the start of the region that a successful
  -- alloc_space of that size returns, and it reports ENOMEM only if alloc_space does.
  pub find_free_space-alloc_space :
      (size : ℕ) (s : Space D)
      → is_aligned size ≡ true
      → ((i : ℕ) (t : Space D)
          → alloc_space size s ≡ ok (i, t)
          → find_free_space size s ≡ ok (start_at t.regions i))
        × (find_free_space size s ≡ err enomem → alloc_space size s ≡ err enomem)
  unfolding alloc_space find_free_space
  find_free_space-alloc_space size s a = (
    λ i t h. ground (arith, alloc_in-Agrees size s.regions),
    λ h. ground (arith, alloc_in-Agrees size s.regions),
  )
