-- ===== src/Memory/VmSpace/Fresh.antt =====
-- The addresses of the `VMRegion`s of a space (kernel/memory/VMSpace.cpp): each below the next one.
use duck_os.Prelude.{
  ℕ, zero, suc, ◌<◌, ◌≡◌, refl, ap, Option, none, some, List, [], ◌∷◌, arith, get_elem?,
}
use duck_os.Memory.VmSpace.{
  SpaceRegion, VmRegion, take_front, alloc_in, take_at, alloc_at_in, merge_next, merge_prev, freed,
  free_in,
}
use duck_os.Memory.VmSpace.Invariant.{Gives}
use duck_os.Memory.VmSpace.Space.{set_vm_region, find_region, is_mapped_as}

abbrev pub IsBelow : ℕ → Option VmRegion → Type 0
IsBelow n none = Unit {0}
IsBelow n (some v) = v.id < n

abbrev pub Fresh : ℕ → List SpaceRegion → Type 0
Fresh n [] = Unit {0}
Fresh n (r ∷ rs) = IsBelow n r.vm_region × Fresh n rs

pub Fresh-suc : (n : ℕ) (rs : List SpaceRegion) → Fresh n rs → Fresh (suc n) rs
Fresh-suc n [] f = tt
Fresh-suc n (r ∷ rs) f = ground (arith, Fresh-suc n rs f.1)

pub alloc_in-Fresh :
    (n size : ℕ) (rs : List SpaceRegion)
    → Fresh n rs
    → Gives (λ rs' i. Fresh n rs') (alloc_in size rs)
unfolding alloc_in take_front
alloc_in-Fresh n size [] f = tt
alloc_in-Fresh n size (r ∷ rs) f = ground (arith, alloc_in-Fresh n size rs f.1)

pub alloc_at_in-Fresh :
    (n size address : ℕ) (rs : List SpaceRegion)
    → Fresh n rs
    → Gives (λ rs' i. Fresh n rs') (alloc_at_in size address rs)
unfolding alloc_at_in take_at
alloc_at_in-Fresh n size address [] f = tt
alloc_at_in-Fresh n size address (r ∷ rs) f =
    ground (arith, alloc_at_in-Fresh n size address rs f.1)

pub free_in-Fresh : (n i : ℕ) (rs : List SpaceRegion) → Fresh n rs → Fresh n (free_in i rs)
unfolding free_in merge_next merge_prev freed
free_in-Fresh n i [] f = tt
free_in-Fresh n zero (r ∷ []) f = ground arith
free_in-Fresh n zero (r ∷ s ∷ rs) f = ground arith
free_in-Fresh n (suc zero) (p ∷ []) f = f
free_in-Fresh n (suc zero) (p ∷ r ∷ []) f = ground arith
free_in-Fresh n (suc zero) (p ∷ r ∷ s ∷ rs) f = ground arith
free_in-Fresh n (suc (suc i)) (p ∷ rs) f = (f.0, free_in-Fresh n (suc i) rs f.1)

pub set_vm_region-Fresh :
    (n i : ℕ) (v : VmRegion) (rs : List SpaceRegion)
    → v.id < n
    → Fresh n rs
    → Fresh n (set_vm_region rs i v)
unfolding set_vm_region
set_vm_region-Fresh n i v [] h f = tt
set_vm_region-Fresh n zero v (r ∷ rs) h f = (h, f.1)
set_vm_region-Fresh n (suc i) v (r ∷ rs) h f = (f.0, set_vm_region-Fresh n i v rs h f.1)

-- The region that a new `VMRegion` is set in is the one that its address leads to.
pub find_region-set_vm_region :
    (n i : ℕ) (v : VmRegion) (r : SpaceRegion) (rs : List SpaceRegion)
    → v.id ≡ n
    → Fresh n rs
    → get_elem? rs i ≡ some r
    → find_region (is_mapped_as n) (set_vm_region rs i v)
      ≡ some (i, record r { vm_region = some v })
unfolding set_vm_region find_region
find_region-set_vm_region n i v r [] h f g = cc
find_region-set_vm_region n zero v r (s ∷ rs) h f g = ground arith
find_region-set_vm_region n (suc i) v r (s ∷ rs) h f g =
    ground (arith, find_region-set_vm_region n i v r rs h f.1 g)

-- Freeing forgets the `VMRegion`.
pub free_in-set_vm_region :
    (i : ℕ) (v : VmRegion) (rs : List SpaceRegion) → free_in i (set_vm_region rs i v) ≡ free_in i rs
unfolding free_in set_vm_region merge_prev freed
free_in-set_vm_region i v [] = refl
free_in-set_vm_region zero v (r ∷ rs) = refl
free_in-set_vm_region (suc zero) v (p ∷ []) = refl
free_in-set_vm_region (suc zero) v (p ∷ r ∷ rs) = refl
free_in-set_vm_region (suc (suc i)) v (p ∷ rs) = ap (◌∷◌ p) (free_in-set_vm_region (suc i) v rs)
