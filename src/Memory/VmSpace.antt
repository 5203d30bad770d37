-- ===== src/Memory/VmSpace.antt =====
-- kernel/memory/VMSpace.h and VMSpace.cpp: the regions of an address space.
-- The doubly linked list of `VMSpaceRegion`s is the list of them in the order of `next`; `prev` is
-- the region before. A `VMSpaceRegion*` is a position in that list. Each call is one thread's, with
-- `m_lock` held. The page directory is an interface, since it only records what it is told.
pub mod Invariant
pub mod Alloc
pub mod Exhausted
pub mod Place
pub mod Free
pub mod Undo
pub mod Space
pub mod Fresh
pub mod Valid
pub mod Claims
pub mod Attach
pub mod Mapping
pub mod Stack
pub mod Find
pub mod Steps
mod Examples
use duck_os.Prelude.{
  ℕ, zero, suc, ◌+◌, ◌-◌, ◌*◌, ◌%◌, Bool, true, false, not, ◌&&◌, ◌||◌, Option, none, some, List,
  [], ◌∷◌, ◌++◌, length, get_elem?, ltb, leb, ◌==◌, if◌then◌else◌,
}
use duck_os.Prelude.Words.{add_size, sub_size}
use duck_os.Prelude.Outcome.{
  Outcome, ok, err, fault, enoent, enomem, einval, ◌>>=◌, ◌>>◌, assert, require,
}

abbrev pub page_size : ℕ
page_size = 4096

-- `VMObject`, as far as an address space reads it.
pub record VmObject : Type 0 where
  pub object_id : ℕ
  pub object_size : ℕ

pub record VmProt : Type 0 where
  pub read : Bool
  pub write : Bool
  pub execute : Bool

pub record VirtualRange : Type 0 where
  pub range_start : ℕ
  pub range_size : ℕ

-- `VMRegion`: `id` is its address in memory, and `in_space` is whether `m_space` is set.
pub record VmRegion : Type 0 where
  pub id : ℕ
  pub object : VmObject
  pub in_space : Bool
  pub range : VirtualRange
  pub object_start : ℕ
  pub prot : VmProt

pub record SpaceRegion : Type 0 where
  pub start : ℕ
  pub size : ℕ
  pub used : Bool
  pub vm_region : Option VmRegion

-- `VMSpaceRegion::end` and `VMSpaceRegion::contains`
unfoldable pub region_end : SpaceRegion → ℕ
region_end r = add_size r.start r.size

unfoldable pub contains : SpaceRegion → ℕ → Bool
unfolding region_end
contains r address = leb r.start address && ltb address (region_end r)

-- The part of `alloc_space` that runs at a region that is free and large enough.
unfoldable pub take_front : ℕ → SpaceRegion → List SpaceRegion
take_front size r =
    if r.size == size
    then record r { used = true } ∷ []
    else record { start = r.start; size = size; used = true; vm_region = none }
      ∷ record r { start = add_size r.start size; size = sub_size r.size size }
      ∷ []

abbrev pub behind : SpaceRegion → Option (List SpaceRegion × ℕ) → Option (List SpaceRegion × ℕ)
behind r none = none
behind r (some (rs, i)) = some (r ∷ rs, suc i)

-- The loop of `alloc_space`: the new list, and the position of the region that it returns.
pub alloc_in : ℕ → List SpaceRegion → Option (List SpaceRegion × ℕ)
alloc_in size [] = none
alloc_in size (r ∷ rs) =
    if r.used || ltb r.size size
    then behind r (alloc_in size rs)
    else some (take_front size r ++ rs, zero)

-- The regions that `alloc_space_at` makes before and after the one that it returns.
unfoldable pub before_gap : ℕ → SpaceRegion → List SpaceRegion
before_gap address r =
    if ltb r.start address
    then record { start = r.start; size = sub_size address r.start; used = false; vm_region = none }
      ∷ []
    else []

unfoldable pub after_gap : ℕ → ℕ → SpaceRegion → List SpaceRegion
unfolding region_end
after_gap size address r =
    if ltb (add_size address size) (region_end r)
    then record {
      start = add_size address size;
      size = sub_size (region_end r) (add_size address size);
      used = false;
      vm_region = none;
    }
      ∷ []
    else []

-- What `alloc_space_at` does at the region that contains the address.
unfoldable pub take_at : ℕ → ℕ → SpaceRegion → Option (List SpaceRegion × ℕ)
unfolding before_gap after_gap
take_at size address r =
    if r.used
    then none
    else if r.size == size
    then some (record r { used = true } ∷ [], zero)
    else if leb size (sub_size r.size (sub_size address r.start))
    then some (
      before_gap address r
          ++ (record r { start = address; size = size; used = true } ∷ after_gap size address r),
      length (before_gap address r),
    )
    else none

abbrev pub followed_by :
    List SpaceRegion → Option (List SpaceRegion × ℕ) → Option (List SpaceRegion × ℕ)
followed_by rs none = none
followed_by rs (some (new, i)) = some (new ++ rs, i)

-- The loop of `alloc_space_at`.
pub alloc_at_in : ℕ → ℕ → List SpaceRegion → Option (List SpaceRegion × ℕ)
alloc_at_in size address [] = none
alloc_at_in size address (r ∷ rs) =
    if contains r address
    then followed_by rs (take_at size address r)
    else behind r (alloc_at_in size address rs)

-- `free_region`, its two merges.
unfoldable pub merge_next : SpaceRegion → List SpaceRegion → List SpaceRegion
merge_next r [] = r ∷ []
merge_next r (n ∷ rs) =
    if n.used then r ∷ n ∷ rs else record r { size = add_size r.size n.size } ∷ rs

unfoldable pub merge_prev : SpaceRegion → SpaceRegion → List SpaceRegion → List SpaceRegion
unfolding merge_next
merge_prev p r rs =
    if p.used
    then p ∷ merge_next r rs
    else merge_next (record r { start = sub_size r.start p.size; size = add_size r.size p.size }) rs

unfoldable pub freed : SpaceRegion → SpaceRegion
freed r = record r { used = false; vm_region = none }

pub free_in : ℕ → List SpaceRegion → List SpaceRegion
unfolding freed
free_in i [] = []
free_in zero (r ∷ rs) = merge_next (freed r) rs
free_in (suc zero) (p ∷ []) = p ∷ []
free_in (suc zero) (p ∷ r ∷ rs) = merge_prev p (freed r) rs
free_in (suc (suc i)) (p ∷ rs) = p ∷ free_in (suc i) rs
