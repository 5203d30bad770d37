-- ===== src/Memory/VmSpace/Examples.antt =====
-- Runs of the address space of kernel/memory/VMSpace.cpp, and its theorems at them.
use duck_os.Prelude.{
  ℕ, zero, suc, not, ◌&&◌, ◌+◌, ◌*◌, ◌≤◌, ◌<◌, ◌≡◌, refl, true, false, none, some, List, [], ◌∷◌,
  arith,
}
use duck_os.Prelude.Outcome.{ok, err, fault, enomem}
use duck_os.Memory.VmSpace.{
  VmObject, VmProt, VirtualRange, VmRegion, SpaceRegion, page_size, alloc_in, alloc_at_in, take_at,
  take_front, contains, free_in, merge_next, freed,
}
use duck_os.Memory.VmSpace.Invariant.{used_total, used_at, start_at, in_range}
use duck_os.Memory.VmSpace.Space.{
  PageDirectory, Space, init, reserve_region, alloc_space, alloc_space_at, free_region, map_object,
  map_stack, last_fit, find_free_space, unmap_region, is_mappable, alloc_range, install,
  set_vm_region,
}
use duck_os.Memory.VmSpace.Valid.{IsValid}
use duck_os.Memory.VmSpace.Claims.{
  Claimed, alloc_space-Claimed, alloc_space_at-Claimed, free_region-alloc_space,
  alloc_space-exhausted, free_region-releases,
}
use duck_os.Memory.VmSpace.Mapping.{Maps, map_object-Maps, unmap_region-map_object}
use duck_os.Memory.VmSpace.Stack.{
  alloc_space_at-misplaced, map_stack-fault, map_stack-top, NoFit, LastFit,
}
use duck_os.Memory.VmSpace.Steps.{none_yet, one_more, reserves, Reach-IsValid}
use duck_os.Memory.VmSpace.Find.{find_free_space-alloc_space}

-- A page directory that keeps what it was told.
abbrev journal : PageDirectory (List VmRegion)
journal = record { map = λ d v. v ∷ d; unmap = λ d v. v ∷ d }

abbrev free_pages : ℕ → ℕ → SpaceRegion
free_pages start size = record { start = start; size = size; used = false; vm_region = none }

abbrev taken_pages : ℕ → ℕ → SpaceRegion
taken_pages start size = record { start = start; size = size; used = true; vm_region = none }

abbrev space_of : List SpaceRegion → ℕ → Space (List VmRegion)
space_of regions used = record {
  start = page_size;
  size = 4 * page_size;
  regions = regions;
  used = used;
  page_directory = [];
  next_id = 0;
}

-- Four pages, all free; with the first taken; all taken.
abbrev empty_space : Space (List VmRegion)
empty_space = space_of (free_pages 4096 16384 ∷ []) 0

abbrev first_taken : Space (List VmRegion)
first_taken = space_of (taken_pages 4096 4096 ∷ free_pages 8192 12288 ∷ []) 4096

abbrev full_space : Space (List VmRegion)
full_space = space_of (taken_pages 4096 16384 ∷ []) 16384

abbrev third_taken : Space (List VmRegion)
third_taken =
    space_of (free_pages 4096 8192 ∷ taken_pages 12288 4096 ∷ free_pages 16384 4096 ∷ []) 4096

empty_space-IsValid : IsValid empty_space
unfolding used_total
empty_space-IsValid = ground arith

first_taken-IsValid : IsValid first_taken
unfolding used_total
first_taken-IsValid = ground arith

full_space-IsValid : IsValid full_space
unfolding used_total
full_space-IsValid = ground arith

alloc_first : alloc_space 4096 empty_space ≡ ok (0, first_taken)
unfolding alloc_space alloc_in take_front
alloc_first = refl

alloc_space-Claimed_example : Claimed empty_space 4096 0 first_taken
alloc_space-Claimed_example = alloc_space-Claimed 4096 (omega arith) empty_space-IsValid alloc_first

alloc_third : alloc_space_at 4096 12288 empty_space ≡ ok (1, third_taken)
unfolding alloc_space_at alloc_at_in take_at contains
alloc_third = refl

alloc_space_at-Claimed_example : Claimed empty_space 4096 1 third_taken
alloc_space_at-Claimed_example =
    alloc_space_at-Claimed 4096 12288 (omega arith) empty_space-IsValid alloc_third

free_region-alloc_space_example : free_region 0 first_taken ≡ ok empty_space
free_region-alloc_space_example =
    free_region-alloc_space 4096 (omega arith) empty_space-IsValid alloc_first

free_first : free_region 0 first_taken ≡ ok empty_space
unfolding free_region free_in merge_next freed
free_first = refl

free_region-releases_example :
    used_at empty_space.regions 5000
    ≡ (used_at first_taken.regions 5000 && not (in_range 4096 4096 5000))
free_region-releases_example =
    free_region-releases 0 5000 (taken_pages 4096 4096) first_taken-IsValid refl free_first

alloc_full : alloc_space 4096 full_space ≡ err enomem
unfolding alloc_space alloc_in
alloc_full = refl

alloc_space-exhausted_example :
    (y : ℕ) × (8192 ≤ y) × (y < 8192 + 4096) × (used_at full_space.regions y ≡ true)
alloc_space-exhausted_example =
    alloc_space-exhausted 4096 8192 (omega arith) full_space-IsValid alloc_full (omega arith)
      (omega arith)

alloc_at_first : alloc_space_at 8192 4096 first_taken ≡ err enomem
unfolding alloc_space_at alloc_at_in take_at contains
alloc_at_first = refl

-- The whole space is asked for from its second page on, and granted from its first.
alloc_past_end : alloc_space_at 16384 8192 empty_space ≡ ok (0, full_space)
unfolding alloc_space_at alloc_at_in take_at contains
alloc_past_end = refl

alloc_space_at-misplaced_example : start_at full_space.regions 0 < 8192
alloc_space_at-misplaced_example =
    alloc_space_at-misplaced 8192 0 (free_pages 4096 16384) empty_space-IsValid refl (omega arith)
      (omega arith) alloc_past_end

find_free_space-alloc_space_example :
    ((i : ℕ) (t : Space (List VmRegion))
      → alloc_space 4096 first_taken ≡ ok (i, t)
      → find_free_space 4096 first_taken ≡ ok (start_at t.regions i))
    × (find_free_space 4096 first_taken ≡ err enomem → alloc_space 4096 first_taken ≡ err enomem)
find_free_space-alloc_space_example = find_free_space-alloc_space 4096 first_taken refl

abbrev page : VmObject
page = record { object_id = 7; object_size = 4096 }

abbrev all_rights : VmProt
all_rights = record { read = true; write = true; execute = true }

abbrev anywhere : VirtualRange
anywhere = record { range_start = 0; range_size = 0 }

abbrev page_at : ℕ → VmRegion
page_at start = record {
  id = 0;
  object = page;
  in_space = true;
  range = record { range_start = start; range_size = 4096 };
  object_start = 0;
  prot = all_rights;
}

abbrev page_mapped : Space (List VmRegion)
page_mapped = record first_taken {
  regions =
      record (taken_pages 4096 4096) { vm_region = some (page_at 4096) }
      ∷ free_pages 8192 12288
      ∷ [];
  page_directory = page_at 4096 ∷ [];
  next_id = 1;
}

map_page :
    map_object journal page all_rights anywhere 0 empty_space ≡ ok (page_at 4096, page_mapped)
unfolding map_object is_mappable alloc_range alloc_space alloc_in take_front install set_vm_region
map_page = refl

map_object-Maps_example : Maps page all_rights 0 4096 0 4096 empty_space (page_at 4096) page_mapped
map_object-Maps_example =
    map_object-Maps journal page all_rights anywhere 0 empty_space (omega arith) empty_space-IsValid
      map_page

unmap_region-map_object_example :
    unmap_region journal (page_at 4096) page_mapped
    ≡ ok (record empty_space {
      page_directory = record (page_at 4096) { in_space = false } ∷ page_at 4096 ∷ [];
      next_id = 1;
    })
unmap_region-map_object_example =
    unmap_region-map_object journal page all_rights anywhere 0 empty_space (omega arith)
      empty_space-IsValid map_page

abbrev stack_mapped : Space (List VmRegion)
stack_mapped = record empty_space {
  regions =
      free_pages 4096 12288
      ∷ record (taken_pages 16384 4096) { vm_region = some (page_at 16384) }
      ∷ [];
  used = 4096;
  page_directory = page_at 16384 ∷ [];
  next_id = 1;
}

map_page_as_stack : map_stack journal page all_rights empty_space ≡ ok (page_at 16384, stack_mapped)
unfolding map_stack last_fit map_object is_mappable alloc_range alloc_space_at alloc_at_in take_at
    contains install set_vm_region
map_page_as_stack = refl

map_stack-top_example :
    (r : SpaceRegion) × LastFit 4096 empty_space.regions (some r)
    × (16384 + 4096 ≡ r.start + r.size)
map_stack-top_example =
    map_stack-top journal page all_rights empty_space (omega arith) (omega arith)
      empty_space-IsValid map_page_as_stack

full_space-NoFit : NoFit 4096 full_space.regions
full_space-NoFit zero r g = ground arith
full_space-NoFit (suc j) r g = cc

map_stack-fault_example : map_stack journal page all_rights full_space ≡ fault
map_stack-fault_example = map_stack-fault journal page all_rights full_space full_space-NoFit

abbrev reserved_space : Space (List VmRegion)
reserved_space = space_of (taken_pages 4096 4096 ∷ free_pages 8192 12288 ∷ []) 4096

reserve_first : reserve_region 4096 4096 (init 4096 16384 []) ≡ ok reserved_space
unfolding reserve_region init alloc_space_at alloc_at_in take_at contains
reserve_first = refl

Reach-IsValid_example : IsValid reserved_space
Reach-IsValid_example =
    Reach-IsValid journal 4096 16384 [] (omega arith) (omega arith)
      (one_more (reserves 4096 4096 (omega arith) reserve_first) none_yet)
