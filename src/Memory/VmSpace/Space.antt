-- ===== src/Memory/VmSpace/Space.antt =====
-- The operations of `VMSpace` (kernel/memory/VMSpace.cpp) over its list of regions.
use duck_os.Prelude.{
  ℕ, zero, suc, ◌*◌, ◌%◌, Bool, true, false, not, ◌&&◌, ◌||◌, Option, none, some, List, [], ◌∷◌,
  get_elem?, ltb, leb, ◌==◌, if◌then◌else◌,
}
use duck_os.Prelude.Words.{add_size, sub_size}
use duck_os.Prelude.Outcome.{
  Outcome, ok, err, fault, enoent, enomem, einval, ◌>>=◌, ◌>>◌, assert, require,
}
use duck_os.Memory.VmSpace.{
  VmObject, VmProt, VirtualRange, VmRegion, SpaceRegion, page_size, region_end, contains, alloc_in,
  alloc_at_in, free_in,
}

-- What an address space asks of its page directory. The results of `map` and `unmap` are not read.
pub record PageDirectory (D : Type 0) : Type 0 where
  pub map : D → VmRegion → D
  pub unmap : D → VmRegion → D

-- `next_id` is the address of the next `VMRegion` that is made.
pub record Space (D : Type 0) : Type 0 where
  pub start : ℕ
  pub size : ℕ
  pub regions : List SpaceRegion
  pub used : ℕ
  pub page_directory : D
  pub next_id : ℕ

abbrev pub is_aligned : ℕ → Bool
is_aligned n = (n % page_size) == 0

module _ {D : Type 0} where
  -- The constructor: one free region.
  unfoldable pub init : ℕ → ℕ → D → Space D
  init start size directory = record {
    start = start;
    size = size;
    regions = record { start = start; size = size; used = false; vm_region = none } ∷ [];
    used = 0;
    page_directory = directory;
    next_id = 0;
  }

  abbrev pub grant : Space D → ℕ → Option (List SpaceRegion × ℕ) → Outcome (ℕ × Space D)
  grant s size none = err enomem
  grant s size (some (regions, i)) =
      ok (i, record s { regions = regions; used = add_size s.used size })

  unfoldable pub alloc_space : ℕ → Space D → Outcome (ℕ × Space D)
  alloc_space size s = do assert (is_aligned size); grant s size (alloc_in size s.regions)

  unfoldable pub alloc_space_at : ℕ → ℕ → Space D → Outcome (ℕ × Space D)
  alloc_space_at size address s = do
    assert (is_aligned address)
    assert (is_aligned size)
    grant s size (alloc_at_in size address s.regions)

  -- A position that no region has is a bad pointer.
  abbrev give_back : Space D → ℕ → Option SpaceRegion → Outcome (Space D)
  give_back s i none = fault
  give_back s i (some r) =
      ok (record s { regions = free_in i s.regions; used = sub_size s.used r.size })

  unfoldable pub free_region : ℕ → Space D → Outcome (Space D)
  free_region i s = give_back s i (get_elem? s.regions i)

-- `region->vmRegion = v`
unfoldable pub set_vm_region : List SpaceRegion → ℕ → VmRegion → List SpaceRegion
set_vm_region [] i v = []
set_vm_region (r ∷ rs) zero v = record r { vm_region = some v } ∷ rs
set_vm_region (r ∷ rs) (suc i) v = r ∷ set_vm_region rs i v

-- The last free region that is large enough.
unfoldable pub last_fit : ℕ → List SpaceRegion → Option SpaceRegion
last_fit size [] = none
last_fit size (r ∷ rs) = elim (last_fit size rs) [
  | some t ↦ some t
  | none ↦ if r.used || ltb r.size size then none else some r
]

-- The first region that passes a test, with its position.
unfoldable pub find_region : (SpaceRegion → Bool) → List SpaceRegion → Option (ℕ × SpaceRegion)
find_region test [] = none
find_region test (r ∷ rs) =
    let rest = find_region test rs in
    if test r then some (0, r) else elim rest [ none ↦ none | some (i, s) ↦ some (suc i, s) ]

abbrev pub is_mapped_as : ℕ → SpaceRegion → Bool
is_mapped_as id r = elim r.vm_region [ none ↦ false | some v ↦ v.id == id ]

-- The size of the range if there is one, or what is left of the object.
abbrev pub mapped_size : VmObject → VirtualRange → ℕ → ℕ
mapped_size object range object_start =
    if range.range_size == 0 then sub_size object.object_size object_start else range.range_size

-- The checks of `map_object`.
unfoldable pub is_mappable : VmObject → VirtualRange → ℕ → Bool
is_mappable object range object_start =
    is_aligned range.range_start
    && is_aligned (mapped_size object range object_start)
    && is_aligned object_start
    && leb (add_size object_start (mapped_size object range object_start)) object.object_size

-- The range that `map_stack` asks for: the top of the region.
abbrev pub stack_range : VmObject → SpaceRegion → VirtualRange
stack_range object r = record {
  range_start = sub_size (region_end r) object.object_size;
  range_size = object.object_size;
}

module _ {D : Type 0} where
  -- The allocation of `map_object`: where the range says, or anywhere.
  unfoldable pub alloc_range : ℕ → ℕ → Space D → Outcome (ℕ × Space D)
  alloc_range size start s = if start == 0 then alloc_space size s else alloc_space_at size start s

module _ {D : Type 0} (directory : PageDirectory D) where
  -- The end that the three mapping calls share: make the `VMRegion`, set it, map it.
  unfoldable pub install : VmObject → VmProt → VirtualRange → ℕ → ℕ → Space D → VmRegion × Space D
  install object prot range object_start i s =
      let v : VmRegion = record {
        id = s.next_id;
        object = object;
        in_space = true;
        range = range;
        object_start = object_start;
        prot = prot;
      } in
      (
        v,
        record s {
          regions = set_vm_region s.regions i v;
          page_directory = directory.map s.page_directory v;
          next_id = suc s.next_id;
        },
      )

  -- `sentinel` is the space left in front of the object.
  unfoldable pub map_granted :
      VmObject → VmProt → ℕ → ℕ → ℕ → ℕ × Space D → Outcome (VmRegion × Space D)
  unfolding install
  map_granted object prot sentinel size object_start (i, s) = elim (get_elem? s.regions i) [
    | none ↦ fault
    | some r ↦ ok (
        install object prot (record { range_start = add_size r.start sentinel; range_size = size })
          object_start i s)
  ]

  unfoldable pub map_object :
      VmObject → VmProt → VirtualRange → ℕ → Space D → Outcome (VmRegion × Space D)
  unfolding map_granted
  map_object object prot range object_start s = do
    let size = mapped_size object range object_start
    require (is_mappable object range object_start) einval
    granted ← alloc_range size range.range_start s
    map_granted object prot 0 size object_start granted

  unfoldable pub map_object_with_sentinel :
      VmObject → VmProt → Space D → Outcome (VmRegion × Space D)
  unfolding map_granted
  map_object_with_sentinel object prot s = do
    granted ← alloc_space (add_size object.object_size (page_size * 2)) s
    map_granted object prot page_size object.object_size 0 granted

  -- Where no region fits, the loop goes on past the first one and reads through a null pointer.
  unfoldable pub map_stack : VmObject → VmProt → Space D → Outcome (VmRegion × Space D)
  map_stack object prot s = elim (last_fit object.object_size s.regions) [
    | none ↦ fault
    | some r ↦ map_object object prot (stack_range object r) 0 s
  ]

  unfoldable pub unmap_found : Space D → Option (ℕ × SpaceRegion) → Outcome (Space D)
  unmap_found s none = err enoent
  unmap_found s (some (i, r)) = elim r.vm_region [
    | none ↦ err enoent
    | some v ↦ free_region i (record s {
      page_directory = directory.unmap s.page_directory (record v { in_space = false });
    })
  ]

  unfoldable pub unmap_region : VmRegion → Space D → Outcome (Space D)
  unfolding unmap_found
  unmap_region v s = unmap_found s (find_region (is_mapped_as v.id) s.regions)

  unfoldable pub unmap_region_at : ℕ → Space D → Outcome (Space D)
  unfolding unmap_found
  unmap_region_at address s = unmap_found s (find_region (λ r. r.start == address) s.regions)

abbrev mapped_in : Option (ℕ × SpaceRegion) → Outcome VmRegion
mapped_in none = err enoent
mapped_in (some (i, r)) = elim r.vm_region [ none ↦ err enoent | some v ↦ ok v ]

module _ {D : Type 0} where
  unfoldable pub get_region_at : ℕ → Space D → Outcome VmRegion
  get_region_at address s = mapped_in (find_region (λ r. r.start == address) s.regions)

  unfoldable pub get_region_containing : ℕ → Space D → Outcome VmRegion
  get_region_containing address s = mapped_in (find_region (λ r. contains r address) s.regions)

  unfoldable pub reserve_region : ℕ → ℕ → Space D → Outcome (Space D)
  reserve_region start size s = do granted ← alloc_space_at size start s; ok granted.1

  unfoldable pub find_free_space : ℕ → Space D → Outcome ℕ
  find_free_space size s = elim (find_region (λ r. not r.used && leb size r.size) s.regions) [
    | none ↦ err enomem
    | some (i, r) ↦ ok r.start
  ]
