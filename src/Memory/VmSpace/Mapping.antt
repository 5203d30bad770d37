-- ===== src/Memory/VmSpace/Mapping.antt =====
-- Mapping an object into an address space and unmapping it (kernel/memory/VMSpace.cpp).
use duck_os.Prelude.{
  ℕ, suc, ◌-◌, ◌≤◌, ◌<◌, ◌≡◌, refl, ◌∙◌, inl, inr, true, false, ◌||◌, arith, ◌==◌, Bool-cases,
}
use duck_os.Prelude.Words.{add_size}
use duck_os.Prelude.Outcome.{ok, einval, require, ◌>>=◌, >>=-eq-ok, require-eq-ok, Ensures-ok}
use duck_os.Memory.VmSpace.{VmObject, VmProt, VirtualRange, VmRegion}
use duck_os.Memory.VmSpace.Invariant.{start_at, used_at, in_range, granted}
use duck_os.Memory.VmSpace.Fresh.{Fresh-suc, set_vm_region-Fresh, find_region-set_vm_region}
use duck_os.Memory.VmSpace.Space.{
  PageDirectory, Space, install, map_granted, map_object, mapped_size, is_mappable, alloc_range,
  free_region, unmap_region, get_region_containing,
}
use duck_os.Memory.VmSpace.Valid.{IsValid, space_end, alloc_space-IsValid, alloc_space_at-IsValid}
use duck_os.Memory.VmSpace.Attach.{
  set_vm_region-Chain, set_vm_region-used_total, set_vm_region-used_at, find_region-contains,
  free_region-frame, free_region-keeps,
}
use duck_os.Memory.VmSpace.Claims.{
  Claimed, alloc_space-Claimed, alloc_space_at-Claimed, free_region-alloc_space,
  free_region-alloc_space_at,
}

-- What a mapping call leaves: the `VMRegion` that was asked for, `before` bytes into `room` bytes
-- that were free, are now in use, and lead to it.
pub record Maps {D : Type 0} (object : VmObject) (prot : VmProt) (object_start size before room : ℕ)
    (s : Space D) (v : VmRegion) (s' : Space D) : Type 0 where
  pub valid : IsValid s'
  pub of_object : v.object ≡ object
  pub with_prot : v.prot ≡ prot
  pub from : v.object_start ≡ object_start
  pub sized : v.range.range_size ≡ size
  pub behind : before ≤ v.range.range_start
  pub was_free :
      (x : ℕ) → in_range (v.range.range_start - before) room x ≡ true → used_at s.regions x ≡ false
  pub is_found :
      (x : ℕ)
      → in_range (v.range.range_start - before) room x ≡ true
      → get_region_containing x s' ≡ ok v
  pub now_used :
      (x : ℕ)
      → used_at s'.regions x
        ≡ (used_at s.regions x || in_range (v.range.range_start - before) room x)

module _ {D : Type 0} (directory : PageDirectory D) where
  module _ (object : VmObject) (prot : VmProt) (room size object_start sentinel i : ℕ)
      (s t : Space D) (valid : IsValid t) (claimed : Claimed s room i t) where
    abbrev pub lo : ℕ
    lo = start_at t.regions i

    abbrev pub mapped : VmRegion × Space D
    mapped =
        install directory object prot
          (record { range_start = add_size lo sentinel; range_size = size }) object_start i t

    pub map_granted-eq-mapped :
        map_granted directory object prot sentinel size object_start (i, t) ≡ ok mapped
    unfolding map_granted
    map_granted-eq-mapped = rw (claimed.region, map_granted)

    pub mapped-IsValid : IsValid mapped.1
    unfolding install
    mapped-IsValid = record {
      chain =
          set_vm_region-Chain false t.start (space_end t) i mapped.0 (granted lo room) t.regions
            valid.chain claimed.region refl;
      small = valid.small;
      counted = omega (arith, valid, set_vm_region-used_total i mapped.0 t.regions);
      fresh =
          set_vm_region-Fresh (suc t.next_id) i mapped.0 t.regions (omega arith)
            (Fresh-suc t.next_id t.regions valid.fresh);
    }

    -- Unmapping the new `VMRegion` frees the region that was granted to it.
    unmap_region-mapped :
        unmap_region directory mapped.0 mapped.1
        ≡ free_region i (record mapped.1 {
          page_directory =
              directory.unmap mapped.1.page_directory (record mapped.0 { in_space = false });
        })
    unfolding install unmap_region
    unmap_region-mapped =
        rw
          (find_region-set_vm_region t.next_id i mapped.0 (granted lo room) t.regions refl
            valid.fresh claimed.region)
          refl

    get_region_containing-mapped :
        (x : ℕ) → in_range lo room x ≡ true → get_region_containing x mapped.1 ≡ ok mapped.0
    unfolding install get_region_containing
    get_region_containing-mapped x m =
        rw
          (find_region-contains false t.start (space_end t) i x mapped.0 (granted lo room) t.regions
            valid.small valid.chain claimed.region m)
          refl

    unmap_region-installed :
        free_region i t ≡ ok s
        → unmap_region directory mapped.0 mapped.1
          ≡ ok (record s {
            page_directory =
                directory.unmap
                  (directory.map s.page_directory mapped.0)
                  (record mapped.0 { in_space = false });
            next_id = suc s.next_id;
          })
    unfolding install
    unmap_region-installed back =
        let same : (t.page_directory ≡ s.page_directory) × (t.next_id ≡ s.next_id) =
          free_region-keeps i (granted lo room) s t claimed.region back in
        unmap_region-mapped
        ∙ free_region-frame i (suc t.next_id) mapped.0 (granted lo room)
            (directory.unmap (directory.map t.page_directory mapped.0)
              (record mapped.0 { in_space = false }))
            s t claimed.region back
        ∙ rw (same.0, same.1)

    pub mapped-Maps :
        IsValid s
        → sentinel ≤ room
        → Maps object prot object_start size sentinel room s mapped.0 mapped.1
    unfolding install
    mapped-Maps w fits =
        let at : add_size lo sentinel - sentinel ≡ lo = omega (arith, w, claimed) in
        record {
          valid = mapped-IsValid;
          of_object = refl;
          with_prot = refl;
          from = refl;
          sized = refl;
          behind = omega (arith, w, claimed);
          was_free = λ x m. claimed.was_free x (rw at at m);
          is_found = λ x m. get_region_containing-mapped x (rw at at m);
          now_used = λ x. rw at (set_vm_region-used_at i x mapped.0 t.regions ∙ claimed.now_used x);
        }

  -- What the two allocations of `map_object` have in common.
  pub alloc_range-lem :
      (size start : ℕ) {s t : Space D} {i : ℕ}
      → 0 < size
      → IsValid s
      → alloc_range size start s ≡ ok (i, t)
      → IsValid t × Claimed s size i t × (free_region i t ≡ ok s)
  unfolding alloc_range
  alloc_range-lem size start p v h = elim (Bool-cases (start == 0)) [
    | inl z ↦
        let h' = rw z at h in
        (
          alloc_space-IsValid size p v h',
          alloc_space-Claimed size p v h',
          free_region-alloc_space size p v h',
        )
    | inr z ↦
        let h' = rw z at h in
        (
          alloc_space_at-IsValid size start p v h',
          alloc_space_at-Claimed size start p v h',
          free_region-alloc_space_at size start p v h',
        )
  ]

  -- A successful `map_object` has passed its checks, allocated and installed.
  pub map_object-inv :
      (object : VmObject) (prot : VmProt) (range : VirtualRange) (object_start : ℕ) (s : Space D)
      {s' : Space D} {v : VmRegion}
      → map_object directory object prot range object_start s ≡ ok (v, s')
      → (is_mappable object range object_start ≡ true)
        × ((g : ℕ × Space D) × (alloc_range
                (mapped_size object range object_start)
                range.range_start
                s
              ≡ ok g)
            × (map_granted directory object prot 0
                  (mapped_size object range object_start)
                  object_start
                  g
                ≡ ok (v, s')))
  unfolding map_object
  map_object-inv object prot range object_start s h =
      let size = mapped_size object range object_start in
      let checked =
        >>=-eq-ok (require (is_mappable object range object_start) einval)
          (λ _. alloc_range size range.range_start s >>= λ g.
            map_granted directory object prot 0 size object_start g)
          h in
      (
        require-eq-ok (is_mappable object range object_start) einval checked.1,
        >>=-eq-ok (alloc_range size range.range_start s)
            (λ g. map_granted directory object prot 0 size object_start g) checked.2,
      )

  -- When map_object succeeds on a valid space with a nonzero size to map, the space stays valid,
  -- the new VMRegion has the object, protection, object offset and size asked for, all addresses
  -- of its range were free and now lead get_region_containing to it, and exactly those addresses
  -- are newly in use.
  pub map_object-Maps :
      (object : VmObject) (prot : VmProt) (range : VirtualRange) (object_start : ℕ) (s : Space D)
      {s' : Space D} {v : VmRegion}
      → 0 < mapped_size object range object_start
      → IsValid s
      → map_object directory object prot range object_start s ≡ ok (v, s')
      → Maps object prot object_start
          (mapped_size object range object_start)
          0
          (mapped_size object range object_start)
          s
          v
          s'
  map_object-Maps object prot range object_start s p w h =
      let size = mapped_size object range object_start in
      let (checked, ((i, t), got, made)) = map_object-inv object prot range object_start s h in
      let (valid, claimed, back) = alloc_range-lem size range.range_start p w got in
      Ensures-ok (λ (m : VmRegion × Space D). Maps object prot object_start size 0 size s m.0 m.1)
        (map_granted directory object prot 0 size object_start (i, t))
        (map_granted-eq-mapped object prot size size object_start 0 i s t valid claimed) made
        (mapped-Maps object prot size size object_start 0 i s t valid claimed w (omega arith))

  -- Unmapping the VMRegion that a successful map_object with a nonzero size has just made on a
  -- valid space succeeds and brings back the space as it was, region list and used count included,
  -- but for the two requests to the page directory and the spent VMRegion.
  pub unmap_region-map_object :
      (object : VmObject) (prot : VmProt) (range : VirtualRange) (object_start : ℕ) (s : Space D)
      {s' : Space D} {v : VmRegion}
      → 0 < mapped_size object range object_start
      → IsValid s
      → map_object directory object prot range object_start s ≡ ok (v, s')
      → unmap_region directory v s'
        ≡ ok (record s {
          page_directory =
              directory.unmap (directory.map s.page_directory v) (record v { in_space = false });
          next_id = suc s.next_id;
        })
  unmap_region-map_object object prot range object_start s p w h =
      let size = mapped_size object range object_start in
      let (checked, ((i, t), got, made)) = map_object-inv object prot range object_start s h in
      let (valid, claimed, back) = alloc_range-lem size range.range_start p w got in
      Ensures-ok
        (λ (m : VmRegion × Space D).
          unmap_region directory m.0 m.1
          ≡ ok (record s {
            page_directory =
                directory.unmap (directory.map s.page_directory m.0)
                  (record (m.0) { in_space = false });
            next_id = suc s.next_id;
          }))
        (map_granted directory object prot 0 size object_start (i, t))
        (map_granted-eq-mapped object prot size size object_start 0 i s t valid claimed) made
        (unmap_region-installed object prot size size object_start 0 i s t valid claimed back)
