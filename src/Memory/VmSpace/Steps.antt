-- ===== src/Memory/VmSpace/Steps.antt =====
-- Every history of calls on an address space (kernel/memory/VMSpace.cpp) keeps the invariant.
use duck_os.Prelude.{
  ℕ, zero, suc, ◌+◌, ◌*◌, ◌<◌, ◌≡◌, refl, subst, sym, inl, inr, Bool, true, false, not, none, some,
  Option, List, [], ◌∷◌, arith, get_elem?, ◌==◌, if◌then◌else◌, Option-cases,
}
use duck_os.Prelude.Words.{size_limit, add_size}
use duck_os.Prelude.Outcome.{ok, fault, Ensures, Ensures->>=, Ensures-self}
use duck_os.Memory.VmSpace.{SpaceRegion, VmObject, VmProt, VirtualRange, VmRegion, page_size}
use duck_os.Memory.VmSpace.Invariant.{Chain, IsClean}
use duck_os.Memory.VmSpace.Space.{
  PageDirectory, Space, find_region, is_mapped_as, init, alloc_space, alloc_space_at, mapped_size,
  map_granted, map_object, map_object_with_sentinel, map_stack, stack_range, last_fit, unmap_found,
  unmap_region, unmap_region_at, reserve_region,
}
use duck_os.Memory.VmSpace.Valid.{
  IsValid, space_end, init-IsValid, alloc_space-IsValid, alloc_space_at-IsValid,
  free_region-IsValid, free_region-eq-released,
}
use duck_os.Memory.VmSpace.Claims.{alloc_space-Claimed}
use duck_os.Memory.VmSpace.Mapping.{map_object-Maps, map_granted-eq-mapped, mapped-IsValid}

abbrev pub Found : (SpaceRegion → Bool) → List SpaceRegion → Option (ℕ × SpaceRegion) → Type 0
Found test rs none = Unit {0}
Found test rs (some (i, r)) = (get_elem? rs i ≡ some r) × (test r ≡ true)

pub find_region-Found :
    (test : SpaceRegion → Bool) (rs : List SpaceRegion) → Found test rs (find_region test rs)
unfolding find_region
find_region-Found test [] = tt
find_region-Found test (s ∷ rs) =
    Found-behind (test s) (find_region test rs) refl (find_region-Found test rs)
  where
    Found-behind :
        (b : Bool) (o : Option (ℕ × SpaceRegion))
        → test s ≡ b
        → Found test rs o
        → Found test
            (s ∷ rs)
            (if b then some (0, s) else elim o [ none ↦ none | some (i, r) ↦ some (suc i, r) ])
    Found-behind true o e f = (refl, e)
    Found-behind false none e f = tt
    Found-behind false (some (i, r)) e f = f

pub Chain-IsClean :
    (free : Bool) (a e i : ℕ) (r : SpaceRegion) (rs : List SpaceRegion)
    → Chain free a rs e
    → get_elem? rs i ≡ some r
    → IsClean r
Chain-IsClean free a e i r [] c g = cc
Chain-IsClean free a e zero r (s ∷ rs) c g = ground arith
Chain-IsClean free a e (suc i) r (s ∷ rs) c g =
    Chain-IsClean (not s.used) (a + s.size) e i r rs c.4 g

module _ {D : Type 0} (directory : PageDirectory D) where
  -- A successful call that changes the space. Each asks for at least one page.
  pub data Step : Space D → Space D → Type 0 where
    maps :
        {s t : Space D} (object : VmObject) (prot : VmProt) (range : VirtualRange)
        (object_start : ℕ) (v : VmRegion)
        → 0 < mapped_size object range object_start
        → map_object directory object prot range object_start s ≡ ok (v, t)
        → Step s t
    maps_with_sentinel :
        {s t : Space D} (object : VmObject) (prot : VmProt) (v : VmRegion)
        → 0 < add_size object.object_size (page_size * 2)
        → map_object_with_sentinel directory object prot s ≡ ok (v, t)
        → Step s t
    maps_stack :
        {s t : Space D} (object : VmObject) (prot : VmProt) (v : VmRegion)
        → 0 < object.object_size
        → map_stack directory object prot s ≡ ok (v, t)
        → Step s t
    unmaps : {s t : Space D} (v : VmRegion) → unmap_region directory v s ≡ ok t → Step s t
    unmaps_at :
        {s t : Space D} (address : ℕ) → unmap_region_at directory address s ≡ ok t → Step s t
    reserves :
        {s t : Space D} (start size : ℕ) → 0 < size → reserve_region start size s ≡ ok t → Step s t

  pub data Reach (s : Space D) : Space D → Type 0 where
    none_yet : Reach s s
    one_more : {t u : Space D} → Step t u → Reach s t → Reach s u

  map_object_with_sentinel-IsValid :
      (object : VmObject) (prot : VmProt) (s : Space D)
      → 0 < add_size object.object_size (page_size * 2)
      → IsValid s
      → Ensures
          (λ (m : VmRegion × Space D). IsValid m.1)
          (map_object_with_sentinel directory object prot s)
  unfolding map_object_with_sentinel
  map_object_with_sentinel-IsValid object prot s p w =
      let room = add_size object.object_size (page_size * 2) in
      Ensures->>= (λ m. IsValid m.1) (alloc_space room s)
        (map_granted directory object prot page_size object.object_size 0)
        λ g h.
          let valid = alloc_space-IsValid room p w h in
          let claimed = alloc_space-Claimed room p w h in
          subst (Ensures λ m. IsValid m.1)
            (sym (
              map_granted-eq-mapped directory object prot room object.object_size 0 page_size g.0 s
                g.1 valid claimed))
            (mapped-IsValid directory object prot room object.object_size 0 page_size g.0 s g.1
              valid claimed)

  map_stack-IsValid :
      (object : VmObject) (prot : VmProt) (s : Space D)
      → 0 < object.object_size
      → IsValid s
      → Ensures (λ (m : VmRegion × Space D). IsValid m.1) (map_stack directory object prot s)
  unfolding map_stack
  map_stack-IsValid object prot s p w =
      elim (last_fit object.object_size s.regions)
        as (λ o.
          Ensures (λ (m : VmRegion × Space D). IsValid m.1)
            (elim o [
              | none ↦ fault
              | some r ↦ map_object directory object prot (stack_range object r) 0 s
            ])) [
              | none ↦ tt
              | some r ↦
                  Ensures-self (λ m. IsValid m.1)
                    (map_object directory object prot (stack_range object r) 0 s)
                    λ m h.
                      (map_object-Maps directory object prot (stack_range object r) 0 s
                        (ground arith) w h).valid
            ]

  unmap_found-IsValid :
      (test : SpaceRegion → Bool) (s : Space D) (o : Option (ℕ × SpaceRegion))
      → IsValid s
      → Found test s.regions o
      → Ensures IsValid (unmap_found directory s o)
  unfolding unmap_found
  unmap_found-IsValid test s none w f = tt
  unmap_found-IsValid test s (some (i, r)) w f = elim (Option-cases r.vm_region) [
    | inl e ↦ rw e tt
    | inr (v, e) ↦
        let t : Space D = record s {
          page_directory = directory.unmap s.page_directory (record v { in_space = false });
        } in
        let clean : IsClean r =
          Chain-IsClean false s.start (space_end s) i r s.regions w.chain f.0 in
        let valid : IsValid t = record {
          chain = w.chain;
          small = w.small;
          counted = w.counted;
          fresh = w.fresh;
        } in
        rw (e, free_region-eq-released i r t f.0) (free_region-IsValid i r valid f.0 (ground arith))
  ]

  reserve_region-IsValid :
      (start size : ℕ) (s : Space D)
      → 0 < size
      → IsValid s
      → Ensures IsValid (reserve_region start size s)
  unfolding reserve_region
  reserve_region-IsValid start size s p w =
      Ensures->>= IsValid (alloc_space_at size start s) (λ g. ok g.1)
        (λ g h. alloc_space_at-IsValid size start p w h)

  -- Every such call keeps the invariant.
  pub Step-IsValid : {s t : Space D} → Step s t → IsValid s → IsValid t
  unfolding unmap_region unmap_region_at
  Step-IsValid {s} (maps object prot range object_start v p h) w =
      (map_object-Maps directory object prot range object_start s p w h).valid
  Step-IsValid {s} (maps_with_sentinel object prot v p h) w =
      subst (Ensures λ m. IsValid m.1) h (map_object_with_sentinel-IsValid object prot s p w)
  Step-IsValid {s} (maps_stack object prot v p h) w =
      subst (Ensures λ m. IsValid m.1) h (map_stack-IsValid object prot s p w)
  Step-IsValid {s} (unmaps v h) w = subst (Ensures IsValid) h (
      unmap_found-IsValid (is_mapped_as v.id) s (find_region (is_mapped_as v.id) s.regions) w
        (find_region-Found (is_mapped_as v.id) s.regions))
  Step-IsValid {s} (unmaps_at address h) w = subst (Ensures IsValid) h (
      unmap_found-IsValid (λ r. r.start == address) s
        (find_region (λ r. r.start == address) s.regions) w
        (find_region-Found (λ r. r.start == address) s.regions))
  Step-IsValid {s} (reserves start size p h) w =
      subst (Ensures IsValid) h (reserve_region-IsValid start size s p w)

  -- After any sequence of successful mapping, unmapping and reserving calls, each for a nonzero
  -- size, on a new address space that has a nonzero size and ends below 2^32, the regions cover
  -- the space in address order without gap, overlap or empty region, no two free regions are
  -- neighbours, free regions have no VMRegion, m_used is the sum of the sizes of the regions in
  -- use, and every VMRegion is older than the next one.
  pub Reach-IsValid :
      (start size : ℕ) (d : D) {s : Space D}
      → 0 < size
      → start + size < size_limit
      → Reach (init start size d) s
      → IsValid s
  Reach-IsValid start size d p h none_yet = init-IsValid start size d p h
  Reach-IsValid start size d p h (one_more st r) =
      Step-IsValid st (Reach-IsValid start size d p h r)
