-- ===== src/Memory/VmSpace/Stack.antt =====
-- `VMSpace::map_stack` of kernel/memory/VMSpace.cpp, and where `alloc_space_at` puts a region.
use duck_os.Prelude.{
  ℕ, zero, suc, ◌+◌, ◌≤◌, ◌<◌, ◌≡◌, ◌⊎◌, refl, subst, inl, inr, true, false, ◌||◌, none, some,
  Option, List, [], ◌∷◌, arith, get_elem?, ltb, ◌==◌, if◌then◌else◌, Bool-cases,
}
use duck_os.Prelude.Outcome.{ok, fault, Ensures-ok}
use duck_os.Memory.VmSpace.{SpaceRegion, VmObject, VmProt, VmRegion, region_end, alloc_at_in}
use duck_os.Memory.VmSpace.Invariant.{Chain-bounds, Gives-some, start_at, in_range}
use duck_os.Memory.VmSpace.Place.Position.{alloc_at_in-start_at_region}
use duck_os.Memory.VmSpace.Space.{
  PageDirectory, Space, alloc_space_at, map_object, map_stack, stack_range, last_fit, install,
  map_granted, mapped_size, alloc_range,
}
use duck_os.Memory.VmSpace.Valid.{IsValid, space_end, alloc_space_at-Granted}
use duck_os.Memory.VmSpace.Mapping.{map_object-inv, map_granted-eq-mapped, alloc_range-lem}

module _ {D : Type 0} where
  -- The region starts at the address, but for a free region of just the size asked for, which is
  -- granted whole, wherever in it the address lies.
  pub alloc_space_at-start :
      (size address j : ℕ) (r : SpaceRegion) {s s' : Space D} {i : ℕ}
      → IsValid s
      → get_elem? s.regions j ≡ some r
      → in_range r.start r.size address ≡ true
      → alloc_space_at size address s ≡ ok (i, s')
      → start_at s'.regions i ≡ (if r.size == size then r.start else address)
  alloc_space_at-start size address j r {s} {s'} {i} v g m h =
      let (rs, e, q) = alloc_space_at-Granted size address s h in
      subst (λ (t : Space D). start_at t.regions i ≡ (if r.size == size then r.start else address))
        q
        (Gives-some (λ rs i. start_at rs i ≡ (if r.size == size then r.start else address))
          (alloc_at_in size address s.regions)
          (alloc_at_in-start_at_region size address (space_end s) v.small false s.start j r
            s.regions v.chain g m)
          e)

  -- On a valid space, when an address lies inside a free region but not at its start, an
  -- alloc_space_at call for just the size of that region that succeeds returns a region which
  -- starts below the address.
  pub alloc_space_at-misplaced :
      (address j : ℕ) (r : SpaceRegion) {s s' : Space D} {i : ℕ}
      → IsValid s
      → get_elem? s.regions j ≡ some r
      → r.start < address
      → address < r.start + r.size
      → alloc_space_at r.size address s ≡ ok (i, s')
      → start_at s'.regions i < address
  alloc_space_at-misplaced address j r v g lo hi h =
      ground (arith, alloc_space_at-start r.size address j r v g (ground arith) h)

-- No region of the list is free and large enough.
abbrev pub NoFit : ℕ → List SpaceRegion → Type 0
NoFit size rs =
    (j : ℕ) (r : SpaceRegion) → get_elem? rs j ≡ some r → (r.used ≡ true) ⊎ (r.size < size)

-- What the loops of `map_stack` find: the last free region that is large enough.
abbrev pub LastFit : ℕ → List SpaceRegion → Option SpaceRegion → Type 0
LastFit size rs none = NoFit size rs
LastFit size rs (some r) =
    (r.used ≡ false)
    × (size ≤ r.size)
    × ((j : ℕ) × (get_elem? rs j ≡ some r)
        × ((k : ℕ) (t : SpaceRegion)
            → j < k
            → get_elem? rs k ≡ some t
            → (t.used ≡ true) ⊎ (t.size < size)))

NoFit-behind :
    (size : ℕ) (r : SpaceRegion) (rs : List SpaceRegion)
    → (r.used ≡ true) ⊎ (r.size < size)
    → NoFit size rs
    → NoFit size (r ∷ rs)
NoFit-behind size r rs h f zero t g = ground arith
NoFit-behind size r rs h f (suc j) t g = f j t g

after_front :
    (size : ℕ) (r : SpaceRegion) (rs : List SpaceRegion)
    → NoFit size rs
    → (k : ℕ) (t : SpaceRegion) → 0 < k
    → get_elem? (r ∷ rs) k ≡ some t
    → (t.used ≡ true) ⊎ (t.size < size)
after_front size r rs f zero t h g = absurd (omega arith)
after_front size r rs f (suc k) t h g = f k t g

after_behind :
    (size j : ℕ) (r : SpaceRegion) (rs : List SpaceRegion)
    → ((k : ℕ) (t : SpaceRegion)
        → j < k
        → get_elem? rs k ≡ some t
        → (t.used ≡ true) ⊎ (t.size < size))
    → (k : ℕ) (t : SpaceRegion) → suc j < k
    → get_elem? (r ∷ rs) k ≡ some t
    → (t.used ≡ true) ⊎ (t.size < size)
after_behind size j r rs f zero t h g = absurd (omega arith)
after_behind size j r rs f (suc k) t h g = f k t (omega arith) g

LastFit-behind :
    (size : ℕ) (r : SpaceRegion) (rs : List SpaceRegion) (o : Option SpaceRegion)
    → LastFit size rs o
    → LastFit size
        (r ∷ rs)
        (elim o [ some t ↦ some t | none ↦ if r.used || ltb r.size size then none else some r ])
LastFit-behind size r rs none f = elim (Bool-cases (r.used || ltb r.size size)) [
  | inl skip ↦ rw skip (NoFit-behind size r rs (ground arith) f)
  | inr fit ↦ rw fit (ground arith, ground arith, (0, refl, after_front size r rs f))
]
LastFit-behind size r rs (some t) (u, fits, (j, g, f)) =
    (u, fits, (suc j, g, after_behind size j r rs f))

pub last_fit-LastFit : (size : ℕ) (rs : List SpaceRegion) → LastFit size rs (last_fit size rs)
unfolding last_fit
last_fit-LastFit size [] = λ j r g. cc
last_fit-LastFit size (r ∷ rs) =
    LastFit-behind size r rs (last_fit size rs) (last_fit-LastFit size rs)

module _ {D : Type 0} (directory : PageDirectory D) (object : VmObject) (prot : VmProt) where
  -- When no free region of the space is large enough for the object, map_stack reads through a
  -- null pointer instead of reporting ENOMEM.
  pub map_stack-fault :
      (s : Space D) → NoFit object.object_size s.regions → map_stack directory object prot s ≡ fault
  unfolding map_stack
  map_stack-fault s f =
      no_fit (last_fit object.object_size s.regions) (last_fit-LastFit object.object_size s.regions)
    where
      no_fit :
          (o : Option SpaceRegion)
          → LastFit object.object_size s.regions o
          → (elim o [
            | none ↦ fault
            | some r ↦ map_object directory object prot (stack_range object r) 0 s
          ])
            ≡ fault
      no_fit none l = refl
      no_fit (some r) (u, fits, (j, g, _)) = ground (arith, f j r g)

  -- The stack is put at the top of that region.
  stack_range-top :
      (j : ℕ) (r : SpaceRegion) (s : Space D) {s' : Space D} {v : VmRegion}
      → 0 < s.start
      → 0 < object.object_size
      → IsValid s
      → get_elem? s.regions j ≡ some r
      → object.object_size ≤ r.size
      → map_object directory object prot (stack_range object r) 0 s ≡ ok (v, s')
      → v.range.range_start + object.object_size ≡ r.start + r.size
  unfolding region_end alloc_range install
  stack_range-top j r s low p w g fits h =
      let size = object.object_size in
      let address = (stack_range object r).range_start in
      let bounds = Chain-bounds false s.start (space_end s) j r s.regions w.chain g in
      let sized : mapped_size object (stack_range object r) 0 ≡ size = ground arith in
      let (checked, ((i, t), got, made)) =
        map_object-inv directory object prot (stack_range object r) 0 s h in
      let got' : alloc_range size address s ≡ ok (i, t) = rw sized at got in
      let (valid, claimed, back) = alloc_range-lem directory size address p w got' in
      let at : alloc_space_at size address s ≡ ok (i, t) = ground arith in
      let placed : start_at t.regions i ≡ (if r.size == size then r.start else address) =
        alloc_space_at-start size address j r w g (ground arith) at in
      Ensures-ok (λ (m : VmRegion × Space D). m.0.range.range_start + size ≡ r.start + r.size)
        (map_granted directory object prot 0 size 0 (i, t))
        (map_granted-eq-mapped directory object prot size size 0 0 i s t valid claimed)
        (rw sized at made) (ground (arith, placed, claimed.below))

  -- When map_stack succeeds for an object of nonzero size on a valid space that does not start at
  -- address zero, the new VMRegion ends where the last free region large enough for the object
  -- ended.
  pub map_stack-top :
      (s : Space D) {s' : Space D} {v : VmRegion}
      → 0 < s.start
      → 0 < object.object_size
      → IsValid s
      → map_stack directory object prot s ≡ ok (v, s')
      → (r : SpaceRegion) × LastFit object.object_size s.regions (some r)
        × (v.range.range_start + object.object_size ≡ r.start + r.size)
  unfolding map_stack
  map_stack-top s {s'} {v} low p w h =
      at_top (last_fit object.object_size s.regions) (last_fit-LastFit object.object_size s.regions)
        h
    where
      at_top :
          (o : Option SpaceRegion)
          → LastFit object.object_size s.regions o
          → (elim o [
            | none ↦ fault
            | some r ↦ map_object directory object prot (stack_range object r) 0 s
          ])
            ≡ ok (v, s')
          → (r : SpaceRegion) × LastFit object.object_size s.regions (some r)
            × (v.range.range_start + object.object_size ≡ r.start + r.size)
      at_top none l h = cc
      at_top (some r) l h = (r, l, stack_range-top l.2.0 r s low p w l.2.1 l.1 h)
