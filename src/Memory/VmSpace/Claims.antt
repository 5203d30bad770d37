-- ===== src/Memory/VmSpace/Claims.antt =====
-- What the allocations of an address space (kernel/memory/VMSpace.cpp) do to the addresses in use,
-- when they fail, and that a free undoes them.
use duck_os.Prelude.{
  ℕ, ◌+◌, ◌≤◌, ◌<◌, ◌≡◌, sym, ◌∙◌, subst, true, false, ◌&&◌, ◌||◌, not, Option, none, some, List,
  arith, get_elem?,
}
use duck_os.Prelude.Words.{add_size, sub_size}
use duck_os.Prelude.Outcome.{Outcome, ok, err, enomem}
use duck_os.Memory.VmSpace.{SpaceRegion, alloc_in, alloc_at_in, free_in}
use duck_os.Memory.VmSpace.Invariant.{
  Chain, Chain-bounds, Gives, Gives-some, used_total-le, start_at, used_at, in_range, granted,
}
use duck_os.Memory.VmSpace.Alloc.{alloc_in-Chain, alloc_in-used_at, alloc_in-fresh, alloc_in-region}
use duck_os.Memory.VmSpace.Place.{alloc_at_in-Chain, alloc_at_in-Placed}
use duck_os.Memory.VmSpace.Place.View.{alloc_at_in-Claims}
use duck_os.Memory.VmSpace.Place.Undo.{alloc_at_in-undo}
use duck_os.Memory.VmSpace.Undo.{alloc_in-undo}
use duck_os.Memory.VmSpace.Free.{free_in-used_at}
use duck_os.Memory.VmSpace.Exhausted.{alloc_in-exhausted, alloc_at_in-exhausted}
use duck_os.Memory.VmSpace.Space.{Space, alloc_space, alloc_space_at, free_region}
use duck_os.Memory.VmSpace.Valid.{
  IsValid, space_end, Granted, alloc_space-Granted, alloc_space_at-Granted, free_region-eq-released,
}

Gives-map :
    {P Q : List SpaceRegion → ℕ → Type 0}
    → ((rs : List SpaceRegion) (i : ℕ) → P rs i → Q rs i)
    → (o : Option (List SpaceRegion × ℕ)) → Gives P o
    → Gives Q o
Gives-map f none g = tt
Gives-map f (some (rs, i)) g = f rs i g

module _ {D : Type 0} where
  -- Every address of the range that the granted region covers was free and is now in use; every
  -- other address is as before. The region lies inside the space and has the size asked for.
  pub record Claimed (s : Space D) (size i : ℕ) (s' : Space D) : Type 0 where
    pub region : get_elem? s'.regions i ≡ some (granted (start_at s'.regions i) size)
    pub above : s.start ≤ start_at s'.regions i
    pub below : start_at s'.regions i + size ≤ space_end s
    pub was_free :
        (x : ℕ) → in_range (start_at s'.regions i) size x ≡ true → used_at s.regions x ≡ false
    pub now_used :
        (x : ℕ)
        → used_at s'.regions x ≡ (used_at s.regions x || in_range (start_at s'.regions i) size x)

  Granted-Claimed :
      (s : Space D) (size : ℕ) (o : Option (List SpaceRegion × ℕ)) {i : ℕ} {s' : Space D}
      → Gives (λ rs i. Chain false s.start rs (space_end s)) o
      → Gives (λ rs i. get_elem? rs i ≡ some (granted (start_at rs i) size)) o
      → ((x : ℕ)
          → Gives (λ rs i. in_range (start_at rs i) size x ≡ true → used_at s.regions x ≡ false) o)
      → ((x : ℕ)
          → Gives
              (λ rs i. used_at rs x ≡ (used_at s.regions x || in_range (start_at rs i) size x))
              o)
      → Granted s size o i s'
      → Claimed s size i s'
  Granted-Claimed s size o {i} c r f u (rs, e, q) =
      let chain : Chain false s.start rs (space_end s) =
        Gives-some (λ rs i. Chain false s.start rs (space_end s)) o c e in
      let region : get_elem? rs i ≡ some (granted (start_at rs i) size) =
        Gives-some (λ rs i. get_elem? rs i ≡ some (granted (start_at rs i) size)) o r e in
      let bounds : (s.start ≤ start_at rs i) × (start_at rs i + size ≤ space_end s) × (0 < size) =
        Chain-bounds false s.start (space_end s) i (granted (start_at rs i) size) rs chain region in
      subst (Claimed s size i) q (record {
        region = region;
        above = bounds.0;
        below = bounds.1;
        was_free = λ x.
            Gives-some
              (λ rs i. in_range (start_at rs i) size x ≡ true → used_at s.regions x ≡ false) o (f x)
              e;
        now_used = λ x.
            Gives-some
              (λ rs i. used_at rs x ≡ (used_at s.regions x || in_range (start_at rs i) size x)) o
              (u x) e;
      })

  -- When alloc_space succeeds with a nonzero size on a valid space, the region that it returns has
  -- that size and lies inside the space, every address of it was free, and the addresses in use
  -- afterwards are those in use before and those of the region.
  pub alloc_space-Claimed :
      (size : ℕ) {s s' : Space D} {i : ℕ}
      → 0 < size
      → IsValid s
      → alloc_space size s ≡ ok (i, s')
      → Claimed s size i s'
  alloc_space-Claimed size {s} p v h =
      let e = space_end s in
      Granted-Claimed s size (alloc_in size s.regions)
        (alloc_in-Chain size e p v.small false s.start s.regions v.chain)
        (alloc_in-region size e p v.small false s.start s.regions v.chain)
        (λ x. alloc_in-fresh size e p v.small false s.start x s.regions v.chain)
        (λ x. alloc_in-used_at size e p v.small false s.start x s.regions v.chain)
        (alloc_space-Granted size s h)

  -- When alloc_space_at succeeds with a nonzero size on a valid space, the region that it returns
  -- has that size and lies inside the space, every address of it was free, and the addresses in
  -- use afterwards are those in use before and those of the region.
  pub alloc_space_at-Claimed :
      (size address : ℕ) {s s' : Space D} {i : ℕ}
      → 0 < size
      → IsValid s
      → alloc_space_at size address s ≡ ok (i, s')
      → Claimed s size i s'
  alloc_space_at-Claimed size address {s} p v h =
      let e = space_end s in
      Granted-Claimed s size (alloc_at_in size address s.regions)
        (alloc_at_in-Chain size address e p v.small false s.start s.regions v.chain)
        (Gives-map (λ rs i c. c.0) (alloc_at_in size address s.regions)
          (alloc_at_in-Placed size address e p v.small false s.start s.regions v.chain))
        (λ x.
          Gives-map (λ rs i c. ground arith) (alloc_at_in size address s.regions)
            (alloc_at_in-Claims size address e p v.small x false s.start s.regions v.chain))
        (λ x.
          Gives-map (λ rs i c. c.0) (alloc_at_in size address s.regions)
            (alloc_at_in-Claims size address e p v.small x false s.start s.regions v.chain))
        (alloc_space_at-Granted size address s h)

  -- The region holds the address that was asked for.
  pub alloc_space_at-contains :
      (size address : ℕ) {s s' : Space D} {i : ℕ}
      → 0 < size
      → IsValid s
      → alloc_space_at size address s ≡ ok (i, s')
      → in_range (start_at s'.regions i) size address ≡ true
  alloc_space_at-contains size address {s} {s'} {i} p v h =
      let (rs, e, q) = alloc_space_at-Granted size address s h in
      subst (λ (t : Space D). in_range (start_at t.regions i) size address ≡ true) q
        (Gives-some (λ rs i. in_range (start_at rs i) size address ≡ true)
          (alloc_at_in size address s.regions)
          (Gives-map (λ rs i c. ground arith) (alloc_at_in size address s.regions)
            (alloc_at_in-Placed size address (space_end s) p v.small false s.start s.regions
              v.chain))
          e)

  Granted-free :
      (s : Space D) (size : ℕ) (o : Option (List SpaceRegion × ℕ)) {i : ℕ} {s' : Space D}
      → IsValid s
      → Gives (λ rs i. free_in i rs ≡ s.regions) o
      → Granted s size o i s'
      → Claimed s size i s'
      → free_region i s' ≡ ok s
  Granted-free s size o {i} {s'} v u (rs, e, q) c =
      let t : Space D = record s { regions = rs; used = add_size s.used size } in
      let g : get_elem? rs i ≡ some (granted (start_at rs i) size) =
        subst (λ (t : Space D). get_elem? t.regions i ≡ some (granted (start_at t.regions i) size))
          (sym q) c.region in
      let undone : free_in i rs ≡ s.regions = Gives-some (λ rs i. free_in i rs ≡ s.regions) o u e in
      let total : sub_size (add_size s.used size) size ≡ s.used =
        omega (arith, c, v, used_total-le false s.start (space_end s) s.regions v.chain) in
      subst (λ t. free_region i t ≡ ok s) q
        (free_region-eq-released i (granted (start_at rs i) size) t g
          ∙ ground (arith, undone, total))

  -- On a valid space, freeing the region that a successful alloc_space with a nonzero size
  -- returned gives back exactly the space before the allocation, list of regions and used count
  -- included.
  pub free_region-alloc_space :
      (size : ℕ) {s s' : Space D} {i : ℕ}
      → 0 < size
      → IsValid s
      → alloc_space size s ≡ ok (i, s')
      → free_region i s' ≡ ok s
  free_region-alloc_space size {s} p v h =
      Granted-free s size (alloc_in size s.regions) v
        (alloc_in-undo size (space_end s) p v.small false s.start s.regions v.chain)
        (alloc_space-Granted size s h) (alloc_space-Claimed size p v h)

  -- On a valid space, freeing the region that a successful alloc_space_at with a nonzero size
  -- returned gives back exactly the space before the allocation, list of regions and used count
  -- included.
  pub free_region-alloc_space_at :
      (size address : ℕ) {s s' : Space D} {i : ℕ}
      → 0 < size
      → IsValid s
      → alloc_space_at size address s ≡ ok (i, s')
      → free_region i s' ≡ ok s
  free_region-alloc_space_at size address {s} p v h =
      Granted-free s size (alloc_at_in size address s.regions) v
        (alloc_at_in-undo size address (space_end s) p v.small false s.start s.regions v.chain)
        (alloc_space_at-Granted size address s h) (alloc_space_at-Claimed size address p v h)

  -- When alloc_space with a nonzero size reports ENOMEM on a valid space, every run of that many
  -- addresses inside the space holds an address in use: the merging of free regions leaves no run
  -- unfound.
  pub alloc_space-exhausted :
      (size x : ℕ) {s : Space D}
      → 0 < size
      → IsValid s
      → alloc_space size s ≡ err enomem
      → s.start ≤ x
      → x + size ≤ space_end s
      → (y : ℕ) × (x ≤ y) × (y < x + size) × (used_at s.regions y ≡ true)
  unfolding alloc_space
  alloc_space-exhausted size x {s} p v h lo hi =
      alloc_in-exhausted size (space_end s) v.small false s.start x s.regions p v.chain
        (ground arith) lo hi

  -- When alloc_space_at with a nonzero size reports ENOMEM on a valid space for a run of addresses
  -- that lies inside the space, an address of that run is in use.
  pub alloc_space_at-exhausted :
      (size address : ℕ) {s : Space D}
      → 0 < size
      → IsValid s
      → alloc_space_at size address s ≡ err enomem
      → s.start ≤ address
      → address + size ≤ space_end s
      → (y : ℕ) × (address ≤ y) × (y < address + size) × (used_at s.regions y ≡ true)
  unfolding alloc_space_at
  alloc_space_at-exhausted size address {s} p v h lo hi =
      alloc_at_in-exhausted size (space_end s) v.small false s.start address s.regions p v.chain
        (ground arith) lo hi

  -- On a valid space, free_region of a region leaves exactly the addresses in use that were in use
  -- and lie outside of that region.
  pub free_region-releases :
      (i x : ℕ) (r : SpaceRegion) {s s' : Space D}
      → IsValid s
      → get_elem? s.regions i ≡ some r
      → free_region i s ≡ ok s'
      → used_at s'.regions x ≡ (used_at s.regions x && not (in_range r.start r.size x))
  free_region-releases i x r {s} {s'} v g h =
      subst (λ (t : Outcome (Space D)). Keeps t) (sym (free_region-eq-released i r s g) ∙ h)
        (free_in-used_at (space_end s) v.small x false s.start i r s.regions v.chain g)
    where
      Keeps : Outcome (Space D) → Type 0
      Keeps (ok t) = used_at t.regions x ≡ (used_at s.regions x && not (in_range r.start r.size x))
      Keeps _ = Unit {0}
