-- ===== src/Memory/VmSpace/Valid.antt =====
-- The invariant of an address space (kernel/memory/VMSpace.cpp), and what an allocation does to it.
use duck_os.Prelude.{
  ℕ, ◌+◌, ◌<◌, ◌≡◌, refl, subst, inl, inr, true, false, Option, none, some, List, arith, get_elem?,
  Bool-cases,
}
use duck_os.Prelude.Words.{size_limit, add_size, sub_size}
use duck_os.Prelude.Outcome.{ok, assert, ◌>>=◌}
use duck_os.Memory.VmSpace.{SpaceRegion, alloc_in, alloc_at_in, free_in}
use duck_os.Memory.VmSpace.Invariant.{Chain, Gives, Gives-some, used_total, used_total-le}
use duck_os.Memory.VmSpace.Alloc.{alloc_in-Chain, alloc_in-used_total}
use duck_os.Memory.VmSpace.Place.{alloc_at_in-Chain, alloc_at_in-used_total}
use duck_os.Memory.VmSpace.Free.{free_in-Chain, free_in-used_total}
use duck_os.Memory.VmSpace.Fresh.{Fresh, alloc_in-Fresh, alloc_at_in-Fresh, free_in-Fresh}
use duck_os.Memory.VmSpace.Space.{
  Space, grant, is_aligned, init, alloc_space, alloc_space_at, free_region,
}

module _ {D : Type 0} where
  abbrev pub space_end : Space D → ℕ
  space_end s = s.start + s.size

  pub record IsValid (s : Space D) : Type 0 where
    pub chain : Chain false s.start s.regions (space_end s)
    pub small : space_end s < size_limit
    pub counted : s.used ≡ used_total s.regions
    pub fresh : Fresh s.next_id s.regions

  pub init-IsValid :
      (start size : ℕ) (d : D) → 0 < size → start + size < size_limit → IsValid (init start size d)
  unfolding init used_total
  init-IsValid start size d p h = ground arith

  -- What a successful allocation is, in terms of its loop.
  abbrev pub Granted : Space D → ℕ → Option (List SpaceRegion × ℕ) → ℕ → Space D → Type 0
  Granted s size o i s' =
      (rs : List SpaceRegion) × (o ≡ some (rs, i))
      × (record s { regions = rs; used = add_size s.used size } ≡ s')

  grant-Granted :
      (s : Space D) (size : ℕ) (o : Option (List SpaceRegion × ℕ)) {i : ℕ} {s' : Space D}
      → grant s size o ≡ ok (i, s')
      → Granted s size o i s'
  grant-Granted s size none h = cc
  grant-Granted s size (some (rs, j)) h = (rs, ground arith, ground arith)

  pub alloc_space-Granted :
      (size : ℕ) (s : Space D) {i : ℕ} {s' : Space D}
      → alloc_space size s ≡ ok (i, s')
      → Granted s size (alloc_in size s.regions) i s'
  unfolding alloc_space
  alloc_space-Granted size s h = elim (Bool-cases (is_aligned size)) [
    | inl t ↦ grant-Granted s size (alloc_in size s.regions) (rw (t, assert, ◌>>=◌) at h)
    | inr f ↦ ground arith
  ]

  pub alloc_space_at-Granted :
      (size address : ℕ) (s : Space D) {i : ℕ} {s' : Space D}
      → alloc_space_at size address s ≡ ok (i, s')
      → Granted s size (alloc_at_in size address s.regions) i s'
  unfolding alloc_space_at
  alloc_space_at-Granted size address s h = elim (Bool-cases (is_aligned address)) [
    | inl t ↦ elim (Bool-cases (is_aligned size)) [
      | inl t' ↦
          grant-Granted s size (alloc_at_in size address s.regions) (rw (t, t', assert, ◌>>=◌) at h)
      | inr f ↦ ground arith
    ]
    | inr f ↦ ground arith
  ]

  Granted-IsValid :
      (s : Space D) (size : ℕ) (o : Option (List SpaceRegion × ℕ)) {i : ℕ} {s' : Space D}
      → IsValid s
      → Gives (λ rs i. Chain false s.start rs (space_end s)) o
      → Gives (λ rs i. used_total rs ≡ used_total s.regions + size) o
      → Gives (λ rs i. Fresh s.next_id rs) o
      → Granted s size o i s'
      → IsValid s'
  Granted-IsValid s size o v c u f (rs, e, q) =
      let chain : Chain false s.start rs (space_end s) =
        Gives-some (λ rs i. Chain false s.start rs (space_end s)) o c e in
      let total : used_total rs ≡ used_total s.regions + size =
        Gives-some (λ rs i. used_total rs ≡ used_total s.regions + size) o u e in
      subst IsValid q (record {
        chain = chain;
        small = v.small;
        counted = omega (arith, v, used_total-le false s.start (space_end s) rs chain);
        fresh = Gives-some (λ rs i. Fresh s.next_id rs) o f e;
      })

  pub alloc_space-IsValid :
      (size : ℕ) {s s' : Space D} {i : ℕ}
      → 0 < size
      → IsValid s
      → alloc_space size s ≡ ok (i, s')
      → IsValid s'
  alloc_space-IsValid size {s} p v h =
      Granted-IsValid s size (alloc_in size s.regions) v
        (alloc_in-Chain size (space_end s) p v.small false s.start s.regions v.chain)
        (alloc_in-used_total size (space_end s) p v.small false s.start s.regions v.chain)
        (alloc_in-Fresh s.next_id size s.regions v.fresh) (alloc_space-Granted size s h)

  pub alloc_space_at-IsValid :
      (size address : ℕ) {s s' : Space D} {i : ℕ}
      → 0 < size
      → IsValid s
      → alloc_space_at size address s ≡ ok (i, s')
      → IsValid s'
  alloc_space_at-IsValid size address {s} p v h =
      Granted-IsValid s size (alloc_at_in size address s.regions) v
        (alloc_at_in-Chain size address (space_end s) p v.small false s.start s.regions v.chain)
        (alloc_at_in-used_total size address (space_end s) p v.small false s.start s.regions
          v.chain)
        (alloc_at_in-Fresh s.next_id size address s.regions v.fresh)
        (alloc_space_at-Granted size address s h)

  abbrev pub released : ℕ → SpaceRegion → Space D → Space D
  released i r s = record s { regions = free_in i s.regions; used = sub_size s.used r.size }

  pub free_region-eq-released :
      (i : ℕ) (r : SpaceRegion) (s : Space D)
      → get_elem? s.regions i ≡ some r
      → free_region i s ≡ ok (released i r s)
  unfolding free_region
  free_region-eq-released i r s g = rw g

  -- Freeing a region in use.
  pub free_region-IsValid :
      (i : ℕ) (r : SpaceRegion) {s : Space D}
      → IsValid s
      → get_elem? s.regions i ≡ some r
      → r.used ≡ true
      → IsValid (released i r s)
  free_region-IsValid i r {s} v g u =
      let total : used_total (free_in i s.regions) + r.size ≡ used_total s.regions =
        free_in-used_total i r s.regions false s.start (space_end s) v.small v.chain g u in
      record {
        chain = free_in-Chain (space_end s) v.small false s.start i s.regions v.chain (λ z. refl);
        small = v.small;
        counted = omega (arith, v, used_total-le false s.start (space_end s) s.regions v.chain);
        fresh = free_in-Fresh s.next_id i s.regions v.fresh;
      }
