-- ===== src/Memory/VmSpace/Free.antt =====
-- `VMSpace::free_region` of kernel/memory/VMSpace.cpp, and that it undoes an allocation.
use duck_os.Prelude.{
  ℕ, zero, suc, ◌+◌, ◌≤◌, ◌<◌, ◌≡◌, refl, inl, inr, subst, Bool, true, false, not, ◌&&◌, none, some,
  List, [], ◌∷◌, arith, get_elem?, if◌then◌else◌, Bool-cases,
}
use duck_os.Prelude.Words.{size_limit, add_size, sub_size}
use duck_os.Memory.VmSpace.{SpaceRegion, merge_next, merge_prev, freed, free_in}
use duck_os.Memory.VmSpace.Invariant.{
  Chain, Chain-bounds, Chain-le, Chain-weaken, used_total, used_at, in_range, contains-in_range,
}

module _ (e : ℕ) (small : e < size_limit) where
  merge_next-Chain :
      (a : ℕ) (r : SpaceRegion) (rs : List SpaceRegion)
      → r.used ≡ false
      → r.vm_region ≡ none
      → r.start ≡ a
      → 0 < r.size
      → Chain false (a + r.size) rs e
      → Chain false a (merge_next r rs) e
  unfolding merge_next
  merge_next-Chain a r [] u m s p c = ground arith
  merge_next-Chain a r (n ∷ rs) u m s p c =
      ground (arith, Chain-le (not n.used) (a + r.size + n.size) e rs c.4)

  freed-Chain :
      (a : ℕ) (r : SpaceRegion) (rs : List SpaceRegion) (free : Bool)
      → Chain free a (r ∷ rs) e
      → Chain false a (merge_next (freed r) rs) e
  unfolding freed
  freed-Chain a r rs free c =
      merge_next-Chain a (freed r) rs refl refl c.0 c.1
        (Chain-weaken (not r.used) (a + r.size) e rs c.4)

  merge_prev-Chain :
      (free : Bool) (a : ℕ) (p r : SpaceRegion) (rs : List SpaceRegion)
      → Chain free a (p ∷ r ∷ rs) e
      → Chain free a (merge_prev p (freed r) rs) e
  unfolding merge_prev freed
  merge_prev-Chain free a p r rs c = elim (Bool-cases p.used) [
    | inl u ↦ ground (arith, freed-Chain (a + p.size) r rs (not p.used) c.4)
    | inr u ↦
        let joined : SpaceRegion = record {
          start = sub_size r.start p.size;
          size = add_size r.size p.size;
          used = false;
          vm_region = none;
        } in
        let top : a + p.size + r.size ≤ e =
          Chain-le (not r.used) (a + p.size + r.size) e rs c.4.4 in
        let tail : Chain false (a + joined.size) rs e =
          subst (λ k. Chain false k rs e) (omega arith)
            (Chain-weaken (not r.used) (a + p.size + r.size) e rs c.4.4) in
        ground (arith, merge_next-Chain a joined rs refl refl (omega arith) (omega arith) tail)
  ]

  -- Freeing a region keeps the chain.
  pub free_in-Chain :
      (free : Bool) (a i : ℕ) (rs : List SpaceRegion)
      → Chain free a rs e
      → (i ≡ 0 → free ≡ false)
      → Chain free a (free_in i rs) e
  unfolding free_in
  free_in-Chain free a i [] c h = c
  free_in-Chain free a zero (r ∷ rs) c h = rw (h refl) (freed-Chain a r rs free c)
  free_in-Chain free a (suc zero) (p ∷ []) c h = c
  free_in-Chain free a (suc zero) (p ∷ r ∷ rs) c h = merge_prev-Chain free a p r rs c
  free_in-Chain free a (suc (suc i)) (p ∷ rs) c h = (
    c.0,
    c.1,
    c.2,
    c.3,
    free_in-Chain (not p.used) (a + p.size) (suc i) rs c.4 (λ z. absurd (omega arith)),
  )

module _ (e : ℕ) (small : e < size_limit) (x : ℕ) where
  merge_next-used_at :
      (a : ℕ) (r : SpaceRegion) (rs : List SpaceRegion)
      → r.used ≡ false
      → r.start + r.size ≡ a
      → Chain false a rs e
      → used_at (merge_next r rs) x ≡ (if in_range r.start r.size x then false else used_at rs x)
  unfolding merge_next used_at
  merge_next-used_at a r [] u s c = ground (arith, contains-in_range r x)
  merge_next-used_at a r (n ∷ rs) u s c = elim (Bool-cases n.used) [
    | inl v ↦ ground (arith, contains-in_range r x, Chain-le (not n.used) (a + n.size) e rs c.4)
    | inr v ↦ ground (
      arith,
      contains-in_range r x,
      contains-in_range n x,
      contains-in_range (record r { size = add_size r.size n.size }) x,
      Chain-le (not n.used) (a + n.size) e rs c.4,
    )
  ]

  -- The abstract view of a free: the addresses of the region are given up, the others are kept.
  abbrev Releases : SpaceRegion → List SpaceRegion → List SpaceRegion → Type 0
  Releases r rs rs' = used_at rs' x ≡ (used_at rs x && not (in_range r.start r.size x))

  free_head-used_at :
      (free : Bool) (a : ℕ) (r : SpaceRegion) (rs : List SpaceRegion)
      → Chain free a (r ∷ rs) e
      → Releases r (r ∷ rs) (merge_next (freed r) rs)
  unfolding freed used_at
  free_head-used_at free a r rs c = ground (
    arith,
    merge_next-used_at (a + r.size) (freed r) rs,
    contains-in_range r x,
    Chain-weaken (not r.used) (a + r.size) e rs c.4,
    Chain-le (not r.used) (a + r.size) e rs c.4,
  )

  merge_prev-used_at :
      (free : Bool) (a : ℕ) (p r : SpaceRegion) (rs : List SpaceRegion)
      → Chain free a (p ∷ r ∷ rs) e
      → Releases r (p ∷ r ∷ rs) (merge_prev p (freed r) rs)
  unfolding merge_prev used_at freed
  merge_prev-used_at free a p r rs c = elim (Bool-cases p.used) [
    | inl u ↦ ground (
      arith,
      free_head-used_at (not p.used) (a + p.size) r rs c.4,
      contains-in_range p x,
      Chain-le (not r.used) (a + p.size + r.size) e rs c.4.4,
    )
    | inr u ↦
        let joined : SpaceRegion = record {
          start = sub_size r.start p.size;
          size = add_size r.size p.size;
          used = false;
          vm_region = none;
        } in
        let top : a + p.size + r.size ≤ e =
          Chain-le (not r.used) (a + p.size + r.size) e rs c.4.4 in
        let tail : Chain false (a + joined.size) rs e =
          subst (λ k. Chain false k rs e) (omega arith)
            (Chain-weaken (not r.used) (a + p.size + r.size) e rs c.4.4) in
        ground (
          arith,
          merge_next-used_at (a + joined.size) joined rs,
          contains-in_range p x,
          contains-in_range r x,
        )
  ]

  -- Nothing before the region is touched.
  pub free_in-used_at :
      (free : Bool) (a i : ℕ) (r : SpaceRegion) (rs : List SpaceRegion)
      → Chain free a rs e
      → get_elem? rs i ≡ some r
      → Releases r rs (free_in i rs)
  unfolding free_in used_at
  free_in-used_at free a i r [] c g = cc
  free_in-used_at free a zero r (s ∷ rs) c g = ground (arith, free_head-used_at free a s rs c)
  free_in-used_at free a (suc zero) r (p ∷ []) c g = cc
  free_in-used_at free a (suc zero) r (p ∷ s ∷ rs) c g =
      ground (arith, merge_prev-used_at free a p s rs c)
  free_in-used_at free a (suc (suc i)) r (p ∷ rs) c g = ground (
    arith,
    free_in-used_at (not p.used) (a + p.size) (suc i) r rs c.4 g,
    Chain-bounds (not p.used) (a + p.size) e (suc i) r rs c.4 g,
    Chain-le (not p.used) (a + p.size) e rs c.4,
    contains-in_range p x,
  )

pub free_in-used_total :
    (i : ℕ) (r : SpaceRegion) (rs : List SpaceRegion) (free : Bool) (a e : ℕ)
    → e < size_limit
    → Chain free a rs e
    → get_elem? rs i ≡ some r
    → r.used ≡ true
    → used_total (free_in i rs) + r.size ≡ used_total rs
unfolding free_in used_total merge_next merge_prev freed
free_in-used_total i r [] free a e small c g u = cc
free_in-used_total zero r (s ∷ []) free a e small c g u = ground arith
free_in-used_total zero r (s ∷ n ∷ rs) free a e small c g u = ground arith
free_in-used_total (suc zero) r (p ∷ []) free a e small c g u = cc
free_in-used_total (suc zero) r (p ∷ s ∷ []) free a e small c g u = ground arith
free_in-used_total (suc zero) r (p ∷ s ∷ n ∷ rs) free a e small c g u = ground arith
free_in-used_total (suc (suc i)) r (p ∷ rs) free a e small c g u =
    ground (arith, free_in-used_total (suc i) r rs (not p.used) (a + p.size) e small c.4 g u)
