-- ===== src/Memory/VmSpace/Exhausted.antt =====
-- When `alloc_space` and `alloc_space_at` of kernel/memory/VMSpace.cpp fail: since neighbouring free regions are
-- merged, a failure means that no run of free addresses is long enough.
use duck_os.Prelude.{
  ℕ, ◌+◌, ◌≤◌, ◌<◌, ◌≡◌, Bool, true, not, none, List, [], ◌∷◌, arith, inl, inr, Bool-cases,
}
use native.Mathlib.Decide.{dec_lt}
use duck_os.Prelude.Words.{size_limit}
use duck_os.Memory.VmSpace.{SpaceRegion, alloc_in, take_at, alloc_at_in}
use duck_os.Memory.VmSpace.Invariant.{Chain, used_at, contains-in_range, Chain-le}

module _ (size e : ℕ) (small : e < size_limit) where
  -- An address in use among those from `x` on.
  abbrev Blocked : ℕ → List SpaceRegion → Type 0
  Blocked x rs = (y : ℕ) × (x ≤ y) × (y < x + size) × (used_at rs y ≡ true)

  Blocked-behind :
      (x : ℕ) (r : SpaceRegion) (rs : List SpaceRegion)
      → r.start + r.size < size_limit
      → r.start + r.size ≤ x
      → Blocked x rs
      → Blocked x (r ∷ rs)
  unfolding used_at
  Blocked-behind x r rs h k (y, lo, hi, u) = (y, lo, hi, ground (arith, contains-in_range r y))

  -- A region in use blocks the run that begins in it.
  Blocked-used :
      (x : ℕ) (r : SpaceRegion) (rs : List SpaceRegion)
      → 0 < size
      → r.start + r.size < size_limit
      → r.start ≤ x
      → x < r.start + r.size
      → r.used ≡ true
      → Blocked x (r ∷ rs)
  unfolding used_at
  Blocked-used x r rs p h lo hi u =
      (x, omega arith, omega arith, ground (arith, contains-in_range r x))

  -- A free region that is too small is blocked by the one that follows.
  Blocked-next :
      (a x : ℕ) (r : SpaceRegion) (rs : List SpaceRegion)
      → Chain true a rs e
      → r.start + r.size ≡ a
      → x < a
      → a < x + size
      → x + size ≤ e
      → Blocked x (r ∷ rs)
  unfolding used_at
  Blocked-next a x r [] c h lo hi fits = absurd (omega arith)
  Blocked-next a x r (n ∷ rs) c h lo hi fits = (
    a,
    omega arith,
    omega arith,
    ground (
      arith,
      Chain-le (not n.used) (a + n.size) e rs c.4,
      contains-in_range r a,
      contains-in_range n a,
    ),
  )

  pub alloc_in-exhausted :
      (free : Bool) (a x : ℕ) (rs : List SpaceRegion)
      → 0 < size
      → Chain free a rs e
      → alloc_in size rs ≡ none
      → a ≤ x
      → x + size ≤ e
      → Blocked x rs
  unfolding alloc_in
  alloc_in-exhausted free a x [] p c h lo fits = absurd (omega arith)
  alloc_in-exhausted free a x (r ∷ rs) p c h lo fits = elim (dec_lt x (a + r.size)) [
    | no past ↦
        Blocked-behind x r rs (omega (arith, Chain-le (not r.used) (a + r.size) e rs c.4))
          (omega arith)
          (alloc_in-exhausted (not r.used) (a + r.size) x rs p c.4 (ground arith) (omega arith)
            fits)
    | yes inside ↦ elim (Bool-cases r.used) [
      | inl u ↦
          Blocked-used x r rs p (omega (arith, Chain-le (not r.used) (a + r.size) e rs c.4))
            (omega arith) (omega arith) u
      | inr u ↦
          Blocked-next (a + r.size) x r rs (rw u at c.4) (omega arith) inside (ground arith) fits
    ]
  ]

  -- `alloc_space_at` fails only if an address of the run is in use.
  pub alloc_at_in-exhausted :
      (free : Bool) (a x : ℕ) (rs : List SpaceRegion)
      → 0 < size
      → Chain free a rs e
      → alloc_at_in size x rs ≡ none
      → a ≤ x
      → x + size ≤ e
      → Blocked x rs
  unfolding alloc_at_in take_at
  alloc_at_in-exhausted free a x [] p c h lo fits = absurd (omega arith)
  alloc_at_in-exhausted free a x (r ∷ rs) p c h lo fits =
      let top : a + r.size ≤ e = Chain-le (not r.used) (a + r.size) e rs c.4 in
      elim (dec_lt x (a + r.size)) [
        | no past ↦ Blocked-behind x r rs (omega arith) (omega arith) (
            alloc_at_in-exhausted (not r.used) (a + r.size) x rs p c.4
              (ground (arith, contains-in_range r x)) (omega arith) fits)
        | yes inside ↦ elim (Bool-cases r.used) [
          | inl u ↦ Blocked-used x r rs p (omega arith) (omega arith) (omega arith) u
          | inr u ↦
              Blocked-next (a + r.size) x r rs (rw u at c.4) (omega arith) inside
                (ground (arith, contains-in_range r x)) fits
        ]
      ]
