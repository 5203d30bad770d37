-- ===== src/Memory/BuddyZone/Reach.antt =====
-- Zones that the calls of kernel/memory/BuddyZone.h lead to, with the blocks that their callers hold.
use duck_os.Prelude.{
  ℕ, ◌+◌, ◌-◌, ◌≤◌, ◌<◌, ◌≡◌, ◌⊎◌, refl, sym, subst, ◌∙◌, inl, inr, arith, Bool-cases, none, List,
  [], ◌∷◌, ◌++◌, leb,
}
use duck_os.Prelude.Words.{sub_size}
use duck_os.Prelude.Outcome.{
  ok, err, fault, enomem, assert, >>=-eq-ok, assert-eq-ok, Ensures, ok-injective,
}
use duck_os.Memory.BuddyZone.{
  size_of_order, order_for, Pages, Zone, init, alloc_block, free_block, is_size,
}
use duck_os.Memory.BuddyZone.Orders.{is_size-size}
use duck_os.Memory.BuddyZone.Listed.{ListedOrder}
use duck_os.Memory.BuddyZone.Alloc.{Bounded}
use duck_os.Memory.BuddyZone.Calls.{EmptyFrom, alloc_at-GivesAt}
use duck_os.Memory.BuddyZone.Tiles.{
  Held, Tiled, IsTiled, init-Tiled, alloc_block-Tiled, free_block-Tiled,
}

-- The calls: a free gives back a block that is held, with the number of pages of its order.
pub data Reach : Zone → Held → Type 0 where
  started :
      (first num : ℕ) (pages : Pages) (z : Zone)
      → init first num pages ≡ ok z
      → (pages.at 0).next ≡ none
      → (pages.at 0).prev ≡ none
      → Reach z []
  allocated :
      (z z' : Zone) (held : Held) (num block : ℕ)
      → Reach z held
      → alloc_block num z ≡ ok (z.first_page + block, z')
      → Reach z' ((block, order_for num) ∷ held)
  freed :
      (z z' : Zone) (before behind : Held) (num block : ℕ)
      → Reach z (before ++ (block, order_for num) ∷ behind)
      → free_block (z.first_page + block) num z ≡ ok z'
      → Reach z' (before ++ behind)

free_block-size :
    (num block : ℕ) (z z' : Zone)
    → free_block (z.first_page + block) num z ≡ ok z'
    → size_of_order (order_for num) ≡ num
unfolding free_block
free_block-size num block z z' e =
    let (u, low, rest) = >>=-eq-ok (assert (leb z.first_page (z.first_page + block))) _ e in
    let (w, high, more) =
      >>=-eq-ok (assert (leb (z.first_page + block + num) (z.first_page + z.num_pages))) _ rest in
    let (x, size, made) = >>=-eq-ok (assert (is_size (order_for num) num)) _ more in
    is_size-size (order_for num) num (assert-eq-ok (is_size (order_for num) num) size)

-- After any calls of alloc_block and free_block on a new zone, in which held blocks are given
-- back, the doubly linked lists hold the free blocks, each bit tells whether one of its two
-- buddies is free, and the free and the held blocks cover each page of the zone exactly once: no
-- overlap and no lost page.
pub Reach-Tiled :
    (z : Zone) (held : Held) → Reach z held → (lists : List ListedOrder) × Tiled z held lists
Reach-Tiled _ _ (started first num pages z e n p) = init-Tiled first num pages z e n p
Reach-Tiled _ _ (allocated z z' held num block r e) =
    let (lists, t) = Reach-Tiled z held r in
    let same : z.first_page + block - z.first_page ≡ block = omega arith in
    let given =
      subst (Ensures (λ r. IsTiled ((r.0 - z.first_page, order_for num) ∷ held) r.1)) e
        (alloc_block-Tiled num z held lists t) in
    subst (λ b. IsTiled ((b, order_for num) ∷ held) z') same given
Reach-Tiled _ _ (freed z z' before behind num block r e) =
    let (lists, t) = Reach-Tiled z (before ++ (block, order_for num) ∷ behind) r in
    let (left, back, tiled, changes) =
      free_block-Tiled num block z before behind lists (free_block-size num block z z' e) t in
    subst (IsTiled (before ++ behind)) (ok-injective (sym back ∙ e)) tiled

-- A block that a caller holds, and whose number of pages is a power of two, can always be given
-- back: free_block returns and none of its assertions fails, whichever buddies are free.
pub free_block-Reach :
    (num block : ℕ) (z : Zone) (before behind : Held)
    → Reach z (before ++ (block, order_for num) ∷ behind)
    → size_of_order (order_for num) ≡ num
    → (z' : Zone) × (free_block (z.first_page + block) num z ≡ ok z') × Reach z' (before ++ behind)
free_block-Reach num block z before behind r e =
    let (lists, t) = Reach-Tiled z (before ++ (block, order_for num) ∷ behind) r in
    let (z', back, tiled, changes) = free_block-Tiled num block z before behind lists e t in
    (z', back, freed z z' before behind num block r back)

-- What `alloc_block` can do.
abbrev pub Outcomes : ℕ → Zone → Held → List ListedOrder → Type 0
Outcomes num z held lists =
    ((z.free_pages < num) × (alloc_block num z ≡ err enomem))
    ⊎ ((num ≤ z.free_pages) × EmptyFrom (order_for num) lists × (alloc_block num z ≡ fault))
    ⊎ ((num ≤ z.free_pages)
        × (block : ℕ) × (z' : Zone) × (alloc_block num z ≡ ok (z.first_page + block, z'))
        × Reach z' ((block, order_for num) ∷ held))

alloc_block-Outcomes :
    (num : ℕ) (z : Zone) (held : Held) (lists : List ListedOrder)
    → Reach z held
    → Tiled z held lists
    → Outcomes num z held lists
unfolding alloc_block
alloc_block-Outcomes num z held lists r t = elim (Bool-cases (leb num z.free_pages)) [
  | inr few ↦ inl (ground (arith, few), rw few refl)
  | inl enough ↦
      let bounded : Bounded 0 z.num_pages lists = λ page. omega (arith, t.covered page) in
      elim (alloc_at-GivesAt 0 (order_for num) (order_for num) z.num_pages z.pages z.orders lists
        (omega arith) t.levels bounded t.linked) [
          | inl (empty, stops) ↦ inr (inl (ground (arith, enough), empty, rw (enough, stops) refl))
          | inr (block, orders, pages, after, made, a, c, changed) ↦
              let z' : Zone = record z {
                orders = orders;
                pages = pages;
                free_pages = sub_size z.free_pages num;
              } in
              let gives : alloc_block num z ≡ ok (z.first_page + block, z') =
                rw (enough, made) refl in
              inr (
                inr
                  (ground (arith, enough), block, z', gives, allocated z z' held num block r gives))
        ]
]

-- After any calls of alloc_block and free_block on a new zone, in which held blocks are given
-- back, where the zone counts fewer free pages than are asked for, alloc_block reports ENOMEM;
-- where it counts enough, alloc_block gives a block, or no block of the order or of a higher one
-- is free and it fails an assertion.
pub alloc_block-Reach :
    (num : ℕ) (z : Zone) (held : Held)
    → Reach z held
    → (lists : List ListedOrder) × Tiled z held lists × Outcomes num z held lists
alloc_block-Reach num z held r =
    let (lists, t) = Reach-Tiled z held r in (lists, t, alloc_block-Outcomes num z held lists r t)
