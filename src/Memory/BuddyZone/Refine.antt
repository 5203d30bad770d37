-- ===== src/Memory/BuddyZone/Refine.antt =====
-- Allocation over linked lists (kernel/memory/BuddyZone.cpp) does what it does over lists.
use duck_os.Prelude.{
  ℕ, suc, ◌+◌, ◌≤◌, ◌≡◌, ◌≢◌, ◌⊎◌, refl, sym, ap, subst, ◌∙◌, inl, inr, arith, true, false, ◌==◌,
  Option, none, some, List, [], ◌∷◌, set,
}
use duck_os.Prelude.Outcome.{Outcome, ok, fault, ◌>>=◌}
use duck_os.Memory.BuddyZone.{
  size_of_order, bit_index, bit_at, BuddyOrder, get_bit, set_bit, PageLinks, Pages, get_block,
  put_block, set_prev, Given, split_higher, take_first, first_or_split, alloc_block_internal,
}
use duck_os.Memory.BuddyZone.Listed.{ListedOrder, bit_of, with_bit, split_block}
use duck_os.Memory.BuddyZone.Blocks.{size_of_order-pos}
use duck_os.Memory.BuddyZone.Counts.{
  hit, hits, cover, inside, count, one_if, hit-second, hits-count, Levels,
}
use duck_os.Memory.BuddyZone.Alloc.{
  Bounded, Bounded-above, AllEmpty, Taken, head-bit, split_block-Taken, take_block-Taken,
}
use duck_os.Memory.BuddyZone.Links.{
  Chain, AllLinked, AllLinked-frame, Chain-set_prev, SameOutside, set_prev-outside, put_block-other,
  put_block_self, some-injective,
}

-- A linked result that holds the listed one, with the pages that it may change.
abbrev pub Refines : ℕ → Pages → List ListedOrder → ℕ → List ListedOrder → Outcome Given → Type 0
Refines order pages lists block after result =
    (orders : List BuddyOrder) × (pages' : Pages) × (result ≡ ok (block, orders, pages'))
    × AllLinked pages' orders after
    × SameOutside order lists pages pages'

inside-le : (pages page : ℕ) → inside pages page ≤ 1
unfolding inside
inside-le pages page = ground arith

split_higher-Refines :
    (order num_pages block : ℕ) (pages : Pages) (bucket : BuddyOrder) (list : ListedOrder)
    (lists after : List ListedOrder) (higher : Outcome Given)
    → bucket.block_map ≡ list.block_map
    → list.freelist ≡ []
    → Bounded order num_pages (list ∷ lists)
    → Taken (suc order) num_pages lists block after
    → Refines (suc order) pages lists block after higher
    → Refines order pages
        (list ∷ lists)
        block
        (split_block order list (block, after)).1
        (higher >>= λ given. ok (split_higher order bucket given))
unfolding cover hits
split_higher-Refines order num_pages block pages bucket list lists after higher m e h t
      (orders, pages', gives, linked, same) =
    let second : ℕ = block + size_of_order order in
    let last : PageLinks = record { next = none; prev = none } in
    let pages'' : Pages = put_block (some second) last pages' in
    let here : pages''.at second ≡ last = put_block_self second last pages' in
    let in_block : hit (size_of_order (suc order)) block second ≡ 1 = hit-second order block in
    let alone : cover (suc order) after second ≡ 0 =
      omega (arith, t.covered second, h second, inside-le num_pages second) in
    let elsewhere : (y : ℕ) → second ≢ y → pages''.at y ≡ pages'.at y =
      λ y ne. put_block-other (some second) last pages' y (λ e. ne (some-injective e)) in
    (
      record (set_bit order block true bucket) { freelist = some second } ∷ orders,
      pages'',
      rw gives refl,
      (
        ap (λ bits. set bits (bit_index order block) true) m,
        (refl, ap (λ l. l.prev) here, ap (λ l. l.next) here),
        AllLinked-frame (suc order) pages' pages'' orders after
            (λ y c. elsewhere y (λ s. absurd (omega (arith, ap (cover (suc order) after) s))))
            linked,
      ),
      λ y z.
          elsewhere y
            (λ s. absurd (omega (arith, ap (cover order (list ∷ lists)) s, t.covered second, z)))
          ∙ same y (omega (arith, z)),
    )

-- No block stands twice in a freelist.
pub Bounded-once :
    (order num_pages : ℕ) (list : ListedOrder) (lists : List ListedOrder)
    → Bounded order num_pages (list ∷ lists)
    → (y : ℕ) → count list.freelist y + cover (suc order) lists y ≤ 1
unfolding cover
Bounded-once order num_pages list lists h y = omega (
  arith,
  h y,
  hits-count (size_of_order order) list.freelist y (size_of_order-pos order),
  inside-le num_pages y,
)

take_first-Refines :
    (order num_pages block : ℕ) (rest : List ℕ) (pages : Pages) (bucket : BuddyOrder)
    (above : List BuddyOrder) (list : ListedOrder) (lists : List ListedOrder)
    → AllLinked pages (bucket ∷ above) (list ∷ lists)
    → list.freelist ≡ block ∷ rest
    → bit_of order block list ≡ true
    → Bounded order num_pages (list ∷ lists)
    → Refines order pages
        (list ∷ lists)
        block
        (record (with_bit order block false list) { freelist = rest } ∷ lists)
        (take_first order bucket above pages block)
unfolding cover hits count get_block
take_first-Refines order num_pages block rest pages bucket above list lists linked e t h =
    let chain : Chain pages none bucket.freelist (block ∷ rest) =
      subst (Chain pages none bucket.freelist) e linked.1 in
    let next : Option ℕ = (pages.at block).next in
    let pages' : Pages = set_prev next none pages in
    let bit : get_bit order block bucket ≡ true =
      ap (λ bits. bit_at bits (bit_index order block)) linked.0 ∙ t in
    let counts : (y : ℕ) → count list.freelist y ≡ one_if (block == y) + count rest y =
      λ y. ap (λ l. count l y) e in
    let once : (y : ℕ) → count rest y ≤ 1 =
      λ y. omega (arith, counts y, Bounded-once order num_pages list lists h y) in
    let kept : (y : ℕ) → count rest y ≡ 0 → pages'.at y ≡ pages.at y =
      λ y z. set_prev-outside pages (some block) none next rest y chain.2 z in
    (
      record (set_bit order block false bucket) { freelist = next } ∷ above,
      pages',
      rw bit refl,
      (
        ap (λ bits. set bits (bit_index order block) false) linked.0,
        Chain-set_prev pages (some block) none next rest once chain.2,
        AllLinked-frame (suc order) pages pages' above lists
            (λ y c. kept y (omega (arith, counts y, Bounded-once order num_pages list lists h y)))
            linked.2,
      ),
      λ y z. kept y (
          omega (
            arith,
            counts y,
            hits-count (size_of_order order) list.freelist y (size_of_order-pos order),
          )),
    )

-- `alloc_block_internal` stops at its assertion when no block of the order or of a higher one is free.
-- Otherwise it gives a block that was free, and leaves linked lists of the others.
abbrev pub Gives : ℕ → ℕ → Pages → List ListedOrder → Outcome Given → Type 0
Gives order num_pages pages lists result =
    (AllEmpty lists × (result ≡ fault))
    ⊎ ((block : ℕ) × (after : List ListedOrder) × Taken order num_pages lists block after
        × Refines order pages lists block after result)

split_higher-Gives :
    (order num_pages : ℕ) (pages : Pages) (bucket : BuddyOrder) (above : List BuddyOrder)
    (list : ListedOrder) (lists : List ListedOrder) (higher : Outcome Given)
    → list.freelist ≡ []
    → Levels order num_pages (list ∷ lists)
    → Bounded order num_pages (list ∷ lists)
    → AllLinked pages (bucket ∷ above) (list ∷ lists)
    → Gives (suc order) num_pages pages lists higher
    → Gives order num_pages pages
        (list ∷ lists)
        (higher >>= λ given. ok (split_higher order bucket given))
split_higher-Gives order num_pages pages bucket above list lists higher e v h linked
      (inl (empty, stops)) =
    inl ((e, empty), rw stops refl)
split_higher-Gives order num_pages pages bucket above list lists higher e v h linked
      (inr (block, after, taken, refines)) =
    inr (
      block,
      (split_block order list (block, after)).1,
      split_block-Taken order num_pages block list lists after v h e taken,
      split_higher-Refines order num_pages block pages bucket list lists after higher linked.0 e h
          taken refines,
    )

first_or_split-Gives :
    (order num_pages : ℕ) (pages : Pages) (bucket : BuddyOrder) (above : List BuddyOrder)
    (list : ListedOrder) (lists : List ListedOrder) (free : List ℕ) (higher : Outcome Given)
    → list.freelist ≡ free
    → Levels order num_pages (list ∷ lists)
    → Bounded order num_pages (list ∷ lists)
    → AllLinked pages (bucket ∷ above) (list ∷ lists)
    → Gives (suc order) num_pages pages lists higher
    → Gives order num_pages pages
        (list ∷ lists)
        (first_or_split order bucket above pages bucket.freelist higher)
first_or_split-Gives order num_pages pages bucket above list lists [] higher e v h linked g =
    let head : bucket.freelist ≡ none = subst (Chain pages none bucket.freelist) e linked.1 in
    subst
      (λ o.
        Gives order num_pages pages (list ∷ lists)
          (first_or_split order bucket above pages o higher))
      (sym head)
      (split_higher-Gives order num_pages pages bucket above list lists higher e v h linked g)
first_or_split-Gives order num_pages pages bucket above list lists (block ∷ rest) higher e v h
      linked g =
    let chain = subst (Chain pages none bucket.freelist) e linked.1 in
    subst
      (λ o.
        Gives order num_pages pages (list ∷ lists)
          (first_or_split order bucket above pages o higher))
      (sym chain.0)
      (inr (
        block,
        record (with_bit order block false list) { freelist = rest } ∷ lists,
        take_block-Taken order num_pages block rest list lists v h e,
        take_first-Refines order num_pages block rest pages bucket above list lists linked e
            (head-bit order num_pages block rest list v.0 e) h,
      ))

pub alloc_block_internal-Gives :
    (order num_pages : ℕ) (pages : Pages) (orders : List BuddyOrder) (lists : List ListedOrder)
    → Levels order num_pages lists
    → Bounded order num_pages lists
    → AllLinked pages orders lists
    → Gives order num_pages pages lists (alloc_block_internal order pages orders)
unfolding alloc_block_internal
alloc_block_internal-Gives order num_pages pages [] [] v h linked = inl (tt, refl)
alloc_block_internal-Gives order num_pages pages [] (list ∷ lists) v h linked = absurd linked
alloc_block_internal-Gives order num_pages pages (bucket ∷ above) [] v h linked = absurd linked
alloc_block_internal-Gives order num_pages pages (bucket ∷ above) (list ∷ lists) v h linked =
    first_or_split-Gives order num_pages pages bucket above list lists list.freelist
      (alloc_block_internal (suc order) pages above) refl v h linked
      (alloc_block_internal-Gives (suc order) num_pages pages above lists v.1
        (Bounded-above order num_pages list lists h) linked.2)
