-- ===== src/Memory/BuddyZone/Release.antt =====
-- `free_block_internal` of kernel/memory/BuddyZone.cpp: a block comes back to the linked lists.
use duck_os.Prelude.{
  ℕ, suc, ◌+◌, ◌≤◌, ◌<◌, ◌≡◌, ◌≢◌, refl, sym, ap, subst, ◌∙◌, inl, inr, arith, Bool-cases, true,
  false, if◌then◌else◌, Option, none, some, List, [], ◌∷◌, length, set,
}
use duck_os.Prelude.Outcome.{Outcome, ok, ◌>>=◌}
use duck_os.Memory.BuddyZone.{
  size_of_order, bit_index, bit_at, BuddyOrder, get_bit, set_bit, PageLinks, Pages, put_block,
  set_prev, is_none, push_front, free_block_internal,
}
use duck_os.Memory.BuddyZone.Listed.{ListedOrder, bit_of, with_bit, remove, buddy_of}
use duck_os.Memory.BuddyZone.Blocks.{Aligned, first_at, first-Aligned, size_of_order-pos}
use duck_os.Memory.BuddyZone.Counts.{
  hit, hits, cover, count, hit_self, hits-count, hits-remove, Levels,
}
use duck_os.Memory.BuddyZone.Alloc.{Bounded}
use duck_os.Memory.BuddyZone.Free.{
  inside-le, RoomFor, RoomFor-cover, RoomFor-count, buddy_of-Mates, mate-count, Freed, push-Freed,
  merge-RoomFor, merge-Freed, top-bit_of,
}
use duck_os.Memory.BuddyZone.Links.{
  Chain, Chain-frame, AllLinked, AllLinked-frame, Chain-set_prev, set_prev-outside, put_block-other,
  put_block_self, some-injective,
}
use duck_os.Memory.BuddyZone.Unlink.{remove_from_freelist-Chain}
use duck_os.Memory.BuddyZone.Refine.{Bounded-once}

RoomFor-Bounded :
    (order pages block : ℕ) (lists : List ListedOrder)
    → RoomFor order pages lists block
    → Bounded order pages lists
RoomFor-Bounded order pages block lists h page = omega (arith, h page)

-- A result that has taken a block back, with the pages that it may change.
abbrev pub TakesBack :
    ℕ → ℕ → Pages → List ListedOrder → ℕ → Outcome (List BuddyOrder × Pages) → Type 0
TakesBack order num_pages pages lists block result =
    (after : List ListedOrder) × (orders : List BuddyOrder) × (pages' : Pages) × (result
      ≡ ok (orders, pages'))
    × Freed order num_pages lists block after
    × AllLinked pages' orders after
    × ((y : ℕ)
        → cover order lists y + hit (size_of_order order) block y ≡ 0
        → pages'.at y ≡ pages.at y)

abbrev linked_behind : ℕ → Option ℕ → Pages → Pages
linked_behind block head pages = if is_none head then pages else set_prev head (some block) pages

linked_behind-Chain :
    (block : ℕ) (head : Option ℕ) (pages : Pages) (xs : List ℕ)
    → Chain pages none head xs
    → ((y : ℕ) → count xs y ≤ 1)
    → Chain (linked_behind block head pages) (some block) head xs
linked_behind-Chain block head pages [] v once = v
linked_behind-Chain block head pages (x ∷ xs) v once =
    subst (λ o. Chain (linked_behind block o pages) (some block) head (x ∷ xs)) (sym v.0)
      (subst (λ o. Chain (set_prev o (some block) pages) (some block) head (x ∷ xs)) v.0
        (Chain-set_prev pages none (some block) head (x ∷ xs) once v))

linked_behind-outside :
    (block : ℕ) (head : Option ℕ) (pages : Pages) (xs : List ℕ) (y : ℕ)
    → Chain pages none head xs
    → count xs y ≡ 0
    → (linked_behind block head pages).at y ≡ pages.at y
linked_behind-outside block none pages xs y v z = refl
linked_behind-outside block (some x) pages xs y v z =
    set_prev-outside pages none (some block) (some x) xs y v z

push_front-TakesBack :
    (order num_pages block : ℕ) (pages : Pages) (bucket : BuddyOrder) (above : List BuddyOrder)
    (list : ListedOrder) (lists : List ListedOrder)
    → Levels order num_pages (list ∷ lists)
    → Aligned order block
    → RoomFor order num_pages (list ∷ lists) block
    → AllLinked pages (bucket ∷ above) (list ∷ lists)
    → bit_of order block list ≡ false
    → TakesBack order num_pages pages
        (list ∷ lists)
        block
        (ok (push_front order block bucket above pages))
unfolding cover count
push_front-TakesBack order num_pages block pages bucket above list lists v a h linked f =
    let behind : Pages = linked_behind block bucket.freelist pages in
    let links : PageLinks = record { next = bucket.freelist; prev = none } in
    let after : Pages = put_block (some block) links behind in
    let here : after.at block ≡ links = put_block_self block links behind in
    let once =
      Bounded-once order num_pages list lists
        (RoomFor-Bounded order num_pages block (list ∷ lists) h) in
    let apart : count list.freelist block ≡ 0 = RoomFor-count order num_pages block list lists h in
    let elsewhere : (y : ℕ) → block ≢ y → after.at y ≡ behind.at y =
      λ y ne. put_block-other (some block) links behind y (λ e. ne (some-injective e)) in
    let kept : (y : ℕ) → block ≢ y → count list.freelist y ≡ 0 → after.at y ≡ pages.at y = λ y ne z.
      elsewhere y ne
      ∙ linked_behind-outside block bucket.freelist pages list.freelist y linked.1 z in
    let chain : Chain behind (some block) bucket.freelist list.freelist =
      linked_behind-Chain block bucket.freelist pages list.freelist linked.1
        (λ y. omega (arith, once y)) in
    let hit_here = hit_self (size_of_order order) block (size_of_order-pos order) in
    (
      record (with_bit order block true list) { freelist = block ∷ list.freelist } ∷ lists,
      record (set_bit order block true bucket) { freelist = some block } ∷ above,
      after,
      refl,
      push-Freed order num_pages block list lists v a h f,
      (
        ap (λ bits. set bits (bit_index order block) true) linked.0,
        (
          refl,
          ap (λ (l : PageLinks). l.prev) here,
          subst (λ (l : PageLinks). Chain after (some block) l.next list.freelist) (sym here)
              (Chain-frame behind after (some block) bucket.freelist list.freelist
                (λ y c. elsewhere y (λ e. absurd (omega (arith, ap (count list.freelist) e))))
                chain),
        ),
        AllLinked-frame (suc order) pages after above lists
            (λ y c.
              kept y
                (λ e. absurd (
                  omega (
                    arith,
                    ap (cover (suc order) lists) e,
                    RoomFor-cover order num_pages block (list ∷ lists) h,
                  )))
                (omega (arith, once y)))
            linked.2,
      ),
      λ y z.
          kept y (λ e. absurd (omega (arith, ap (hit (size_of_order order) block) e, hit_here, z)))
            (omega (
              arith,
              z,
              hits-count (size_of_order order) list.freelist y (size_of_order-pos order),
            )),
    )

merge-TakesBack :
    (order num_pages block : ℕ) (pages left : Pages) (head : Option ℕ) (bucket : BuddyOrder)
    (list : ListedOrder) (lists : List ListedOrder) (higher : Outcome (List BuddyOrder × Pages))
    → let first = first_at order (bit_index order block) in
      let mate = buddy_of order block first in
      Levels order num_pages (list ∷ lists)
      → Aligned order block
      → RoomFor order num_pages (list ∷ lists) block
      → bucket.block_map ≡ list.block_map
      → bit_of order block list ≡ true
      → count list.freelist mate ≡ 1
      → Chain left none head (remove mate list.freelist)
      → ((y : ℕ) → count list.freelist y ≡ 0 → left.at y ≡ pages.at y)
      → TakesBack (suc order) num_pages left lists first higher
      → TakesBack order num_pages pages (list ∷ lists) block (
          higher >>= λ above.
          ok (record (set_bit order block false bucket) { freelist = head } ∷ above.0, above.1))
unfolding cover
merge-TakesBack order num_pages block pages left head bucket list lists higher v a h map t c chain
      same (after, orders, pages', gives, freed, linked, outside) =
    let mate : ℕ = buddy_of order block (first_at order (bit_index order block)) in
    let m = buddy_of-Mates order block a in
    let removed : (y : ℕ)
        → hits (size_of_order order) list.freelist y
          ≡ hit (size_of_order order) mate y
            + hits (size_of_order order) (remove mate list.freelist) y =
      λ y. hits-remove (size_of_order order) list.freelist mate y (omega (arith, c)) in
    let here : (y : ℕ) → 0 < count (remove mate list.freelist) y → pages'.at y ≡ left.at y = λ y d.
      outside y (
        omega (
          arith,
          h y,
          removed y,
          m.joined y,
          hits-count (size_of_order order) (remove mate list.freelist) y (size_of_order-pos order),
          inside-le num_pages y,
        )) in
    (
      record (with_bit order block false list) { freelist = remove mate list.freelist } ∷ after,
      record (set_bit order block false bucket) { freelist = head } ∷ orders,
      pages',
      rw gives refl,
      merge-Freed order num_pages block mate list lists after v a h t m c freed,
      (
        ap (λ bits. set bits (bit_index order block) false) map,
        Chain-frame left pages' none head (remove mate list.freelist) here chain,
        linked,
      ),
      λ y z.
          outside y (omega (arith, z, removed y, m.joined y))
          ∙ same y (
              omega (
                arith,
                z,
                hits-count (size_of_order order) list.freelist y (size_of_order-pos order),
              )),
    )

-- `free_block_internal` takes back a block that lies in the zone beside the free ones, whether its buddies are
-- free or not, and leaves linked lists of the free blocks.
pub free_block_internal-TakesBack :
    (order num_pages block : ℕ) (pages : Pages) (bucket : BuddyOrder) (above : List BuddyOrder)
    (list : ListedOrder) (lists : List ListedOrder)
    → num_pages ≡ size_of_order (order + length lists)
    → Levels order num_pages (list ∷ lists)
    → Aligned order block
    → RoomFor order num_pages (list ∷ lists) block
    → AllLinked pages (bucket ∷ above) (list ∷ lists)
    → TakesBack order num_pages pages
        (list ∷ lists)
        block
        (free_block_internal order block pages (bucket ∷ above))
unfolding free_block_internal
free_block_internal-TakesBack order num_pages block pages bucket [] list [] n v a h linked =
    let top : num_pages ≡ size_of_order order = n ∙ ap size_of_order (omega arith) in
    let f : bit_of order block list ≡ false = top-bit_of order num_pages block list top v.0 a h in
    let bit : get_bit order block bucket ≡ false =
      ap (λ bits. bit_at bits (bit_index order block)) linked.0 ∙ f in
    rw bit (push_front-TakesBack order num_pages block pages bucket [] list [] v a h linked f)
free_block_internal-TakesBack order num_pages block pages bucket [] list (next ∷ lists) n v a h
      linked =
    absurd linked.2
free_block_internal-TakesBack order num_pages block pages bucket (higher ∷ above) list [] n v a h
      linked =
    absurd linked.2
free_block_internal-TakesBack order num_pages block pages bucket (higher ∷ above) list
      (next ∷ lists) n v a h linked =
    let same_bit : get_bit order block bucket ≡ bit_of order block list =
      ap (λ bits. bit_at bits (bit_index order block)) linked.0 in
    elim (Bool-cases (bit_of order block list)) [
      | inr f ↦
          let bit : get_bit order block bucket ≡ false = same_bit ∙ f in
          rw bit (
            push_front-TakesBack order num_pages block pages bucket (higher ∷ above) list
              (next ∷ lists) v a h linked f)
      | inl t ↦
          let bit : get_bit order block bucket ≡ true = same_bit ∙ t in
          let first : ℕ = first_at order (bit_index order block) in
          let mate : ℕ = buddy_of order block first in
          let m = buddy_of-Mates order block a in
          let c =
            mate-count order num_pages block mate list v.0 m t
              (RoomFor-count order num_pages block list (next ∷ lists) h) in
          let once =
            Bounded-once order num_pages list (next ∷ lists)
              (RoomFor-Bounded order num_pages block (list ∷ next ∷ lists) h) in
          let (head, left, removes, chain, same) =
            remove_from_freelist-Chain pages bucket.freelist list.freelist mate linked.1
              (λ y. omega (arith, once y)) (omega (arith, c)) in
          let above_linked : AllLinked left (higher ∷ above) (next ∷ lists) =
            AllLinked-frame (suc order) pages left (higher ∷ above) (next ∷ lists)
              (λ y d. same y (omega (arith, once y))) linked.2 in
          let back =
            free_block_internal-TakesBack (suc order) num_pages first left higher above next lists
              (n ∙ ap size_of_order (omega arith)) v.1 (first-Aligned order (bit_index order block))
              (merge-RoomFor order num_pages block mate list (next ∷ lists) h m c) above_linked in
          rw (bit, removes)
            (merge-TakesBack order num_pages block pages left head bucket list (next ∷ lists)
              (free_block_internal (suc order) first left (higher ∷ above)) v a h linked.0 t c chain
              same back)
    ]
