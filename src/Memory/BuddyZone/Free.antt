-- ===== src/Memory/BuddyZone/Free.antt =====
-- Freeing of the buddy allocator over lists (kernel/memory/BuddyZone.cpp).
use duck_os.Prelude.{
  ℕ, suc, ◌+◌, ◌≤◌, ◌<◌, ◌≡◌, ◌⊎◌, refl, sym, ap, subst, ◌∙◌, inl, inr, arith, Bool-cases, true,
  false, ◌==◌, List, [], ◌∷◌, length,
}
use duck_os.Memory.BuddyZone.{size_of_order, bit_index}
use duck_os.Memory.BuddyZone.Listed.{ListedOrder, bit_of, with_bit, remove, buddy_of}
use duck_os.Memory.BuddyZone.Blocks.{
  Aligned, first_at, size_of_order-pos, bit_index-first, bit_index-second, bit_index-less,
  Aligned-cases, lower-Aligned, upper-Aligned,
}
use duck_os.Memory.BuddyZone.Counts.{
  one_of_pair, other_pair, hit, hits, cover, inside, one_if, count, hit-split, hit_self, hits-count,
  hits-remove, count-remove, Level, Levels, with_bit-Level,
}
use duck_os.Memory.BuddyZone.Alloc.{inside-less}

-- The zone has room for a block beside those that are free.
abbrev pub RoomFor : ℕ → ℕ → List ListedOrder → ℕ → Type 0
RoomFor order pages orders block =
    (page : ℕ) → cover order orders page + hit (size_of_order order) block page ≤ inside pages page

pub inside-le : (pages page : ℕ) → inside pages page ≤ 1
unfolding inside
inside-le pages page = ground arith

RoomFor-block :
    (order pages block : ℕ) (orders : List ListedOrder)
    → RoomFor order pages orders block
    → block < pages
RoomFor-block order pages block orders h =
    inside-less pages block
      (omega (arith, h block, hit_self (size_of_order order) block (size_of_order-pos order)))

-- The block itself is not in its freelist.
pub RoomFor-count :
    (order pages block : ℕ) (bucket : ListedOrder) (above : List ListedOrder)
    → RoomFor order pages (bucket ∷ above) block
    → count bucket.freelist block ≡ 0
unfolding cover
RoomFor-count order pages block bucket above h = omega (
  arith,
  h block,
  hit_self (size_of_order order) block (size_of_order-pos order),
  hits-count (size_of_order order) bucket.freelist block (size_of_order-pos order),
  inside-le pages block,
)

-- The block's first page is in no free block.
pub RoomFor-cover :
    (order pages block : ℕ) (orders : List ListedOrder)
    → RoomFor order pages orders block
    → cover order orders block ≡ 0
RoomFor-cover order pages block orders h = omega (
  arith,
  h block,
  hit_self (size_of_order order) block (size_of_order-pos order),
  inside-le pages block,
)

-- A block and its buddy.
pub record Mates (order block mate : ℕ) : Type 0 where
  pub mate_aligned : Aligned order mate
  pub same_bit : bit_index order mate ≡ bit_index order block
  pub joined :
      (page : ℕ)
      → hit (size_of_order (suc order)) (first_at order (bit_index order block)) page
        ≡ hit (size_of_order order) block page + hit (size_of_order order) mate page
  pub both :
      (list : List ℕ)
      → count list (first_at order (bit_index order block))
          + count list (first_at order (bit_index order block) + size_of_order order)
        ≡ count list block + count list mate
  pub one_upper : (size_of_order order ≤ block) ⊎ (size_of_order order ≤ mate)

pub buddy_of-Mates :
    (order block : ℕ)
    → Aligned order block
    → Mates order block (buddy_of order block (first_at order (bit_index order block)))
buddy_of-Mates order block v =
    let i : ℕ = bit_index order block in
    let first : ℕ = first_at order i in
    elim (Aligned-cases order block v) [
      | inl e ↦
          let test : (block == first) ≡ true = ground (arith, e) in
          rw test (record {
            mate_aligned = upper-Aligned order i;
            same_bit = bit_index-second order i;
            joined = λ page.
                hit-split order first page
                ∙ ap
                    (λ b.
                      hit (size_of_order order) b page
                      + hit (size_of_order order) (first + size_of_order order) page)
                    (sym e);
            both =
                λ list. ap (λ b. count list b + count list (first + size_of_order order)) (sym e);
            one_upper = inr (omega arith);
          })
      | inr e ↦
          let test : (block == first) ≡ false = ground (arith, e, size_of_order-pos order) in
          rw test (record {
            mate_aligned = lower-Aligned order i;
            same_bit = bit_index-first order i;
            joined = λ page.
                omega
                  (arith, hit-split order first page, ap (λ b. hit (size_of_order order) b page) e);
            both = λ list. omega (arith, ap (count list) e);
            one_upper = inl (omega (arith, e));
          })
    ]

push-Level :
    (order pages block : ℕ) (bucket : ListedOrder)
    → Level order pages bucket
    → bit_of order block bucket ≡ false
    → Aligned order block
    → block < pages
    → Level order pages
        (record (with_bit order block true bucket) { freelist = block ∷ bucket.freelist })
unfolding count
push-Level order pages block bucket v f a h =
    with_bit-Level order pages block true (block ∷ bucket.freelist) bucket v
      (bit_index-less order pages (length bucket.block_map) block a h v.room)
      (λ y c. elim (Bool-cases (block == y)) [
        | inl e ↦ subst (Aligned order) (ground (arith, e)) a
        | inr e ↦ v.aligned y (ground (arith, c, e))
      ])
      (omega (arith, v.bits (bit_index order block), ap one_if f, one_of_pair order block a))
      (λ y other. omega (arith, other_pair order block y other))

-- A set bit and a block that is not free: its buddy is.
pub mate-count :
    (order pages block mate : ℕ) (bucket : ListedOrder)
    → Level order pages bucket
    → Mates order block mate
    → bit_of order block bucket ≡ true
    → count bucket.freelist block ≡ 0
    → count bucket.freelist mate ≡ 1
mate-count order pages block mate bucket v m t z =
    omega (arith, v.bits (bit_index order block), ap one_if t, m.both bucket.freelist)

merge-Level :
    (order pages block mate : ℕ) (bucket : ListedOrder)
    → Level order pages bucket
    → Mates order block mate
    → bit_of order block bucket ≡ true
    → Aligned order block
    → block < pages
    → count bucket.freelist mate ≡ 1
    → Level order pages
        (record (with_bit order block false bucket) { freelist = remove mate bucket.freelist })
merge-Level order pages block mate bucket v m t a h c =
    let i : ℕ = bit_index order block in
    let list : List ℕ = remove mate bucket.freelist in
    let counts : (y : ℕ) → count bucket.freelist y ≡ one_if (mate == y) + count list y =
      λ y. count-remove bucket.freelist mate y (omega (arith, c)) in
    let one : one_if (mate == first_at order i)
          + one_if (mate == first_at order i + size_of_order order)
        ≡ 1 =
      subst
        (λ j.
          one_if (mate == first_at order j)
            + one_if (mate == first_at order j + size_of_order order)
          ≡ 1)
        m.same_bit (one_of_pair order mate m.mate_aligned) in
    with_bit-Level order pages block false list bucket v
      (bit_index-less order pages (length bucket.block_map) block a h v.room)
      (λ y d. v.aligned y (omega (arith, counts y)))
      (omega (
        arith,
        counts (first_at order i),
        counts (first_at order i + size_of_order order),
        one,
        v.bits i,
        ap one_if t,
      ))
      (λ y other. omega (arith, counts y, other_pair order mate y (λ e. other (e ∙ m.same_bit))))

-- What a block that comes back leaves of the orders.
pub record Freed (order pages : ℕ) (before : List ListedOrder) (block : ℕ)
    (after : List ListedOrder) : Type 0 where
  pub covered :
      (page : ℕ)
      → cover order after page ≡ cover order before page + hit (size_of_order order) block page
  pub kept : Levels order pages after
  pub same_length : length after ≡ length before

pub push-Freed :
    (order pages block : ℕ) (bucket : ListedOrder) (above : List ListedOrder)
    → Levels order pages (bucket ∷ above)
    → Aligned order block
    → RoomFor order pages (bucket ∷ above) block
    → bit_of order block bucket ≡ false
    → Freed order pages
        (bucket ∷ above)
        block
        (record (with_bit order block true bucket) { freelist = block ∷ bucket.freelist } ∷ above)
unfolding cover hits
push-Freed order pages block bucket above v a h f = record {
  covered = λ page. omega arith;
  kept = (
    push-Level order pages block bucket v.0 f a
        (RoomFor-block order pages block (bucket ∷ above) h),
    v.1,
  );
  same_length = refl;
}

-- With the buddy's place, there is room for both in the next order.
pub merge-RoomFor :
    (order pages block mate : ℕ) (bucket : ListedOrder) (above : List ListedOrder)
    → RoomFor order pages (bucket ∷ above) block
    → Mates order block mate
    → count bucket.freelist mate ≡ 1
    → RoomFor (suc order) pages above (first_at order (bit_index order block))
unfolding cover
merge-RoomFor order pages block mate bucket above h m c page = omega (
  arith,
  h page,
  m.joined page,
  hits-remove (size_of_order order) bucket.freelist mate page (omega (arith, c)),
)

pub merge-Freed :
    (order pages block mate : ℕ) (bucket : ListedOrder) (above after : List ListedOrder)
    → Levels order pages (bucket ∷ above)
    → Aligned order block
    → RoomFor order pages (bucket ∷ above) block
    → bit_of order block bucket ≡ true
    → Mates order block mate
    → count bucket.freelist mate ≡ 1
    → Freed (suc order) pages above (first_at order (bit_index order block)) after
    → Freed order pages (bucket ∷ above) block (
        record (with_bit order block false bucket) { freelist = remove mate bucket.freelist }
        ∷ after)
unfolding cover
merge-Freed order pages block mate bucket above after v a h t m c freed = record {
  covered = λ page. omega (
    arith,
    freed.covered page,
    m.joined page,
    hits-remove (size_of_order order) bucket.freelist mate page (omega (arith, c)),
  );
  kept = (
    merge-Level order pages block mate bucket v.0 m t a
        (RoomFor-block order pages block (bucket ∷ above) h) c,
    freed.kept,
  );
  same_length = ap suc freed.same_length;
}

-- The highest order has no two buddies.
pub top-bit_of :
    (order pages block : ℕ) (bucket : ListedOrder)
    → pages ≡ size_of_order order
    → Level order pages bucket
    → Aligned order block
    → RoomFor order pages (bucket ∷ []) block
    → bit_of order block bucket ≡ false
unfolding cover
top-bit_of order pages block bucket n v a h = elim (Bool-cases (bit_of order block bucket)) [
  | inr f ↦ f
  | inl t ↦
      let mate : ℕ = buddy_of order block (first_at order (bit_index order block)) in
      let m = buddy_of-Mates order block a in
      let c =
        mate-count order pages block mate bucket v m t
          (RoomFor-count order pages block bucket [] h) in
      let mate_small : mate < pages = inside-less pages mate (
        omega (
          arith,
          c,
          h mate,
          hits-count (size_of_order order) bucket.freelist mate (size_of_order-pos order),
        )) in
      absurd (omega (arith, m.one_upper, RoomFor-block order pages block (bucket ∷ []) h))
]
