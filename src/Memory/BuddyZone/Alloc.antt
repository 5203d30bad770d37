-- ===== src/Memory/BuddyZone/Alloc.antt =====
-- Allocation of the buddy allocator over lists (kernel/memory/BuddyZone.cpp).
use duck_os.Prelude.{
  ℕ, suc, ◌+◌, ◌≤◌, ◌<◌, ◌≡◌, refl, sym, ap, subst, ◌∙◌, inl, inr, arith, Bool-cases, true, false,
  ◌==◌, List, [], ◌∷◌, length,
}
use duck_os.Memory.BuddyZone.{size_of_order, bit_index}
use duck_os.Memory.BuddyZone.Listed.{ListedOrder, bit_of, with_bit, split_block}
use duck_os.Memory.BuddyZone.Blocks.{
  Aligned, first_at, size_of_order-pos, bit_index-second, bit_index-less, Aligned-cases,
  Aligned-suc, lower-Aligned, upper-Aligned,
}
use duck_os.Memory.BuddyZone.Counts.{
  one_of_pair, other_pair, hit, hits, cover, inside, one_if, count, hit-split, hit_self, hits-count,
  Level, Levels, with_bit-Level,
}

-- No block of an order, or of a higher one, is free.
abbrev pub AllEmpty : List ListedOrder → Type 0
AllEmpty [] = Unit {0}
AllEmpty (bucket ∷ above) = (bucket.freelist ≡ []) × AllEmpty above

-- What the order that gives a block keeps, and what it loses.
pub record Taken (order pages : ℕ) (before : List ListedOrder) (block : ℕ)
    (after : List ListedOrder) : Type 0 where
  pub block_aligned : Aligned order block
  pub covered :
      (page : ℕ)
      → cover order before page ≡ hit (size_of_order order) block page + cover order after page
  pub kept : Levels order pages after
  pub same_length : length after ≡ length before

abbrev pub Bounded : ℕ → ℕ → List ListedOrder → Type 0
Bounded order pages orders = (page : ℕ) → cover order orders page ≤ inside pages page

pub inside-less : (pages page : ℕ) → 0 < inside pages page → page < pages
unfolding inside
inside-less pages page h = ground arith

pub inside-outside : (pages page : ℕ) → pages ≤ page → inside pages page ≡ 0
unfolding inside
inside-outside pages page h = ground arith

count-head : (x : ℕ) (xs : List ℕ) → 0 < count (x ∷ xs) x
unfolding count
count-head x xs = ground arith

Bounded-block :
    (order pages x : ℕ) (bucket : ListedOrder) (above : List ListedOrder)
    → Bounded order pages (bucket ∷ above)
    → 0 < count bucket.freelist x
    → x < pages
unfolding cover
Bounded-block order pages x bucket above h c = inside-less pages x (
    omega
      (arith, h x, hits-count (size_of_order order) bucket.freelist x (size_of_order-pos order)))

pub Bounded-above :
    (order pages : ℕ) (bucket : ListedOrder) (above : List ListedOrder)
    → Bounded order pages (bucket ∷ above)
    → Bounded (suc order) pages above
unfolding cover
Bounded-above order pages bucket above h page = omega (arith, h page)

-- The bit of the head of a freelist is set, so the assertion holds.
pub head-bit :
    (order pages block : ℕ) (rest : List ℕ) (bucket : ListedOrder)
    → Level order pages bucket
    → bucket.freelist ≡ block ∷ rest
    → bit_of order block bucket ≡ true
head-bit order pages block rest bucket v e =
    let present : 0 < count bucket.freelist block = rw e (count-head block rest) in
    let pair = v.bits (bit_index order block) in
    elim (Bool-cases (bit_of order block bucket)) [
      | inl t ↦ t
      | inr f ↦ elim (Aligned-cases order block (v.aligned block present)) [
        | inl first ↦
            let at : count bucket.freelist block
                ≡ count bucket.freelist (first_at order (bit_index order block)) =
              ap (count bucket.freelist) first in
            absurd (omega (arith, ap one_if f))
        | inr second ↦
            let at : count bucket.freelist block
                ≡ count bucket.freelist
                    (first_at order (bit_index order block) + size_of_order order) =
              ap (count bucket.freelist) second in
            absurd (omega (arith, ap one_if f))
      ]
    ]

take-Level :
    (order pages block : ℕ) (rest : List ℕ) (bucket : ListedOrder)
    → Level order pages bucket
    → bucket.freelist ≡ block ∷ rest
    → block < pages
    → Level order pages (record (with_bit order block false bucket) { freelist = rest })
unfolding count
take-Level order pages block rest bucket v e h =
    let counts : (y : ℕ) → count bucket.freelist y ≡ one_if (block == y) + count rest y =
      λ y. ap (λ l. count l y) e in
    let block_aligned = v.aligned block (omega (arith, counts block, count-head block rest)) in
    let pair = v.bits (bit_index order block) in
    with_bit-Level order pages block false rest bucket v
      (bit_index-less order pages (length bucket.block_map) block block_aligned h v.room)
      (λ y c. v.aligned y (omega (arith, counts y)))
      (omega (
        arith,
        counts (first_at order (bit_index order block)),
        counts (first_at order (bit_index order block) + size_of_order order),
        one_of_pair order block block_aligned,
        ap one_if (head-bit order pages block rest bucket v e),
      ))
      (λ y other. omega (arith, counts y, other_pair order block y other))

split-Level :
    (order pages block : ℕ) (bucket : ListedOrder)
    → Level order pages bucket
    → bucket.freelist ≡ []
    → Aligned (suc order) block
    → block < pages
    → Level order pages (record (with_bit order block true bucket) {
      freelist = (block + size_of_order order) ∷ [];
    })
unfolding count
split-Level order pages block bucket v e a h =
    let i : ℕ = bit_index order block in
    let first : block ≡ first_at order i = Aligned-suc order block a in
    let second : block + size_of_order order ≡ first_at order i + size_of_order order =
      ap (λ b. b + size_of_order order) first in
    let upper : Aligned order (block + size_of_order order) =
      subst (Aligned order) (sym second) (upper-Aligned order i) in
    let same_bit : bit_index order (block + size_of_order order) ≡ i =
      ap (bit_index order) second ∙ bit_index-second order i in
    let lower : Aligned order block = subst (Aligned order) (sym first) (lower-Aligned order i) in
    with_bit-Level order pages block true ((block + size_of_order order) ∷ []) bucket v
      (bit_index-less order pages (length bucket.block_map) block lower h v.room)
      (λ y c. subst (Aligned order) (ground (arith, c)) upper)
      (ground (arith, second, size_of_order-pos order))
      (λ y other.
        ap (λ n. n + 0)
          (other_pair order (block + size_of_order order) y (λ same. other (same ∙ same_bit)))
        ∙ ap (λ l. count l y) (sym e))

pub split_block-Taken :
    (order pages block : ℕ) (bucket : ListedOrder) (above after : List ListedOrder)
    → Levels order pages (bucket ∷ above)
    → Bounded order pages (bucket ∷ above)
    → bucket.freelist ≡ []
    → Taken (suc order) pages above block after
    → Taken order pages (bucket ∷ above) block (split_block order bucket (block, after)).1
unfolding cover hits
split_block-Taken order pages block bucket above after v h e t =
    let none_here : (page : ℕ) → hits (size_of_order order) bucket.freelist page ≡ 0 =
      λ page. ap (λ l. hits (size_of_order order) l page) e in
    let small : block < pages = inside-less pages block (
      omega (
        arith,
        h block,
        t.covered block,
        hit_self (size_of_order (suc order)) block (size_of_order-pos (suc order)),
      )) in
    let lower : Aligned order block =
      subst (Aligned order) (sym (Aligned-suc order block t.block_aligned))
        (lower-Aligned order (bit_index order block)) in
    record {
      block_aligned = lower;
      covered = λ page. omega (arith, none_here page, t.covered page, hit-split order block page);
      kept = (split-Level order pages block bucket v.0 e t.block_aligned small, t.kept);
      same_length = ap suc t.same_length;
    }

pub take_block-Taken :
    (order pages block : ℕ) (rest : List ℕ) (bucket : ListedOrder) (above : List ListedOrder)
    → Levels order pages (bucket ∷ above)
    → Bounded order pages (bucket ∷ above)
    → bucket.freelist ≡ block ∷ rest
    → Taken order pages
        (bucket ∷ above)
        block
        (record (with_bit order block false bucket) { freelist = rest } ∷ above)
unfolding cover hits
take_block-Taken order pages block rest bucket above v h e =
    let present : 0 < count bucket.freelist block = rw e (count-head block rest) in
    record {
      block_aligned = v.0.aligned block present;
      covered = λ page. omega (arith, ap (λ l. hits (size_of_order order) l page) e);
      kept = (
        take-Level order pages block rest bucket v.0 e
            (Bounded-block order pages block bucket above h present),
        v.1,
      );
      same_length = refl;
    }
