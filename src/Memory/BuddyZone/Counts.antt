-- ===== src/Memory/BuddyZone/Counts.antt =====
-- How often a page is covered by blocks (kernel/memory/BuddyZone.cpp).
use duck_os.Prelude.{
  ℕ, suc, ◌+◌, ◌-◌, ◌*◌, ◌≤◌, ◌<◌, ◌≡◌, ◌≢◌, refl, sym, ap, ◌∙◌, inl, inr, arith, Bool-cases, Bool,
  false, ◌&&◌, ltb, leb, ◌==◌, if◌then◌else◌, List, [], ◌∷◌, length, none, some, set, length-set,
  get_elem?-set_self, get_elem?-set_ne,
}
use native.Mathlib.Decide.{ℕ_discrete}
use duck_os.Memory.BuddyZone.{size_of_order, bit_index, bit_at}
use duck_os.Memory.BuddyZone.Listed.{ListedOrder, with_bit, remove}
use duck_os.Memory.BuddyZone.Blocks.{
  Aligned, first_at, size_of_order-suc, size_of_order-pos, bit_index-first, bit_index-second,
  Aligned-cases,
}

-- 1 for a page in a run of `size` pages from `block` on, and 0 for another.
unfoldable pub hit : ℕ → ℕ → ℕ → ℕ
hit size block page = if leb block page && ltb page (block + size) then 1 else 0

unfoldable pub hits : ℕ → List ℕ → ℕ → ℕ
unfolding hit
hits size [] page = 0
hits size (x ∷ xs) page = hit size x page + hits size xs page

-- How many free blocks cover a page, from an order on.
unfoldable pub cover : ℕ → List ListedOrder → ℕ → ℕ
unfolding hits
cover order [] page = 0
cover order (bucket ∷ above) page =
    hits (size_of_order order) bucket.freelist page + cover (suc order) above page

unfoldable pub inside : ℕ → ℕ → ℕ
inside pages page = if ltb page pages then 1 else 0

abbrev pub one_if : Bool → ℕ
one_if b = if b then 1 else 0

-- How often a block stands in a list.
unfoldable pub count : List ℕ → ℕ → ℕ
count [] y = 0
count (x ∷ xs) y = one_if (x == y) + count xs y

pub hit-split :
    (order block page : ℕ)
    → hit (size_of_order (suc order)) block page
      ≡ hit (size_of_order order) block page
        + hit (size_of_order order) (block + size_of_order order) page
unfolding hit
hit-split order block page = ground (arith, size_of_order-suc order)

pub hit-inside : (pages page : ℕ) → hit pages 0 page ≡ inside pages page
unfolding hit inside
hit-inside pages page = ground arith

pub hit-last : (size block : ℕ) → 0 < size → hit size block (block + size - 1) ≡ 1
unfolding hit
hit-last size block h = ground arith

pub hit_self : (size block : ℕ) → 0 < size → hit size block block ≡ 1
unfolding hit
hit_self size block h = ground arith

pub hit-second :
    (order block : ℕ) → hit (size_of_order (suc order)) block (block + size_of_order order) ≡ 1
unfolding hit
hit-second order block = ground (arith, size_of_order-suc order, size_of_order-pos order)

pub hits-count : (size : ℕ) (xs : List ℕ) (y : ℕ) → 0 < size → count xs y ≤ hits size xs y
unfolding hits count
hits-count size [] y h = omega arith
hits-count size (x ∷ xs) y h = elim (Bool-cases (x == y)) [
  | inl e ↦
      let same : x ≡ y = ground (arith, e) in
      rw (e, same) (omega (arith, hits-count size xs y h, hit_self size y h))
  | inr e ↦ rw e (omega (arith, hits-count size xs y h))
]

pub hits-remove :
    (size : ℕ) (xs : List ℕ) (y page : ℕ)
    → 0 < count xs y
    → hits size xs page ≡ hit size y page + hits size (remove y xs) page
unfolding hits count remove
hits-remove size [] y page h = absurd (omega arith)
hits-remove size (x ∷ xs) y page h = elim (Bool-cases (x == y)) [
  | inl e ↦ let same : x ≡ y = ground (arith, e) in rw (e, same) refl
  | inr e ↦
      let later : 0 < count xs y = ground (arith, e) in
      rw e (omega (arith, hits-remove size xs y page later))
]

pub count-remove :
    (xs : List ℕ) (y z : ℕ) → 0 < count xs y → count xs z ≡ one_if (y == z) + count (remove y xs) z
unfolding count remove
count-remove [] y z h = absurd (omega arith)
count-remove (x ∷ xs) y z h = elim (Bool-cases (x == y)) [
  | inl e ↦ let same : x ≡ y = ground (arith, e) in rw (e, same) refl
  | inr e ↦
      let later : 0 < count xs y = ground (arith, e) in
      rw e (omega (arith, count-remove xs y z later))
]

bit_at-set_self :
    (bits : List Bool) (i : ℕ) (b : Bool) → i < length bits → bit_at (set bits i b) i ≡ b
unfolding bit_at
bit_at-set_self bits i b h =
    ap (λ o. elim o [ none ↦ false | some x ↦ x ]) (get_elem?-set_self bits i b h)

bit_at-set_ne :
    (bits : List Bool) (i j : ℕ) (b : Bool) → i ≢ j → bit_at (set bits i b) j ≡ bit_at bits j
unfolding bit_at
bit_at-set_ne bits i j b h =
    ap (λ o. elim o [ none ↦ false | some x ↦ x ]) (get_elem?-set_ne bits i j b h)

-- The blocks of a freelist are blocks of its order; of two buddies one at most is free, and exactly one
-- where their bit is set; each pair that lies in the zone has a bit.
pub record Level (order pages : ℕ) (bucket : ListedOrder) : Type 0 where
  pub aligned : (y : ℕ) → 0 < count bucket.freelist y → Aligned order y
  pub bits :
      (i : ℕ)
      → count bucket.freelist (first_at order i)
          + count bucket.freelist (first_at order i + size_of_order order)
        ≡ one_if (bit_at bucket.block_map i)
  pub room : pages ≤ length bucket.block_map * size_of_order (suc order)

abbrev pub Levels : ℕ → ℕ → List ListedOrder → Type 0
Levels order pages [] = Unit {0}
Levels order pages (bucket ∷ above) = Level order pages bucket × Levels (suc order) pages above

-- A change of one pair.
pub with_bit-Level :
    (order pages block : ℕ) (val : Bool) (list : List ℕ) (bucket : ListedOrder)
    → Level order pages bucket
    → bit_index order block < length bucket.block_map
    → ((y : ℕ) → 0 < count list y → Aligned order y)
    → (count list (first_at order (bit_index order block))
          + count list (first_at order (bit_index order block) + size_of_order order)
        ≡ one_if val)
    → ((y : ℕ) → bit_index order y ≢ bit_index order block → count list y ≡ count bucket.freelist y)
    → Level order pages (record (with_bit order block val bucket) { freelist = list })
with_bit-Level order pages block val list bucket v h a pair others = record {
  aligned = a;
  bits = λ i. elim (ℕ_discrete i (bit_index order block)) [
    | yes e ↦ rw (e, bit_at-set_self bucket.block_map (bit_index order block) val h) pair
    | no ne ↦ omega (
      arith,
      v.bits i,
      ap one_if (bit_at-set_ne bucket.block_map (bit_index order block) i val (λ e. ne (sym e))),
      others (first_at order i) (λ e. ne (sym (bit_index-first order i) ∙ e)),
      others (first_at order i + size_of_order order)
          (λ e. ne (sym (bit_index-second order i) ∙ e)),
    )
  ];
  room = rw (length-set bucket.block_map (bit_index order block) val) v.room;
}

-- A block is one of the two of its pair.
pub one_of_pair :
    (order block : ℕ)
    → Aligned order block
    → let first = first_at order (bit_index order block) in
      one_if (block == first) + one_if (block == first + size_of_order order) ≡ 1
one_of_pair order block v = elim (Aligned-cases order block v) [
  | inl e ↦ ground (arith, e, size_of_order-pos order)
  | inr e ↦ ground (arith, e, size_of_order-pos order)
]

pub other_pair :
    (order block y : ℕ) → bit_index order y ≢ bit_index order block → one_if (block == y) ≡ 0
other_pair order block y h = elim (Bool-cases (block == y)) [
  | inl e ↦ let same : block ≡ y = ground (arith, e) in absurd (h (ap (bit_index order) (sym same)))
  | inr e ↦ rw e refl
]
