-- ===== src/Memory/BuddyZone/Start.antt =====
-- The zone that the constructor of kernel/memory/BuddyZone.cpp makes.
use duck_os.Prelude.{
  ℕ, zero, suc, ◌+◌, ◌*◌, ◌/◌, ◌^◌, ◌≤◌, ◌<◌, ◌≡◌, refl, sym, ap, subst, ◌∙◌, arith, true, false,
  Bool, none, List, [], ◌∷◌, length, replicate, length-replicate,
}
use native.Mathlib.Nat.{two-pow-succ, mul-div_cancel, mul-le-mul_right, mul_assoc}
use duck_os.Memory.BuddyZone.{size_of_order, bit_at, BuddyOrder, Pages, empty_orders, give_all}
use duck_os.Memory.BuddyZone.Listed.{ListedOrder, with_bit}
use duck_os.Memory.BuddyZone.Blocks.{Aligned, size_of_order-pos, size_of_order-suc, bit_index-less}
use duck_os.Memory.BuddyZone.Counts.{
  hit, hits, cover, count, one_of_pair, other_pair, Level, Levels, with_bit-Level,
}
use duck_os.Memory.BuddyZone.Links.{AllLinked}

abbrev empty_list : ℕ → ℕ → ListedOrder
empty_list order num_pages = record {
  block_map = replicate ((num_pages / size_of_order order + 1) / 2) false;
  freelist = [];
}

-- The free blocks of a new zone, from an order on.
unfoldable pub start_lists : ℕ → ℕ → ℕ → List ListedOrder
start_lists zero order num_pages =
    record (with_bit order 0 true (empty_list order num_pages)) { freelist = 0 ∷ [] } ∷ []
start_lists (suc above) order num_pages =
    empty_list order num_pages ∷ start_lists above (suc order) num_pages

pub length-start_lists :
    (above order num_pages : ℕ) → length (start_lists above order num_pages) ≡ suc above
unfolding start_lists
length-start_lists zero order num_pages = refl
length-start_lists (suc above) order num_pages =
    ap suc (length-start_lists above (suc order) num_pages)

give_all-cons :
    (above order num_pages : ℕ) (bucket : BuddyOrder)
    → give_all order (bucket ∷ empty_orders above (suc order) num_pages)
      ≡ bucket ∷ give_all (suc order) (empty_orders above (suc order) num_pages)
unfolding give_all empty_orders
give_all-cons zero order num_pages bucket = refl
give_all-cons (suc above) order num_pages bucket = refl

pub start-AllLinked :
    (above order num_pages : ℕ) (pages : Pages)
    → (pages.at 0).next ≡ none
    → (pages.at 0).prev ≡ none
    → AllLinked pages
        (give_all order (empty_orders above order num_pages))
        (start_lists above order num_pages)
unfolding give_all empty_orders start_lists
start-AllLinked zero order num_pages pages n p = (refl, (refl, p, n), tt)
start-AllLinked (suc above) order num_pages pages n p =
    subst (λ orders. AllLinked pages orders (start_lists (suc above) order num_pages))
      (sym (
        give_all-cons above order num_pages (record {
          block_map = replicate ((num_pages / size_of_order order + 1) / 2) false;
          freelist = none;
        })))
      (refl, refl, start-AllLinked above (suc order) num_pages pages n p)

pub cover-start_lists :
    (above order num_pages page : ℕ)
    → cover order (start_lists above order num_pages) page
      ≡ hit (size_of_order (order + above)) 0 page
unfolding cover hits start_lists
cover-start_lists zero order num_pages page =
    let same : order + 0 ≡ order = omega arith in rw same (omega arith)
cover-start_lists (suc above) order num_pages page =
    let same : suc order + above ≡ order + suc above = omega arith in
    omega (
      arith,
      cover-start_lists above (suc order) num_pages page,
      ap (λ o. hit (size_of_order o) 0 page) same,
    )

bit_at-replicate : (n i : ℕ) → bit_at (replicate n false) i ≡ false
unfolding bit_at
bit_at-replicate zero i = refl
bit_at-replicate (suc n) zero = refl
bit_at-replicate (suc n) (suc i) = bit_at-replicate n i

size_of_order-add :
    (above order : ℕ) → size_of_order (order + above) ≡ 2 ^ above * size_of_order order
size_of_order-add zero order = ap size_of_order (omega arith) ∙ one_times (size_of_order order)
  where
    one_times : (n : ℕ) → n ≡ 1 * n
    one_times n = omega arith
size_of_order-add (suc above) order =
    let same : order + suc above ≡ suc (order + above) = omega arith in
    ap size_of_order same
    ∙ size_of_order-suc (order + above)
    ∙ ap (λ n. n + n) (size_of_order-add above order)
    ∙ doubled (2 ^ above) (size_of_order order)
    ∙ ap (λ n. n * size_of_order order) (sym (two-pow-succ above))
  where
    doubled : (a b : ℕ) → a * b + a * b ≡ (a + a) * b
    doubled a b = omega arith

start-room :
    (above order num_pages : ℕ)
    → num_pages ≡ size_of_order (order + above)
    → num_pages
      ≤ length (replicate {A = Bool} ((num_pages / size_of_order order + 1) / 2) false)
        * size_of_order (suc order)
start-room above order num_pages e =
    let s : ℕ = size_of_order order in
    let q : ℕ = 2 ^ above in
    let whole : num_pages ≡ q * s = e ∙ size_of_order-add above order in
    let blocks : num_pages / s ≡ q =
      ap (λ n. n / s) whole ∙ mul-div_cancel q (size_of_order-pos order) in
    let bits : length (replicate {A = Bool} ((num_pages / s + 1) / 2) false) ≡ (q + 1) / 2 =
      length-replicate ((num_pages / s + 1) / 2) false ∙ ap (λ n. (n + 1) / 2) blocks in
    let pairs : q ≤ (q + 1) / 2 * 2 = omega arith in
    let enough : q * s ≤ (q + 1) / 2 * 2 * s = mul-le-mul_right s pairs in
    let spread : (q + 1) / 2 * 2 * s ≡ (q + 1) / 2 * (s + s) = twice ((q + 1) / 2) s in
    let size : size_of_order (suc order) ≡ s + s = size_of_order-suc order in
    subst (λ n. num_pages ≤ n * size_of_order (suc order)) (sym bits)
      (subst (λ t. num_pages ≤ (q + 1) / 2 * t) (sym size) (omega (arith, whole, enough, spread)))
  where
    twice : (a b : ℕ) → a * 2 * b ≡ a * (b + b)
    twice a b = mul_assoc a 2 b ∙ ap (λ x. a * x) (omega arith)

empty-Level :
    (above order num_pages : ℕ)
    → num_pages ≡ size_of_order (order + above)
    → Level order num_pages (empty_list order num_pages)
unfolding count
empty-Level above order num_pages e = record {
  aligned = λ y c. absurd (omega arith);
  bits = λ i. rw (bit_at-replicate ((num_pages / size_of_order order + 1) / 2) i) refl;
  room = start-room above order num_pages e;
}

pub start-Levels :
    (above order num_pages : ℕ)
    → num_pages ≡ size_of_order (order + above)
    → Levels order num_pages (start_lists above order num_pages)
unfolding start_lists count
start-Levels zero order num_pages e =
    let zone = empty-Level zero order num_pages e in
    let aligned : Aligned order 0 = (0, omega arith) in
    let some_pages : 0 < num_pages = omega (arith, e, size_of_order-pos (order + 0)) in
    (
      with_bit-Level order num_pages 0 true (0 ∷ []) (empty_list order num_pages) zone
          (bit_index-less order num_pages _ 0 aligned some_pages zone.room)
          (λ y c. subst (Aligned order) (ground (arith, c)) aligned)
          (omega (arith, one_of_pair order 0 aligned))
          (λ y other. omega (arith, other_pair order 0 y other)),
      tt,
    )
start-Levels (suc above) order num_pages e = (
  empty-Level (suc above) order num_pages e,
  start-Levels above (suc order) num_pages (e ∙ ap size_of_order (omega arith)),
)
