-- ===== src/Memory/BuddyZone.antt =====
-- kernel/memory/BuddyZone.h and BuddyZone.cpp: the buddy allocator of physical pages.
pub mod Listed
pub mod Blocks
pub mod Counts
pub mod Alloc
pub mod Free
pub mod Links
pub mod Neighbours
pub mod Rewired
pub mod Unlink
pub mod Refine
pub mod Release
pub mod Calls
pub mod Orders
pub mod Start
pub mod Tiles
pub mod Balance
pub mod Before
pub mod Single
pub mod Reach
mod Examples
use duck_os.Prelude.{
  ℕ, zero, suc, ◌+◌, ◌-◌, ◌*◌, ◌/◌, ◌^◌, Bool, true, false, not, ◌&&◌, ◌||◌, Option, none, some,
  List, [], ◌∷◌, length, get_elem?, set, replicate, ltb, leb, ◌==◌, if◌then◌else◌,
}
use duck_os.Prelude.Words.{add_size, sub_size}
use duck_os.Prelude.Outcome.{Outcome, ok, err, fault, Errno, enomem, ◌>>=◌, ◌>>◌, assert, require}

abbrev pub max_order : ℕ
max_order = 10

-- `1 << order`, of an order below 32; where a larger order can come up, `is_size` stands before it.
unfoldable pub size_of_order : ℕ → ℕ
size_of_order order = 2 ^ order

-- `size_of_order(order) == num_pages`, inside of an `ASSERT`. C++ gives `1 << order` no value from order 32
-- on, which `order_for` finds for more than 2^31 pages; such a run does not pass.
unfoldable pub is_size : ℕ → ℕ → Bool
unfolding size_of_order
is_size order num_pages = ltb order 32 && (size_of_order order == num_pages)

-- `sizeof(unsigned) * 8 - __builtin_clz(n) - 1`: the number of the highest bit, which is as often as `n`
-- can be halved, of `fuel` bits. For 0, of which `__builtin_clz` is undefined, it gives bit 0.
unfoldable pub highest_bit : ℕ → ℕ → ℕ
highest_bit zero n = 0
highest_bit (suc fuel) n = let rest = highest_bit fuel (n / 2) in if ltb n 2 then 0 else suc rest

unfoldable pub order_for : ℕ → ℕ
unfolding highest_bit
order_for num_pages =
    let bit : ℕ = highest_bit 32 num_pages in if num_pages - 2 ^ bit == 0 then bit else bit + 1

unfoldable pub bit_index : ℕ → ℕ → ℕ
bit_index order block = block / 2 ^ order / 2

-- A bit of a `Bitmap`. There is none past its end.
unfoldable pub bit_at : List Bool → ℕ → Bool
bit_at bits i = elim (get_elem? bits i) [ none ↦ false | some b ↦ b ]

-- An order of a zone: `block_map` has a bit for each pair of buddies, `true` for `BuddyState::MIXED`, and
-- `freelist` is the head of a linked list, `none` for -1.
pub record BuddyOrder : Type 0 where
  pub block_map : List Bool
  pub freelist : Option ℕ

abbrev pub get_bit : ℕ → ℕ → BuddyOrder → Bool
get_bit order block bucket = bit_at bucket.block_map (bit_index order block)

abbrev pub set_bit : ℕ → ℕ → Bool → BuddyOrder → BuddyOrder
set_bit order block val bucket = record bucket {
  block_map = set bucket.block_map (bit_index order block) val;
}

-- `free` of a `PhysicalPage`.
pub record PageLinks : Type 0 where
  pub next : Option ℕ
  pub prev : Option ℕ

-- The physical pages that a zone reaches: page `i` of the zone, and the page before the first, which
-- `get_block(-1)` is.
pub record Pages : Type 0 where
  pub at : ℕ → PageLinks
  pub before : PageLinks

unfoldable pub get_block : Option ℕ → Pages → PageLinks
get_block none pages = pages.before
get_block (some block) pages = pages.at block

unfoldable pub put_block : Option ℕ → PageLinks → Pages → Pages
put_block none links pages = record pages { before = links }
put_block (some block) links pages = record pages {
  at = λ page. if page == block then links else pages.at page;
}

abbrev pub set_prev : Option ℕ → Option ℕ → Pages → Pages
set_prev block to pages = put_block block (record (get_block block pages) { prev = to }) pages

abbrev pub set_next : Option ℕ → Option ℕ → Pages → Pages
set_next block to pages = put_block block (record (get_block block pages) { next = to }) pages

abbrev pub Given : Type 0
Given = ℕ × List BuddyOrder × Pages

abbrev pub split_higher : ℕ → BuddyOrder → Given → Given
split_higher order bucket (block, above, pages) = (
  block,
  record (set_bit order block true bucket) { freelist = some (block + size_of_order order) }
      ∷ above,
  put_block (some (block + size_of_order order)) (record { next = none; prev = none }) pages,
)

abbrev pub take_first : ℕ → BuddyOrder → List BuddyOrder → Pages → ℕ → Outcome Given
take_first order bucket above pages block = do
  assert (get_bit order block bucket)
  let next : Option ℕ = (get_block (some block) pages).next
  ok (
    block,
    record (set_bit order block false bucket) { freelist = next } ∷ above,
    set_prev next none pages,
  )

abbrev pub first_or_split :
    ℕ → BuddyOrder → List BuddyOrder → Pages → Option ℕ → Outcome Given → Outcome Given
first_or_split order bucket above pages none higher =
    higher >>= λ given. ok (split_higher order bucket given)
first_or_split order bucket above pages (some block) higher =
    take_first order bucket above pages block

-- The list is `m_orders` from `order` on, up to the highest; an order beyond it fails the assertion.
unfoldable pub alloc_block_internal : ℕ → Pages → List BuddyOrder → Outcome Given
unfolding get_block put_block
alloc_block_internal order pages [] = fault
alloc_block_internal order pages (bucket ∷ above) =
    first_or_split order bucket above pages bucket.freelist
      (alloc_block_internal (suc order) pages above)

abbrev pub is_none : Option ℕ → Bool
is_none none = true
is_none (some x) = false

abbrev pub is_block : ℕ → Option ℕ → Bool
is_block block none = false
is_block block (some x) = x == block

-- What `remove_from_freelist` does to the neighbours of a block.
unfoldable pub unlink : ℕ → Pages → Pages
unfolding get_block put_block
unlink block pages =
    let links : PageLinks = pages.at block in
    let behind : Pages =
      if is_none links.next then pages else set_prev links.next links.prev pages in
    let again : PageLinks = behind.at block in
    if is_none again.prev then behind else set_next again.prev again.next behind

-- The head of the freelist and the pages, without a block.
unfoldable pub remove_from_freelist : ℕ → Option ℕ → Pages → Outcome (Option ℕ × Pages)
unfolding unlink
remove_from_freelist block head pages =
    let left : Pages = unlink block pages in
    if is_block block head
    then (do assert (is_none (left.at block).prev); ok ((left.at block).next, left))
    else ok (head, left)

-- The block becomes the head of the freelist.
abbrev pub push_front : ℕ → ℕ → BuddyOrder → List BuddyOrder → Pages → List BuddyOrder × Pages
push_front order block bucket above pages =
    let behind : Pages =
      if is_none bucket.freelist then pages else set_prev bucket.freelist (some block) pages in
    (
      record (set_bit order block true bucket) { freelist = some block } ∷ above,
      put_block (some block) (record { next = bucket.freelist; prev = none }) behind,
    )

unfoldable pub free_block_internal :
    ℕ → ℕ → Pages → List BuddyOrder → Outcome (List BuddyOrder × Pages)
unfolding get_block put_block remove_from_freelist
free_block_internal order block pages [] = fault
free_block_internal order block pages (bucket ∷ above) =
    let first : ℕ = bit_index order block * 2 * size_of_order order in
    let buddy : ℕ = if block == first then first + size_of_order order else first in
    let merged = remove_from_freelist buddy bucket.freelist pages >>= (λ left.
      free_block_internal (suc order) first left.1 above >>= (λ higher.
        ok (
          record (set_bit order block false bucket) { freelist = left.0 } ∷ higher.0,
          higher.1,
        ))) in
    if get_bit order block bucket then merged else ok (push_front order block bucket above pages)

-- `m_orders[skip]` and the orders above it, beside those below it.
unfoldable pub alloc_at : ℕ → ℕ → Pages → List BuddyOrder → Outcome Given
unfolding alloc_block_internal
alloc_at zero order pages orders = alloc_block_internal order pages orders
alloc_at (suc skip) order pages [] = fault
alloc_at (suc skip) order pages (bucket ∷ above) = do
  (block, higher, after) ← alloc_at skip (suc order) pages above
  ok (block, bucket ∷ higher, after)

unfoldable pub free_at : ℕ → ℕ → ℕ → Pages → List BuddyOrder → Outcome (List BuddyOrder × Pages)
unfolding free_block_internal
free_at zero order block pages orders = free_block_internal order block pages orders
free_at (suc skip) order block pages [] = fault
free_at (suc skip) order block pages (bucket ∷ above) = do
  (higher, after) ← free_at skip (suc order) block pages above
  ok (bucket ∷ higher, after)

-- A zone with the pages that it reaches. The orders are those up to the highest.
pub record Zone : Type 0 where
  pub orders : List BuddyOrder
  pub pages : Pages
  pub first_page : ℕ
  pub num_pages : ℕ
  pub free_pages : ℕ

-- `above` orders and one more, of which the highest has the whole zone in its freelist.
unfoldable pub empty_orders : ℕ → ℕ → ℕ → List BuddyOrder
empty_orders zero order num_pages =
    record {
      block_map = replicate ((num_pages / size_of_order order + 1) / 2) false;
      freelist = none;
    }
    ∷ []
empty_orders (suc above) order num_pages =
    record {
      block_map = replicate ((num_pages / size_of_order order + 1) / 2) false;
      freelist = none;
    }
    ∷ empty_orders above (suc order) num_pages

-- The highest order, at the end of the list, gets the whole zone.
unfoldable pub give_all : ℕ → List BuddyOrder → List BuddyOrder
give_all order [] = []
give_all order (bucket ∷ []) = record (set_bit order 0 true bucket) { freelist = some 0 } ∷ []
give_all order (bucket ∷ next ∷ above) = bucket ∷ give_all (suc order) (next ∷ above)

unfoldable pub init : ℕ → ℕ → Pages → Outcome Zone
unfolding order_for is_size size_of_order empty_orders give_all
init first_page num_pages pages = do
  assert (is_size (order_for num_pages) num_pages)
  assert (leb (order_for num_pages) max_order)
  ok (record {
    orders = give_all 0 (empty_orders (order_for num_pages) 0 num_pages);
    pages = pages;
    first_page = first_page;
    num_pages = num_pages;
    free_pages = num_pages;
  })

unfoldable pub alloc_block : ℕ → Zone → Outcome (ℕ × Zone)
unfolding alloc_at order_for
alloc_block num_pages z = do
  require (leb num_pages z.free_pages) enomem
  (block, orders, pages) ← alloc_at (order_for num_pages) 0 z.pages z.orders
  ok (
    z.first_page + block,
    record z { orders = orders; pages = pages; free_pages = sub_size z.free_pages num_pages },
  )

unfoldable pub free_block : ℕ → ℕ → Zone → Outcome Zone
unfolding free_at order_for is_size
free_block start_page num_pages z = do
  assert (leb z.first_page start_page)
  assert (leb (start_page + num_pages) (z.first_page + z.num_pages))
  assert (is_size (order_for num_pages) num_pages)
  (orders, pages) ← free_at (order_for num_pages) 0 (start_page - z.first_page) z.pages z.orders
  ok (record z { orders = orders; pages = pages; free_pages = add_size z.free_pages num_pages })
