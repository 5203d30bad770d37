-- ===== src/Memory/BuddyZone/Examples.antt =====
-- Runs of kernel/memory/BuddyZone.cpp, and its theorems at them.
use duck_os.Prelude.{ℕ, ◌+◌, ◌≤◌, ◌<◌, ◌≡◌, refl, none, some, List, [], ◌∷◌, ◌++◌, arith}
use duck_os.Prelude.Outcome.{Outcome, ok, err, fault}
use duck_os.Memory.BuddyZone.{
  Pages, Zone, size_of_order, order_for, give_all, empty_orders, bit_at, bit_index, init,
  alloc_block, free_block,
}
use duck_os.Memory.BuddyZone.Listed.{ListedOrder}
use duck_os.Memory.BuddyZone.Orders.{order_for-bounds}
use duck_os.Memory.BuddyZone.Tiles.{Tiled}
use duck_os.Memory.BuddyZone.Reach.{
  Reach, started, allocated, Reach-Tiled, free_block-Reach, alloc_block-Reach, Outcomes,
}

-- Free pages, behind a page whose links are others.
abbrev fresh : Pages
fresh = record {
  at = λ page. record { next = none; prev = none };
  before = record { next = some 7; prev = some 9 };
}

-- Eight pages from page 100 on.
unfoldable new_zone : Zone
new_zone = record {
  orders = give_all 0 (empty_orders 3 0 8);
  pages = fresh;
  first_page = 100;
  num_pages = 8;
  free_pages = 8;
}

unfoldable after_alloc : ℕ → Zone → Zone
after_alloc num z = elim (alloc_block num z) [ ok r ↦ r.1 | err e ↦ z | fault ↦ z ]

unfoldable after_free : ℕ → ℕ → Zone → Zone
after_free page num z = elim (free_block page num z) [ ok r ↦ r | err e ↦ z | fault ↦ z ]

abbrev page_of : Outcome (ℕ × Zone) → ℕ
page_of (ok r) = r.0
page_of (err e) = 0
page_of fault = 0

-- One page, two pages, and then one page again.
unfoldable one : Zone
one = after_alloc 1 new_zone

unfoldable three : Zone
three = after_alloc 2 one

pages_given :
    (page_of (alloc_block 1 new_zone) ≡ 100)
    × (page_of (alloc_block 2 one) ≡ 102)
    × (page_of (alloc_block 1 three) ≡ 101)
unfolding new_zone one three after_alloc alloc_block init give_all empty_orders bit_at size_of_order
    bit_index
pages_given = (refl, refl, refl)

-- The page before the zone is written to, since the zone's whole block was the last of its list.
page_before : (one.pages.before.prev ≡ none) × (one.pages.before.next ≡ some 7)
unfolding new_zone one three after_alloc alloc_block init give_all empty_orders bit_at size_of_order
    bit_index
page_before = (refl, refl)

new_zone-Reach : Reach new_zone []
unfolding new_zone init
new_zone-Reach = started 100 8 fresh new_zone refl refl refl

one-Reach : Reach one ((0, order_for 1) ∷ [])
unfolding new_zone one three after_alloc alloc_block init give_all empty_orders bit_at size_of_order
    bit_index
one-Reach = allocated new_zone one [] 1 0 new_zone-Reach refl

three-Reach : Reach three ((2, order_for 2) ∷ (0, order_for 1) ∷ [])
unfolding new_zone one three after_alloc alloc_block init give_all empty_orders bit_at size_of_order
    bit_index
three-Reach = allocated one three ((0, order_for 1) ∷ []) 2 2 one-Reach refl

Reach-Tiled_example :
    (lists : List ListedOrder) × Tiled three ((2, order_for 2) ∷ (0, order_for 1) ∷ []) lists
Reach-Tiled_example = Reach-Tiled three ((2, order_for 2) ∷ (0, order_for 1) ∷ []) three-Reach

free_block-Reach_example :
    (z' : Zone) × (free_block (three.first_page + 2) 2 three ≡ ok z')
    × Reach z' ([] ++ (0, order_for 1) ∷ [])
unfolding size_of_order order_for
free_block-Reach_example = free_block-Reach 2 2 three [] ((0, order_for 1) ∷ []) three-Reach refl

-- Five pages are free, but five of them take a block of eight, and there is none.
alloc_block-Reach_example :
    (lists : List ListedOrder) × Tiled three ((2, order_for 2) ∷ (0, order_for 1) ∷ []) lists
    × Outcomes 5 three ((2, order_for 2) ∷ (0, order_for 1) ∷ []) lists
alloc_block-Reach_example =
    alloc_block-Reach 5 three ((2, order_for 2) ∷ (0, order_for 1) ∷ []) three-Reach

-- The kernel stops there.
five-fault : (alloc_block 5 three ≡ fault) × (three.free_pages ≡ 5)
unfolding new_zone one three after_alloc alloc_block init give_all empty_orders bit_at size_of_order
    bit_index
five-fault = (refl, refl)

order_for-bounds_example :
    (order_for 5 < 32) × (5 ≤ size_of_order (order_for 5)) × (size_of_order (order_for 5) < 5 + 5)
order_for-bounds_example = order_for-bounds 5 (omega arith) (omega arith)
