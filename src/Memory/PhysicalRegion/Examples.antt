-- ===== src/Memory/PhysicalRegion/Examples.antt =====
-- Runs of kernel/memory/PhysicalRegion.cpp, and its theorems at them.
use duck_os.Prelude.{ℕ, zero, suc, ◌+◌, ◌≡◌, ◌⊎◌, refl, arith, some, true, false, List, [], ◌∷◌}
use duck_os.Prelude.Outcome.{Outcome, ok, err, fault, enomem, ◌>>=◌}
use duck_os.Memory.BuddyZone.{size_of_order, give_all, empty_orders, bit_at, bit_index}
use duck_os.Memory.BuddyZone.Tiles.{Held, holds}
use duck_os.Memory.PhysicalRegion.{
  PhysicalPages, PhysicalRegion, zone_view, write_back, new_region, init_region, alloc_page,
  alloc_pages, free_page,
}
use duck_os.Memory.PhysicalRegion.Zones.{Covers, AllStarted, new_region-AllStarted}
use duck_os.Memory.PhysicalRegion.Loops.{hold_page, Holding, here}
use duck_os.Memory.PhysicalRegion.Steps.{total_held, no_helds}
use duck_os.Memory.PhysicalRegion.Calls.{
  Calls, started, allocated, alloc_page-Calls, free_page-Calls,
}

abbrev State : Type 0
State = PhysicalRegion × PhysicalPages

-- Zeroed pages, as memset leaves the array.
abbrev zeroed : PhysicalPages
zeroed = record {
  at = λ page. record { next = some 0; prev = some 0 };
  before = record { next = some 0; prev = some 0 };
}

abbrev state_of : State → Outcome State → State
state_of default (ok s) = s
state_of default (err e) = default
state_of default fault = default

abbrev no_region : State
no_region =
    (record { zones = []; start_page = 0; num_pages = 0; free_pages = 0; reserved = true }, zeroed)

-- Twelve pages from page 100 on: a zone of eight and one of four.
unfoldable built : State
built = state_of no_region (new_region 100 12 false false zeroed)

unfoldable ready : State
ready = (built.0, init_region built.0 built.1)

abbrev take : Outcome (ℕ × PhysicalRegion × PhysicalPages) → Outcome State
take result = result >>= λ r. ok (r.1, r.2)

-- `count` calls of alloc_page.
unfoldable take_many : ℕ → State → Outcome State
take_many zero s = ok s
take_many (suc count) s = take (alloc_page s.0 s.1) >>= take_many count

abbrev give : ℕ → State → Outcome State
give page s = free_page page s.0 s.1

abbrev page_of : Outcome (ℕ × PhysicalRegion × PhysicalPages) → ℕ
page_of (ok r) = r.0
page_of (err e) = 0
page_of fault = 0

-- All pages of the first zone are given; the last and another one come back; four pages are taken from
-- the second zone, which clears a link of the last page of the first; the page beside it comes back.
unfoldable disturbed : Outcome State
disturbed =
    take_many 8 ready >>= give 107 >>= give 105 >>= (λ s. take (alloc_pages 4 s.0 s.1)) >>= give 106

-- Without the four pages in between.
unfoldable undisturbed : Outcome State
undisturbed = take_many 8 ready >>= give 107 >>= give 105 >>= give 106

abbrev free_of : Outcome State → Outcome ℕ
free_of result = result >>= λ s. ok s.0.free_pages

-- Three pages count as free, and the kernel stops at the second of them; undisturbed, all seven that
-- are free are given, and then there is none.
disturbed-stops :
    (free_of disturbed ≡ ok 3)
    × (free_of (disturbed >>= take_many 2) ≡ fault)
    × (free_of (undisturbed >>= take_many 7) ≡ ok 0)
    × (free_of (undisturbed >>= take_many 8) ≡ err enomem)
unfolding built ready take_many disturbed undisturbed new_region init_region alloc_page alloc_pages
    free_page zone_view write_back size_of_order give_all empty_orders bit_at bit_index
disturbed-stops = (refl, refl, refl, refl)

-- A region that is used counts no free page.
used_region : free_of (new_region 100 12 false true zeroed) ≡ ok 0
unfolding new_region zone_view write_back size_of_order give_all empty_orders bit_at bit_index
used_region = refl

new_region-AllStarted_example :
    (region : PhysicalRegion) × (new_region 100 12 false false zeroed ≡ ok (region, zeroed))
    × (region.start_page ≡ 100)
    × (region.num_pages ≡ 12)
    × (region.free_pages ≡ 12)
    × (region.reserved ≡ false)
    × Covers 100 12 region.zones
    × AllStarted (init_region region zeroed) region.zones
new_region-AllStarted_example = new_region-AllStarted 100 12 zeroed (omega arith)

ready-Calls : Calls ready.0 ready.1 (no_helds ready.0.zones)
unfolding built ready new_region zone_view write_back size_of_order give_all empty_orders bit_at
    bit_index
ready-Calls = started 100 12 built.0 zeroed built.1 (omega arith) refl

unfoldable once : State
once = state_of no_region (take (alloc_page ready.0 ready.1))

abbrev held_one : List Held
held_one = ((0, 0) ∷ []) ∷ [] ∷ []

once-Calls : Calls once.0 once.1 held_one
unfolding built ready once new_region init_region alloc_page zone_view write_back size_of_order
    give_all empty_orders bit_at bit_index no_helds hold_page
once-Calls = allocated ready.0 once.0 ready.1 once.1 (no_helds ready.0.zones) 100 ready-Calls refl

alloc_page-Calls_example :
    (once.0.free_pages + total_held held_one ≡ once.0.num_pages)
    × (((once.0.free_pages ≡ 0) × (alloc_page once.0 once.1 ≡ err enomem))
        ⊎ ((page : ℕ) × (region' : PhysicalRegion) × (pages' : PhysicalPages) × (alloc_page once.0
                once.1
              ≡ ok (page, region', pages'))
            × Holding page once.0.zones (hold_page page once.0.zones held_one) held_one
            × (once.0.free_pages ≡ suc region'.free_pages)))
alloc_page-Calls_example = alloc_page-Calls once.0 once.1 held_one once-Calls

once-Holding : Holding 100 once.0.zones held_one ([] ∷ [] ∷ [])
unfolding built ready once new_region init_region alloc_page zone_view write_back size_of_order
    give_all empty_orders bit_at bit_index no_helds hold_page holds
once-Holding = here _ _ 0 [] [] ([] ∷ []) (omega arith) refl

free_page-Calls_example :
    (region' : PhysicalRegion) × (pages' : PhysicalPages) × (free_page 100 once.0 once.1
      ≡ ok (region', pages'))
    × Calls region' pages' ([] ∷ [] ∷ [])
free_page-Calls_example =
    free_page-Calls once.0 once.1 held_one ([] ∷ [] ∷ []) 100 once-Calls once-Holding
