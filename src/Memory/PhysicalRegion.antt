-- ===== src/Memory/PhysicalRegion.antt =====
-- kernel/memory/PhysicalRegion.h and PhysicalRegion.cpp: a region of physical pages, in zones.
pub mod Zones
pub mod Frames
pub mod Loops
pub mod Frees
pub mod Steps
pub mod Calls
mod Examples
use duck_os.Prelude.{
  ℕ, zero, suc, ◌+◌, ◌-◌, ◌^◌, Bool, true, false, not, ◌&&◌, none, some, List, [], ◌∷◌, ltb, leb,
  ◌==◌, if◌then◌else◌,
}
use duck_os.Prelude.Words.{add_size, sub_size}
use duck_os.Prelude.Outcome.{Outcome, ok, err, fault, enomem, einval, ◌>>=◌, ◌>>◌, assert, require}
use duck_os.Memory.BuddyZone.{
  Pages, Zone, max_order, highest_bit, order_for, init, alloc_block, free_block, put_block,
}

-- The array of physical pages, by their absolute index; `before` is the entry at -1.
abbrev pub PhysicalPages : Type 0
PhysicalPages = Pages

-- The pages that a zone reaches through `get_block`, by their index in the zone.
unfoldable pub zone_view : ℕ → PhysicalPages → Pages
zone_view first pages = record {
  at = λ i. pages.at (first + i);
  before = if first == 0 then pages.before else pages.at (first - 1);
}

-- The array after a call of the zone.
unfoldable pub write_back : ℕ → Pages → PhysicalPages → PhysicalPages
write_back first changed pages = record {
  at = λ p.
      if leb first p
      then changed.at (p - first)
      else if p + 1 == first
      then changed.before
      else pages.at p;
  before = if first == 0 then changed.before else pages.before;
}

-- A zone with its view of the array.
unfoldable pub with_view : PhysicalPages → Zone → Zone
unfolding zone_view
with_view pages z = record z { pages = zone_view z.first_page pages }

pub record PhysicalRegion : Type 0 where
  pub zones : List Zone
  pub start_page : ℕ
  pub num_pages : ℕ
  pub free_pages : ℕ
  pub reserved : Bool

-- `1 << zone_order` for the pages that are left.
unfoldable pub zone_size : ℕ → ℕ
unfolding highest_bit
zone_size num_pages =
    let bit : ℕ = highest_bit 32 num_pages in 2 ^ (if ltb max_order bit then max_order else bit)

-- The part of the loop for a region that is used: its call must not return an error.
unfoldable pub mark_used : Bool → Zone → PhysicalPages → Outcome (Zone × PhysicalPages)
unfolding with_view write_back alloc_block
mark_used false z pages = ok (z, pages)
mark_used true z pages = elim (alloc_block z.num_pages (with_view pages z)) [
  | ok given ↦ ok (given.1, write_back z.first_page given.1.pages pages)
  | err e ↦ fault
  | fault ↦ fault
]

-- The constructor's loop. A run that is out of fuel has no result.
unfoldable pub make_zones : ℕ → Bool → ℕ → ℕ → PhysicalPages → Outcome (List Zone × PhysicalPages)
unfolding zone_size mark_used zone_view init
make_zones zero used start_page num_pages pages = fault
make_zones (suc fuel) used start_page zero pages = ok ([], pages)
make_zones (suc fuel) used start_page (suc less) pages = do
  let num_pages : ℕ = suc less
  zone ← init start_page (zone_size num_pages) (zone_view start_page pages)
  (marked, after) ← mark_used used zone pages
  (zones, last) ←
      make_zones fuel used (add_size start_page (zone_size num_pages))
        (sub_size num_pages (zone_size num_pages)) after
  ok (marked ∷ zones, last)

-- The constructor, for which one pass more than there are pages is enough.
unfoldable pub new_region :
    ℕ → ℕ → Bool → Bool → PhysicalPages → Outcome (PhysicalRegion × PhysicalPages)
unfolding make_zones
new_region start_page num_pages reserved used pages = do
  (zones, after) ←
      if reserved
      then ok ([], pages)
      else make_zones (suc num_pages) used start_page num_pages pages
  ok (
    record {
      zones = zones;
      start_page = start_page;
      num_pages = num_pages;
      free_pages = if used then 0 else num_pages;
      reserved = reserved;
    },
    after,
  )

-- The loop of `PhysicalRegion::init`.
unfoldable pub clear_first : List Zone → PhysicalPages → PhysicalPages
unfolding put_block
clear_first [] pages = pages
clear_first (z ∷ zones) pages =
    clear_first zones (put_block (some z.first_page) (record { next = none; prev = none }) pages)

unfoldable pub init_region : PhysicalRegion → PhysicalPages → PhysicalPages
unfolding clear_first
init_region region pages = if region.reserved then pages else clear_first region.zones pages

-- What a zone returned, and the rest of the loop over the zones.
abbrev pub given_or_next :
    Outcome (ℕ × Zone)
    → Zone
    → List Zone
    → PhysicalPages
    → Outcome (ℕ × List Zone × PhysicalPages)
    → Outcome (ℕ × List Zone × PhysicalPages)
given_or_next (ok given) z zones pages rest =
    ok (given.0, given.1 ∷ zones, write_back z.first_page given.1.pages pages)
given_or_next (err e) z zones pages rest = rest >>= λ more. ok (more.0, z ∷ more.1, more.2)
given_or_next fault z zones pages rest = fault

-- The loop over the zones in `alloc_page` and `alloc_pages`: the first zone that returns no error.
unfoldable pub alloc_from : ℕ → List Zone → PhysicalPages → Outcome (ℕ × List Zone × PhysicalPages)
unfolding with_view write_back alloc_block
alloc_from num_pages [] pages = err enomem
alloc_from num_pages (z ∷ zones) pages =
    given_or_next (alloc_block num_pages (with_view pages z)) z zones pages
      (alloc_from num_pages zones pages)

-- The rest of the two calls, which lowers `m_free_pages`.
abbrev pub take_pages :
    ℕ → PhysicalRegion → PhysicalPages → Outcome (ℕ × PhysicalRegion × PhysicalPages)
take_pages num_pages region pages = do
  (page, zones, after) ← alloc_from num_pages region.zones pages
  ok (
    page,
    record region { zones = zones; free_pages = sub_size region.free_pages num_pages },
    after,
  )

unfoldable pub alloc_page :
    PhysicalRegion → PhysicalPages → Outcome (ℕ × PhysicalRegion × PhysicalPages)
unfolding alloc_from
alloc_page region pages = do
  require (not region.reserved) enomem
  require (not (region.free_pages == 0)) enomem
  take_pages 1 region pages

unfoldable pub alloc_pages :
    ℕ → PhysicalRegion → PhysicalPages → Outcome (ℕ × PhysicalRegion × PhysicalPages)
unfolding alloc_from order_for
alloc_pages num_pages region pages = do
  require (not region.reserved) enomem
  require (leb num_pages region.free_pages) enomem
  require (leb (order_for num_pages) max_order) einval
  take_pages num_pages region pages

abbrev pub zone_contains : ℕ → Zone → Bool
zone_contains page z = leb z.first_page page && ltb page (z.first_page + z.num_pages)

unfoldable pub free_from : ℕ → List Zone → PhysicalPages → Outcome (List Zone × PhysicalPages)
unfolding with_view write_back free_block
free_from page [] pages = fault
free_from page (z ∷ zones) pages =
    let rest = free_from page zones pages in
    if zone_contains page z
    then (free_block page 1 (with_view pages z) >>= λ given.
        ok (given ∷ zones, write_back z.first_page given.pages pages))
    else (rest >>= λ left. ok (z ∷ left.0, left.1))

abbrev pub contains_page : ℕ → PhysicalRegion → Bool
contains_page page region =
    leb region.start_page page && ltb page (region.start_page + region.num_pages)

unfoldable pub free_page :
    ℕ → PhysicalRegion → PhysicalPages → Outcome (PhysicalRegion × PhysicalPages)
unfolding free_from
free_page page region pages = do
  assert (not region.reserved)
  assert (contains_page page region)
  (zones, after) ← free_from page region.zones pages
  ok (record region { zones = zones; free_pages = add_size region.free_pages 1 }, after)
