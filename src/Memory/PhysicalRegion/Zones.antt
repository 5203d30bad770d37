-- ===== src/Memory/PhysicalRegion/Zones.antt =====
-- The zones that the constructor of kernel/memory/PhysicalRegion.cpp makes.
use duck_os.Prelude.{
  ℕ, zero, suc, ◌+◌, ◌-◌, ◌^◌, ◌≤◌, ◌<◌, ◌≡◌, refl, sym, ap, subst, ◌∙◌, inl, inr, arith,
  Bool-cases, true, false, none, some, List, [], ◌∷◌, ltb, leb, ◌==◌, leb-true, ltb-false,
}
use native.Mathlib.Nat.{one-le-pow}
use duck_os.Prelude.Words.{add_size, sub_size, size_limit}
use duck_os.Prelude.Outcome.{ok}
use duck_os.Memory.BuddyZone.{
  PageLinks, Pages, Zone, max_order, size_of_order, highest_bit, order_for, empty_orders, give_all,
  init, put_block,
}
use duck_os.Memory.BuddyZone.Orders.{highest_bit-bounds, order_for-size, powers-le, is_size-true}
use duck_os.Memory.BuddyZone.Reach.{Reach, started}
use duck_os.Memory.PhysicalRegion.{
  PhysicalPages, PhysicalRegion, zone_view, with_view, zone_size, mark_used, make_zones, new_region,
  clear_first, init_region,
}

-- A zone as its constructor leaves it.
unfoldable fresh_zone : ℕ → ℕ → Pages → Zone
fresh_zone first num pages = record {
  orders = give_all 0 (empty_orders (order_for num) 0 num);
  pages = pages;
  first_page = first;
  num_pages = num;
  free_pages = num;
}

abbrev pub ZoneSize : ℕ → Type 0
ZoneSize num = (k : ℕ) × (k ≤ max_order) × (num ≡ 2 ^ k)

init-fresh_zone :
    (first num : ℕ) (pages : Pages)
    → ZoneSize num
    → init first num pages ≡ ok (fresh_zone first num pages)
unfolding init fresh_zone size_of_order
init-fresh_zone first num pages (k, small, e) =
    let order : order_for num ≡ k = ap order_for e ∙ order_for-size k small in
    let size =
      is_size-true (order_for num) num (omega (arith, order)) (ap (λ o. 2 ^ o) order ∙ sym e) in
    let fits : leb (order_for num) max_order ≡ true =
      leb-true (order_for num) max_order (omega (arith, order)) in
    rw (size, fits) refl

zone_size-ZoneSize :
    (num : ℕ) → 0 < num → num < size_limit → ZoneSize (zone_size num) × (zone_size num ≤ num)
unfolding zone_size
zone_size-ZoneSize num p h =
    let bit : ℕ = highest_bit 32 num in
    let bounds = highest_bit-bounds 32 num p h in
    elim (Bool-cases (ltb max_order bit)) [
      | inl t ↦
          let above : max_order ≤ bit = ground (arith, t) in
          let top : 2 ^ 10 ≤ 2 ^ bit = powers-le 10 bit above in
          rw t ((max_order, omega arith, refl), omega (arith, bounds, top))
      | inr f ↦ rw f ((bit, ltb-false max_order bit f, refl), bounds.0)
    ]

-- The zones lie one behind the other, from a page on, and cover a number of pages, all of them free.
unfoldable pub Covers : ℕ → ℕ → List Zone → Type 0
Covers start num [] = num ≡ 0
Covers start num (z ∷ zones) =
    (z.first_page ≡ start)
    × ZoneSize z.num_pages
    × (z.num_pages ≤ num)
    × (z.free_pages ≡ z.num_pages)
    × Covers (start + z.num_pages) (num - z.num_pages) zones

-- Each zone is one from which its calls can start, with no block held.
unfoldable pub AllStarted : PhysicalPages → List Zone → Type 0
AllStarted pages [] = Unit {0}
AllStarted pages (z ∷ zones) = Reach (with_view pages z) [] × AllStarted pages zones

unfoldable AllFresh : List Zone → Type 0
AllFresh [] = Unit {0}
AllFresh (z ∷ zones) =
    ZoneSize z.num_pages × (z ≡ fresh_zone z.first_page z.num_pages z.pages) × AllFresh zones

make_zones-step :
    (fuel start less start' left : ℕ) (zone : Zone) (zones : List Zone) (pages : PhysicalPages)
    → init start (zone_size (suc less)) (zone_view start pages) ≡ ok zone
    → add_size start (zone_size (suc less)) ≡ start'
    → sub_size (suc less) (zone_size (suc less)) ≡ left
    → make_zones fuel false start' left pages ≡ ok (zones, pages)
    → make_zones (suc fuel) false start (suc less) pages ≡ ok (zone ∷ zones, pages)
unfolding make_zones mark_used
make_zones-step fuel start less start' left zone zones pages made next rest more =
    rw (made, next, rest, more) refl

make_zones-lem :
    (fuel start num : ℕ) (pages : PhysicalPages)
    → num < fuel
    → start + num < size_limit
    → (zones : List Zone) × (make_zones fuel false start num pages ≡ ok (zones, pages))
      × Covers start num zones
      × AllFresh zones
unfolding make_zones Covers AllFresh fresh_zone
make_zones-lem zero start num pages f h = absurd (omega arith)
make_zones-lem (suc fuel) start zero pages f h = ([], refl, refl, tt)
make_zones-lem (suc fuel) start (suc less) pages f h =
    let num : ℕ = suc less in
    let (size, fits) = zone_size-ZoneSize num (omega arith) (omega arith) in
    let (k, small, e) = size in
    let some_page : 0 < zone_size num = omega (arith, e, one-le-pow k 2 (omega arith)) in
    let made = init-fresh_zone start (zone_size num) (zone_view start pages) size in
    let next : add_size start (zone_size num) ≡ start + zone_size num = omega (arith, fits) in
    let left : sub_size num (zone_size num) ≡ num - zone_size num = omega (arith, fits) in
    let (zones, rest, covers, new) =
      make_zones-lem fuel (start + zone_size num) (num - zone_size num) pages
        (omega (arith, some_page)) (omega (arith, fits)) in
    (
      fresh_zone start (zone_size num) (zone_view start pages) ∷ zones,
      make_zones-step fuel start less _ _ _ zones pages made next left rest,
      (refl, size, fits, refl, covers),
      (size, refl, new),
    )

abbrev IsAlone : PageLinks → Type 0
IsAlone links = (links.next ≡ none) × (links.prev ≡ none)

put_block-IsAlone :
    (p q : ℕ) (pages : PhysicalPages)
    → IsAlone (pages.at q)
    → IsAlone ((put_block (some p) (record { next = none; prev = none }) pages).at q)
unfolding put_block
put_block-IsAlone p q pages a = elim (Bool-cases (q == p)) [
  | inl e ↦ rw e (refl, refl)
  | inr e ↦ rw e a
]

put_block-IsAlone_self :
    (p : ℕ) (pages : PhysicalPages)
    → IsAlone ((put_block (some p) (record { next = none; prev = none }) pages).at p)
unfolding put_block
put_block-IsAlone_self p pages = let same : (p == p) ≡ true = ground arith in rw same (refl, refl)

clear_first-IsAlone :
    (zones : List Zone) (p : ℕ) (pages : PhysicalPages)
    → IsAlone (pages.at p)
    → IsAlone ((clear_first zones pages).at p)
unfolding clear_first
clear_first-IsAlone [] p pages a = a
clear_first-IsAlone (z ∷ zones) p pages a =
    clear_first-IsAlone zones p _ (put_block-IsAlone z.first_page p pages a)

fresh_zone-Reach :
    (z : Zone) (pages : PhysicalPages)
    → ZoneSize z.num_pages
    → z ≡ fresh_zone z.first_page z.num_pages z.pages
    → IsAlone (pages.at z.first_page)
    → Reach (with_view pages z) []
unfolding with_view zone_view fresh_zone
fresh_zone-Reach z pages size e a =
    let here : z.first_page + 0 ≡ z.first_page = omega arith in
    let alone : IsAlone (pages.at (z.first_page + 0)) =
      subst (λ p. IsAlone (pages.at p)) (sym here) a in
    let view : Pages = zone_view z.first_page pages in
    subst (λ y. Reach (record y { pages = view }) []) (sym e)
      (started z.first_page z.num_pages view (fresh_zone z.first_page z.num_pages view)
        (init-fresh_zone z.first_page z.num_pages view size) alone.0 alone.1)

AllFresh-AllStarted :
    (zones : List Zone) (pages : PhysicalPages)
    → AllFresh zones
    → AllStarted (clear_first zones pages) zones
unfolding AllFresh AllStarted clear_first
AllFresh-AllStarted [] pages f = tt
AllFresh-AllStarted (z ∷ zones) pages (size, e, f) =
    let cleared : PhysicalPages =
      put_block (some z.first_page) (record { next = none; prev = none }) pages in
    (
      fresh_zone-Reach z (clear_first zones cleared) size e (
          clear_first-IsAlone zones z.first_page cleared
            (put_block-IsAlone_self z.first_page pages)),
      AllFresh-AllStarted zones cleared f,
    )

-- The constructor of a region that is neither reserved nor used, and whose pages end below 2^32,
-- returns, and none of its assertions fails: the zones that it makes have powers of two of pages,
-- up to 2^10, and cover the pages of the region one behind the other without a gap, all of them
-- free. After the region's init each of them is a new zone with no block held.
pub new_region-AllStarted :
    (start num : ℕ) (pages : PhysicalPages)
    → start + num < size_limit
    → (region : PhysicalRegion) × (new_region start num false false pages ≡ ok (region, pages))
      × (region.start_page ≡ start)
      × (region.num_pages ≡ num)
      × (region.free_pages ≡ num)
      × (region.reserved ≡ false)
      × Covers start num region.zones
      × AllStarted (init_region region pages) region.zones
unfolding new_region init_region
new_region-AllStarted start num pages h =
    let (zones, made, covers, new) = make_zones-lem (suc num) start num pages (omega arith) h in
    (
      record {
        zones = zones;
        start_page = start;
        num_pages = num;
        free_pages = num;
        reserved = false;
      },
      rw made refl,
      refl,
      refl,
      refl,
      refl,
      covers,
      AllFresh-AllStarted zones pages new,
    )
