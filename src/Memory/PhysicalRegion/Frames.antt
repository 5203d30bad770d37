-- ===== src/Memory/PhysicalRegion/Frames.antt =====
-- Which entries of the array of physical pages a call on a zone of kernel/memory/PhysicalRegion.cpp changes.
use duck_os.Prelude.{
  ℕ, suc, ◌+◌, ◌-◌, ◌≤◌, ◌<◌, ◌≡◌, refl, ap, ◌∙◌, inl, inr, arith, Bool-cases, true, false, none,
  List, [], ◌∷◌, leb, ◌==◌, if◌then◌else◌,
}
use duck_os.Memory.BuddyZone.{size_of_order, BuddyOrder, Pages, Zone}
use duck_os.Memory.BuddyZone.Listed.{ListedOrder}
use duck_os.Memory.BuddyZone.Blocks.{size_of_order-pos}
use duck_os.Memory.BuddyZone.Counts.{hits-count, cover, inside}
use duck_os.Memory.BuddyZone.Alloc.{inside-less}
use duck_os.Memory.BuddyZone.Free.{inside-le}
use duck_os.Memory.BuddyZone.Links.{Chain-frame, AllLinked}
use duck_os.Memory.BuddyZone.Tiles.{Held, holds}
use duck_os.Memory.BuddyZone.Balance.{cover-held_pages}
use duck_os.Memory.BuddyZone.Single.{Sound, KeptOutside}
use duck_os.Memory.PhysicalRegion.{PhysicalPages, zone_view, write_back, with_view}

AllLinked-frame :
    (level : ℕ) (pages pages' : Pages) (orders : List BuddyOrder) (lists : List ListedOrder)
    → ((y : ℕ) → 0 < cover level lists y → pages'.at y ≡ pages.at y)
    → AllLinked pages orders lists
    → AllLinked pages' orders lists
unfolding cover
AllLinked-frame level pages pages' [] [] h l = l
AllLinked-frame level pages pages' [] (list ∷ lists) h l = absurd l
AllLinked-frame level pages pages' (bucket ∷ above) [] h l = absurd l
AllLinked-frame level pages pages' (bucket ∷ above) (list ∷ lists) h l = (
  l.0,
  Chain-frame pages pages' none bucket.freelist list.freelist
      (λ y d.
        h y (
          omega
            (arith, hits-count (size_of_order level) list.freelist y (size_of_order-pos level))))
      l.1,
  AllLinked-frame (suc level) pages pages' above lists (λ y d. h y (omega arith)) l.2,
)

-- A zone is sound with any links that its free pages keep.
pub Sound-frame :
    (z : Zone) (held : Held) (pages : Pages)
    → Sound z held
    → ((y : ℕ) → y < z.num_pages → holds held y ≡ 0 → pages.at y ≡ z.pages.at y)
    → Sound (record z { pages = pages }) held
Sound-frame z held pages s h =
    let (lists, t) = s.tiled in
    record {
      tiled = (
        lists,
        record {
          covered = t.covered;
          levels = t.levels;
          linked =
              AllLinked-frame 0 z.pages pages z.orders lists
                (λ y d.
                  h y (inside-less z.num_pages y (omega (arith, t.covered y)))
                    (omega (arith, t.covered y, inside-le z.num_pages y)))
                t.linked;
          some_orders = t.some_orders;
          few_orders = t.few_orders;
          whole = t.whole;
          aligned = t.aligned;
        },
      );
      balanced = s.balanced;
      small = s.small;
    }

inside-one : (num p : ℕ) → p < num → inside num p ≡ 1
unfolding inside
inside-one num p h = ground arith

-- Where no page is free, the links do not matter.
pub Sound-full :
    (z : Zone) (held : Held) (pages : Pages)
    → z.free_pages ≡ 0
    → Sound z held
    → Sound (record z { pages = pages }) held
Sound-full z held pages e s = Sound-frame z held pages s (λ y l n. absurd (
    omega (
      arith,
      s.tiled.1.covered y,
      cover-held_pages z held s.tiled.0 y s.tiled.1 (omega (arith, e, s.balanced)),
      inside-one z.num_pages y l,
    )))

write_back-own :
    (first i : ℕ) (changed : Pages) (pages : PhysicalPages)
    → (write_back first changed pages).at (first + i) ≡ changed.at i
unfolding write_back
write_back-own first i changed pages =
    let low : leb first (first + i) ≡ true = ground arith in rw low (ap changed.at (omega arith))

-- Past the zone.
pub write_back-above :
    (z z' : Zone) (p : ℕ) (pages : PhysicalPages)
    → KeptOutside (with_view pages z) z'
    → z.first_page + z.num_pages ≤ p
    → (write_back z.first_page z'.pages pages).at p ≡ pages.at p
unfolding write_back with_view zone_view
write_back-above z z' p pages kept h =
    let low : leb z.first_page p ≡ true = ground arith in
    rw low (kept (p - z.first_page) (omega arith) ∙ ap pages.at (omega arith))

-- Before the zone, by a call that leaves the page before it as it is.
pub write_back-below :
    (z z' : Zone) (p : ℕ) (pages : PhysicalPages)
    → z'.pages.before ≡ (with_view pages z).pages.before
    → p < z.first_page
    → (write_back z.first_page z'.pages pages).at p ≡ pages.at p
unfolding write_back with_view zone_view
write_back-below z z' p pages same h =
    let high : leb z.first_page p ≡ false = ground arith in
    elim (Bool-cases (p + 1 == z.first_page)) [
      | inl t ↦
          let next : p + 1 ≡ z.first_page = ground (arith, t) in
          let started : (z.first_page == 0) ≡ false = ground arith in
          rw (high, t) (same ∙ before-page started ∙ ap pages.at (omega (arith, next)))
      | inr f ↦ rw (high, f) refl
    ]
  where
    before-page :
        (z.first_page == 0) ≡ false
        → (if z.first_page == 0 then pages.before else pages.at (z.first_page - 1))
          ≡ pages.at (z.first_page - 1)
    before-page e = rw e refl

-- The zone itself.
pub Sound-write_back :
    (z z' : Zone) (held : Held) (pages : PhysicalPages)
    → z'.first_page ≡ z.first_page
    → Sound z' held
    → Sound (with_view (write_back z.first_page z'.pages pages) z') held
unfolding with_view zone_view
Sound-write_back z z' held pages e s =
    Sound-frame z' held (zone_view z'.first_page (write_back z.first_page z'.pages pages)) s
      (λ y l n.
        ap (λ f. (write_back z.first_page z'.pages pages).at (f + y)) e
        ∙ write_back-own z.first_page y z'.pages pages)
