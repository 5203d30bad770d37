-- ===== src/Memory/PhysicalRegion/Steps.antt =====
-- One call of alloc_page or free_page on a region of kernel/memory/PhysicalRegion.cpp.
use duck_os.Prelude.{
  ℕ, suc, ◌+◌, ◌-◌, ◌≤◌, ◌<◌, ◌≡◌, ◌⊎◌, refl, sym, inl, inr, arith, Bool-cases, true, false, List,
  [], ◌∷◌, ◌==◌,
}
use duck_os.Prelude.Words.{add_size, sub_size, size_limit}
use duck_os.Prelude.Outcome.{ok, err, enomem}
use duck_os.Memory.BuddyZone.{Zone}
use duck_os.Memory.BuddyZone.Orders.{powers-le}
use duck_os.Memory.BuddyZone.Tiles.{Held}
use duck_os.Memory.BuddyZone.Balance.{held_pages}
use duck_os.Memory.BuddyZone.Reach.{Reach-Tiled}
use duck_os.Memory.PhysicalRegion.{
  PhysicalPages, PhysicalRegion, with_view, contains_page, alloc_page, free_page,
}
use duck_os.Memory.PhysicalRegion.Zones.{Covers, AllStarted}
use duck_os.Memory.PhysicalRegion.Loops.{
  AllSound, total_free, total_pages, hold_page, Holding, here, there, alloc_from-PageGiven,
}
use duck_os.Memory.PhysicalRegion.Frees.{free_from-PageBack}

unfoldable pub total_held : List Held → ℕ
total_held [] = 0
total_held (held ∷ helds) = held_pages held + total_held helds

unfoldable pub no_helds : List Zone → List Held
no_helds [] = []
no_helds (z ∷ zones) = [] ∷ no_helds zones

-- A region whose zones are sound and whose count of free pages is right.
pub record RegionSound (region : PhysicalRegion) (pages : PhysicalPages) (helds : List Held)
    : Type 0 where
  pub zones_sound : AllSound pages region.start_page region.zones helds
  pub free : region.free_pages ≡ total_free region.zones
  pub size : total_pages region.zones ≡ region.num_pages
  pub below : region.start_page + region.num_pages < size_limit
  pub open_region : region.reserved ≡ false

pub total-AllSound :
    (pages : PhysicalPages) (start : ℕ) (zones : List Zone) (helds : List Held)
    → AllSound pages start zones helds
    → total_free zones + total_held helds ≡ total_pages zones
unfolding AllSound total_free total_held total_pages with_view
total-AllSound pages start [] [] s = refl
total-AllSound pages start [] (held ∷ helds) s = absurd s
total-AllSound pages start (z ∷ zones) [] s = absurd s
total-AllSound pages start (z ∷ zones) (held ∷ helds) (e, s, rest) =
    omega (arith, s.balanced, total-AllSound pages (start + z.num_pages) zones helds rest)

Holding-less :
    (pages : PhysicalPages) (start page : ℕ) (zones : List Zone) (helds helds' : List Held)
    → AllSound pages start zones helds
    → Holding page zones helds helds'
    → (start ≤ page) × (page < start + total_pages zones)
unfolding AllSound total_pages
Holding-less pages start _ _ _ _ s (here z zones block before behind helds inside new) =
    (omega (arith, s.0), omega (arith, s.0, inside))
Holding-less pages start _ _ _ _ s (there page z zones held helds helds' past h) =
    let (low, high) = Holding-less pages (start + z.num_pages) page zones helds helds' s.2 h in
    (omega (arith, low), omega (arith, high))

-- The zones of a new region.
pub start-AllSound :
    (pages : PhysicalPages) (start num : ℕ) (zones : List Zone)
    → Covers start num zones
    → AllStarted pages zones
    → AllSound pages start zones (no_helds zones)
      × (total_free zones ≡ num)
      × (total_pages zones ≡ num)
unfolding Covers AllStarted AllSound no_helds total_free total_pages held_pages with_view
start-AllSound pages start num [] c a = (tt, sym c, sym c)
start-AllSound pages start num (z ∷ zones) (first, (k, small, power), fits, free, covers)
      (new, others) =
    let (sound, rest, total) =
      start-AllSound pages (start + z.num_pages) (num - z.num_pages) zones covers others in
    (
      (
        first,
        record {
          tiled = Reach-Tiled (with_view pages z) [] new;
          balanced = omega (arith, free);
          small = omega (arith, power, powers-le k 10 small);
        },
        sound,
      ),
      omega (arith, free, rest, fits),
      omega (arith, total, fits),
    )

-- What alloc_page does.
abbrev pub PageOutcome : PhysicalRegion → PhysicalPages → List Held → Type 0
PageOutcome region pages helds =
    ((region.free_pages ≡ 0) × (alloc_page region pages ≡ err enomem))
    ⊎ ((page : ℕ) × (region' : PhysicalRegion) × (pages' : PhysicalPages) × (alloc_page region pages
          ≡ ok (page, region', pages'))
        × Holding page region.zones (hold_page page region.zones helds) helds
        × RegionSound region' pages' (hold_page page region.zones helds)
        × (region.free_pages ≡ suc region'.free_pages))

pub alloc_page-PageOutcome :
    (region : PhysicalRegion) (pages : PhysicalPages) (helds : List Held)
    → RegionSound region pages helds
    → PageOutcome region pages helds
unfolding alloc_page
alloc_page-PageOutcome region pages helds s = elim (Bool-cases (region.free_pages == 0)) [
  | inl t ↦ inl (ground (arith, t), rw (s.open_region, t) refl)
  | inr f ↦ elim (alloc_from-PageGiven region.start_page region.zones helds pages s.zones_sound) [
    | inl (none_left, fails) ↦
        inl (omega (arith, s.free, none_left), rw (s.open_region, f, fails) refl)
    | inr (page, zones', pages', gives, low, holding, sound, free, num) ↦
        let totals = total-AllSound pages region.start_page region.zones helds s.zones_sound in
        let left : region.free_pages ≡ suc (sub_size region.free_pages 1) =
          omega (arith, s.free, free, totals, s.size, s.below) in
        inr (
          page,
          record region { zones = zones'; free_pages = sub_size region.free_pages 1 },
          pages',
          rw (s.open_region, f, gives) refl,
          holding,
          record {
            zones_sound = sound;
            free = omega (arith, left, s.free, free);
            size = omega (arith, num, s.size);
            below = s.below;
            open_region = s.open_region;
          },
          left,
        )
  ]
]

abbrev pub PageFreed : ℕ → PhysicalRegion → PhysicalPages → List Held → Type 0
PageFreed page region pages helds' =
    (region' : PhysicalRegion) × (pages' : PhysicalPages) × (free_page page region pages
      ≡ ok (region', pages'))
    × RegionSound region' pages' helds'

pub free_page-PageFreed :
    (region : PhysicalRegion) (pages : PhysicalPages) (helds helds' : List Held) (page : ℕ)
    → RegionSound region pages helds
    → Holding page region.zones helds helds'
    → PageFreed page region pages helds'
unfolding free_page
free_page-PageFreed region pages helds helds' page s h =
    let (low, high) =
      Holding-less pages region.start_page page region.zones helds helds' s.zones_sound h in
    let inside : contains_page page region ≡ true =
      contains page region low (omega (arith, high, s.size)) in
    let (zones', pages', back, sound, free, num, below) =
      free_from-PageBack region.start_page page region.zones helds helds' pages s.zones_sound h in
    let totals = total-AllSound pages' region.start_page zones' helds' sound in
    let more : add_size region.free_pages 1 ≡ suc region.free_pages =
      omega (arith, s.free, free, totals, num, s.size, s.below) in
    (
      record region { zones = zones'; free_pages = add_size region.free_pages 1 },
      pages',
      rw (s.open_region, inside, back) refl,
      record {
        zones_sound = sound;
        free = omega (arith, more, s.free, free);
        size = omega (arith, num, s.size);
        below = s.below;
        open_region = s.open_region;
      },
    )
  where
    contains :
        (p : ℕ) (r : PhysicalRegion)
        → r.start_page ≤ p
        → p < r.start_page + r.num_pages
        → contains_page p r ≡ true
    contains p r l h = ground arith
