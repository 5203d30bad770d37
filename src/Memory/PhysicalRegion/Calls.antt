-- ===== src/Memory/PhysicalRegion/Calls.antt =====
-- Calls of alloc_page and free_page on a region of kernel/memory/PhysicalRegion.cpp.
use duck_os.Prelude.{ℕ, suc, ◌+◌, ◌<◌, ◌≡◌, ◌⊎◌, sym, subst, ◌∙◌, inl, inr, arith, false, List}
use duck_os.Prelude.Words.{size_limit}
use duck_os.Prelude.Outcome.{ok, err, enomem, ok-injective}
use duck_os.Memory.BuddyZone.Tiles.{Held}
use duck_os.Memory.PhysicalRegion.{
  PhysicalPages, PhysicalRegion, new_region, init_region, alloc_page, free_page,
}
use duck_os.Memory.PhysicalRegion.Zones.{new_region-AllStarted}
use duck_os.Memory.PhysicalRegion.Loops.{
  AllSound, HeldWritten, HeldWritten-AllSound, hold_page, Holding,
}
use duck_os.Memory.PhysicalRegion.Steps.{
  total_held, no_helds, RegionSound, total-AllSound, start-AllSound, alloc_page-PageOutcome,
  free_page-PageFreed,
}

-- The calls on a new region, each with the pages that callers then hold in each zone. Between the calls the
-- entries of held pages may change.
pub data Calls : PhysicalRegion → PhysicalPages → List Held → Type 0 where
  started :
      (start num : ℕ) (region : PhysicalRegion) (pages pages' : PhysicalPages)
      → start + num < size_limit
      → new_region start num false false pages ≡ ok (region, pages')
      → Calls region (init_region region pages') (no_helds region.zones)
  allocated :
      (region region' : PhysicalRegion) (pages pages' : PhysicalPages) (helds : List Held)
      (page : ℕ)
      → Calls region pages helds
      → alloc_page region pages ≡ ok (page, region', pages')
      → Calls region' pages' (hold_page page region.zones helds)
  freed :
      (region region' : PhysicalRegion) (pages pages' : PhysicalPages) (helds helds' : List Held)
      (page : ℕ)
      → Calls region pages helds
      → Holding page region.zones helds helds'
      → free_page page region pages ≡ ok (region', pages')
      → Calls region' pages' helds'
  written :
      (region : PhysicalRegion) (pages pages' : PhysicalPages) (helds : List Held)
      → Calls region pages helds
      → HeldWritten pages pages' region.zones helds
      → Calls region pages' helds

Calls-RegionSound :
    (region : PhysicalRegion) (pages : PhysicalPages) (helds : List Held)
    → Calls region pages helds
    → RegionSound region pages helds
Calls-RegionSound _ _ _ (started start num region pages pages' small made) =
    let (region0, new, start_page, num_pages, free_pages, open_region, covers, all) =
      new_region-AllStarted start num pages small in
    let (sound, free, size) =
      start-AllSound (init_region region0 pages) start num region0.zones covers all in
    subst (λ r. RegionSound r.0 (init_region r.0 r.1) (no_helds r.0.zones))
      (ok-injective (sym new ∙ made))
      (record {
        zones_sound =
            subst
              (λ p. AllSound (init_region region0 pages) p region0.zones (no_helds region0.zones))
              (sym start_page) sound;
        free = omega (arith, free_pages, free);
        size = omega (arith, num_pages, size);
        below = omega (arith, start_page, num_pages, small);
        open_region = open_region;
      })
Calls-RegionSound _ _ _ (allocated region region' pages pages' helds page c made) =
    elim (alloc_page-PageOutcome region pages helds (Calls-RegionSound region pages helds c)) [
      | inl (empty, fails) ↦ absurd (err-ne-ok (sym fails ∙ made))
      | inr (page', region'', pages'', gives, holding, sound, free) ↦
          subst (λ r. RegionSound r.1 r.2 (hold_page r.0 region.zones helds))
            (ok-injective (sym gives ∙ made)) sound
    ]
  where
    err-ne-ok : {A : Type 0} {a : A} → err enomem ≡ ok a → ⊥
    err-ne-ok e = cc
Calls-RegionSound _ _ _ (freed region region' pages pages' helds helds' page c holding made) =
    let (region'', pages'', back, sound) =
      free_page-PageFreed region pages helds helds' page (Calls-RegionSound region pages helds c)
        holding in
    subst (λ r. RegionSound r.0 r.1 helds') (ok-injective (sym back ∙ made)) sound
Calls-RegionSound _ _ _ (written region pages pages' helds c w) =
    let s = Calls-RegionSound region pages helds c in
    record {
      zones_sound =
          HeldWritten-AllSound pages pages' region.start_page region.zones helds w s.zones_sound;
      free = s.free;
      size = s.size;
      below = s.below;
      open_region = s.open_region;
    }

-- On a region that was built as neither reserved nor used, with pages that end below 2^32, after
-- any calls of alloc_page and of free_page for held pages, whose array entries may be overwritten
-- meanwhile, the region counts the pages that nobody holds. alloc_page reports ENOMEM where there
-- is none, and otherwise gives a page of one of the zones that nobody holds: no assertion fails.
pub alloc_page-Calls :
    (region : PhysicalRegion) (pages : PhysicalPages) (helds : List Held)
    → Calls region pages helds
    → (region.free_pages + total_held helds ≡ region.num_pages)
      × (((region.free_pages ≡ 0) × (alloc_page region pages ≡ err enomem))
          ⊎ ((page : ℕ) × (region' : PhysicalRegion) × (pages' : PhysicalPages) × (alloc_page region
                  pages
                ≡ ok (page, region', pages'))
              × Holding page region.zones (hold_page page region.zones helds) helds
              × (region.free_pages ≡ suc region'.free_pages)))
alloc_page-Calls region pages helds c =
    let s = Calls-RegionSound region pages helds c in
    let totals = total-AllSound pages region.start_page region.zones helds s.zones_sound in
    (
      omega (arith, totals, s.free, s.size),
      elim (alloc_page-PageOutcome region pages helds s) [
        | inl none_left ↦ inl none_left
        | inr (page, region', pages', gives, holding, sound, free) ↦
            inr (page, region', pages', gives, holding, free)
      ],
    )

-- On a region that was built as neither reserved nor used, with pages that end below 2^32, after
-- any calls of alloc_page and of free_page for held pages, whose array entries may be overwritten
-- meanwhile, a page that is held can always be given back: free_page finds its zone, no assertion
-- fails, and the calls go on without that page.
pub free_page-Calls :
    (region : PhysicalRegion) (pages : PhysicalPages) (helds helds' : List Held) (page : ℕ)
    → Calls region pages helds
    → Holding page region.zones helds helds'
    → (region' : PhysicalRegion) × (pages' : PhysicalPages) × (free_page page region pages
        ≡ ok (region', pages'))
      × Calls region' pages' helds'
free_page-Calls region pages helds helds' page c h =
    let (region', pages', back, sound) =
      free_page-PageFreed region pages helds helds' page (Calls-RegionSound region pages helds c)
        h in
    (region', pages', back, freed region region' pages pages' helds helds' page c h back)
