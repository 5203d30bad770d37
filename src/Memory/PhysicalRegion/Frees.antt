-- ===== src/Memory/PhysicalRegion/Frees.antt =====
-- `free_page` of kernel/memory/PhysicalRegion.cpp: the loop that looks for the zone of a page.
use duck_os.Prelude.{
  ℕ, suc, ◌+◌, ◌≤◌, ◌<◌, ◌≡◌, sym, ap, subst, ◌∙◌, arith, true, false, List, ◌∷◌, ◌++◌,
}
use duck_os.Prelude.Outcome.{ok, ◌>>=◌}
use duck_os.Memory.BuddyZone.{Zone, free_block}
use duck_os.Memory.BuddyZone.Tiles.{Held}
use duck_os.Memory.BuddyZone.Single.{free_block-FreedPage}
use duck_os.Memory.PhysicalRegion.{
  PhysicalPages, zone_view, write_back, with_view, zone_contains, free_from,
}
use duck_os.Memory.PhysicalRegion.Frames.{
  Sound-frame, write_back-above, write_back-below, Sound-write_back,
}
use duck_os.Memory.PhysicalRegion.Loops.{
  AllSound, AllSound-frame, total_free, total_pages, Holding, here, there,
}

-- What giving a page back leaves; no page before the zones changes.
abbrev pub PageBack : ℕ → ℕ → List Zone → List Held → PhysicalPages → Type 0
PageBack start page zones helds pages =
    (zones' : List Zone) × (pages' : PhysicalPages) × (free_from page zones pages
      ≡ ok (zones', pages'))
    × AllSound pages' start zones' helds
    × (total_free zones' ≡ suc (total_free zones))
    × (total_pages zones' ≡ total_pages zones)
    × ((p : ℕ) → p < start → pages'.at p ≡ pages.at p)

free_from-here :
    (z z' : Zone) (zones : List Zone) (block : ℕ) (pages : PhysicalPages)
    → block < z.num_pages
    → free_block (z.first_page + block) 1 (with_view pages z) ≡ ok z'
    → free_from (z.first_page + block) (z ∷ zones) pages
      ≡ ok (z' ∷ zones, write_back z.first_page z'.pages pages)
unfolding free_from
free_from-here z z' zones block pages h back =
    let inside : zone_contains (z.first_page + block) z ≡ true = ground arith in
    rw inside
      (ap (λ o. o >>= λ given. ok (given ∷ zones, write_back z.first_page given.pages pages)) back)

free_from-there :
    (page : ℕ) (z : Zone) (zones zones' : List Zone) (pages pages' : PhysicalPages)
    → z.first_page + z.num_pages ≤ page
    → free_from page zones pages ≡ ok (zones', pages')
    → free_from page (z ∷ zones) pages ≡ ok (z ∷ zones', pages')
unfolding free_from
free_from-there page z zones zones' pages pages' h back =
    let outside : zone_contains page z ≡ false = ground arith in
    rw outside (ap (λ o. o >>= λ left. ok (z ∷ left.0, left.1)) back)

pub free_from-PageBack :
    (start page : ℕ) (zones : List Zone) (helds helds' : List Held) (pages : PhysicalPages)
    → AllSound pages start zones helds
    → Holding page zones helds helds'
    → PageBack start page zones helds' pages
unfolding AllSound total_free total_pages with_view
free_from-PageBack start _ _ _ _ pages s (here z zones block before behind helds inside new) =
    let (z', back, s', first, num, free, kept, same) =
      free_block-FreedPage block (with_view pages z) before behind s.1 in
    let after : PhysicalPages = write_back z.first_page z'.pages pages in
    let others : AllSound after (start + z'.num_pages) zones helds =
      subst (λ n. AllSound after (start + n) zones helds) (sym num)
        (AllSound-frame pages after (start + z.num_pages) zones helds
          (λ p l. write_back-above z z' p pages kept (omega (arith, s.0, l))) s.2) in
    (
      z' ∷ zones,
      after,
      free_from-here z z' zones block pages inside back,
      (first ∙ s.0, Sound-write_back z z' (before ++ behind) pages first s', others),
      omega (arith, free),
      omega (arith, num),
      (λ p l. write_back-below z z' p pages same (omega (arith, s.0))),
    )
free_from-PageBack start _ _ _ _ pages s (there page z zones held helds helds' past h) =
    let (zones', after, back, sound, free, num, below) =
      free_from-PageBack (start + z.num_pages) page zones helds helds' pages s.2 h in
    (
      z ∷ zones',
      after,
      free_from-there page z zones zones' pages after past back,
      (
        s.0,
        Sound-frame (with_view pages z) held (zone_view z.first_page after) s.1
            (λ y l n. below (z.first_page + y) (omega (arith, s.0, l))),
        sound,
      ),
      omega (arith, free),
      omega (arith, num),
      (λ p l. below p (omega arith)),
    )
