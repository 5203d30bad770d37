-- ===== src/Memory/PhysicalRegion/Loops.antt =====
-- The loops over the zones in kernel/memory/PhysicalRegion.cpp, for single pages.
use duck_os.Prelude.{
  ℕ, suc, ◌+◌, ◌-◌, ◌≤◌, ◌<◌, ◌≡◌, ◌⊎◌, refl, sym, ap, subst, ◌∙◌, inl, inr, arith, true, false,
  List, [], ◌∷◌, ◌++◌, if◌then◌else◌,
}
use duck_os.Prelude.Outcome.{ok, err, enomem}
use duck_os.Memory.BuddyZone.{Zone, alloc_block}
use duck_os.Memory.BuddyZone.Tiles.{Held, holds}
use duck_os.Memory.BuddyZone.Single.{Sound, alloc_block-SinglePage}
use duck_os.Memory.PhysicalRegion.{
  PhysicalPages, zone_view, write_back, with_view, zone_contains, given_or_next, alloc_from,
}
use duck_os.Memory.PhysicalRegion.Frames.{
  Sound-frame, Sound-full, write_back-above, Sound-write_back,
}

-- The zones follow each other from a page on, each with the pages that callers hold in it.
unfoldable pub AllSound : PhysicalPages → ℕ → List Zone → List Held → Type 0
AllSound pages start [] [] = Unit {0}
AllSound pages start [] (held ∷ helds) = ⊥
AllSound pages start (z ∷ zones) [] = ⊥
AllSound pages start (z ∷ zones) (held ∷ helds) =
    (z.first_page ≡ start)
    × Sound (with_view pages z) held
    × AllSound pages (start + z.num_pages) zones helds

unfoldable pub total_free : List Zone → ℕ
total_free [] = 0
total_free (z ∷ zones) = z.free_pages + total_free zones

unfoldable pub total_pages : List Zone → ℕ
total_pages [] = 0
total_pages (z ∷ zones) = z.num_pages + total_pages zones

-- A page becomes one that is held in its zone.
unfoldable pub hold_page : ℕ → List Zone → List Held → List Held
hold_page page [] helds = helds
hold_page page (z ∷ zones) [] = []
hold_page page (z ∷ zones) (held ∷ helds) =
    let rest = hold_page page zones helds in
    if zone_contains page z then ((page - z.first_page, 0) ∷ held) ∷ helds else held ∷ rest

-- In one list of held blocks a page is held once, and in the other it is not; else they are equal.
pub data Holding : ℕ → List Zone → List Held → List Held → Type 0 where
  here :
      (z : Zone) (zones : List Zone) (block : ℕ) (before behind : Held) (helds : List Held)
      → block < z.num_pages
      → holds (before ++ behind) block ≡ 0
      → Holding
          (z.first_page + block)
          (z ∷ zones)
          ((before ++ (block, 0) ∷ behind) ∷ helds)
          ((before ++ behind) ∷ helds)
  there :
      (page : ℕ) (z : Zone) (zones : List Zone) (held : Held) (helds helds' : List Held)
      → z.first_page + z.num_pages ≤ page
      → Holding page zones helds helds'
      → Holding page (z ∷ zones) (held ∷ helds) (held ∷ helds')

pub AllSound-frame :
    (pages pages' : PhysicalPages) (start : ℕ) (zones : List Zone) (helds : List Held)
    → ((p : ℕ) → start ≤ p → pages'.at p ≡ pages.at p)
    → AllSound pages start zones helds
    → AllSound pages' start zones helds
unfolding AllSound with_view zone_view
AllSound-frame pages pages' start [] [] h s = tt
AllSound-frame pages pages' start [] (held ∷ helds) h s = absurd s
AllSound-frame pages pages' start (z ∷ zones) [] h s = absurd s
AllSound-frame pages pages' start (z ∷ zones) (held ∷ helds) h (e, s, rest) = (
  e,
  Sound-frame (with_view pages z) held (zone_view z.first_page pages') s
      (λ y l n. h (z.first_page + y) (omega (arith, e))),
  AllSound-frame pages pages' (start + z.num_pages) zones helds (λ p l. h p (omega arith)) rest,
)

-- Only entries of held pages differ: the fields of `allocated`, which their users write, lie over those
-- of `free`.
unfoldable pub HeldWritten : PhysicalPages → PhysicalPages → List Zone → List Held → Type 0
HeldWritten pages pages' [] helds = Unit {0}
HeldWritten pages pages' (z ∷ zones) [] = Unit {0}
HeldWritten pages pages' (z ∷ zones) (held ∷ helds) =
    ((y : ℕ)
      → y < z.num_pages
      → holds held y ≡ 0
      → pages'.at (z.first_page + y) ≡ pages.at (z.first_page + y))
    × HeldWritten pages pages' zones helds

pub HeldWritten-AllSound :
    (pages pages' : PhysicalPages) (start : ℕ) (zones : List Zone) (helds : List Held)
    → HeldWritten pages pages' zones helds
    → AllSound pages start zones helds
    → AllSound pages' start zones helds
unfolding AllSound HeldWritten with_view zone_view
HeldWritten-AllSound pages pages' start [] [] h s = tt
HeldWritten-AllSound pages pages' start [] (held ∷ helds) h s = absurd s
HeldWritten-AllSound pages pages' start (z ∷ zones) [] h s = absurd s
HeldWritten-AllSound pages pages' start (z ∷ zones) (held ∷ helds) (h, others) (e, s, rest) = (
  e,
  Sound-frame (with_view pages z) held (zone_view z.first_page pages') s h,
  HeldWritten-AllSound pages pages' (start + z.num_pages) zones helds others rest,
)

-- What an allocation of a page leaves.
abbrev pub PageGiven : ℕ → List Zone → List Held → PhysicalPages → Type 0
PageGiven start zones helds pages =
    (page : ℕ) × (zones' : List Zone) × (pages' : PhysicalPages) × (alloc_from 1 zones pages
      ≡ ok (page, zones', pages'))
    × (start ≤ page)
    × Holding page zones (hold_page page zones helds) helds
    × AllSound pages' start zones' (hold_page page zones helds)
    × (total_free zones ≡ suc (total_free zones'))
    × (total_pages zones' ≡ total_pages zones)

hold_page-here :
    (z : Zone) (zones : List Zone) (held : Held) (helds : List Held) (block : ℕ)
    → block < z.num_pages
    → hold_page (z.first_page + block) (z ∷ zones) (held ∷ helds) ≡ ((block, 0) ∷ held) ∷ helds
unfolding hold_page
hold_page-here z zones held helds block h =
    let inside : zone_contains (z.first_page + block) z ≡ true = ground arith in
    let same : z.first_page + block - z.first_page ≡ block = omega arith in rw (inside, same) refl

hold_page-there :
    (page : ℕ) (z : Zone) (zones : List Zone) (held : Held) (helds : List Held)
    → z.first_page + z.num_pages ≤ page
    → hold_page page (z ∷ zones) (held ∷ helds) ≡ held ∷ hold_page page zones helds
unfolding hold_page
hold_page-there page z zones held helds h =
    let outside : zone_contains page z ≡ false = ground arith in rw outside refl

alloc_from-here :
    (start : ℕ) (z z' : Zone) (zones : List Zone) (held : Held) (helds : List Held) (block : ℕ)
    (pages : PhysicalPages)
    → AllSound pages start (z ∷ zones) (held ∷ helds)
    → alloc_block 1 (with_view pages z) ≡ ok (z.first_page + block, z')
    → Sound z' ((block, 0) ∷ held)
    → block < z.num_pages
    → holds held block ≡ 0
    → z'.first_page ≡ z.first_page
    → z'.num_pages ≡ z.num_pages
    → z.free_pages ≡ suc z'.free_pages
    → ((y : ℕ) → z.num_pages ≤ y → z'.pages.at y ≡ (zone_view z.first_page pages).at y)
    → PageGiven start (z ∷ zones) (held ∷ helds) pages
unfolding AllSound alloc_from total_free total_pages with_view
alloc_from-here start z z' zones held helds block pages (e, s, rest) gives s' inside new first num
      free kept =
    let now = hold_page-here z zones held helds block inside in
    let after : PhysicalPages = write_back z.first_page z'.pages pages in
    let others : AllSound after (start + z'.num_pages) zones helds =
      subst (λ n. AllSound after (start + n) zones helds) (sym num)
        (AllSound-frame pages after (start + z.num_pages) zones helds
          (λ p l. write_back-above z z' p pages kept (omega (arith, e, l))) rest) in
    (
      z.first_page + block,
      z' ∷ zones,
      after,
      ap (λ o. given_or_next o z zones pages (alloc_from 1 zones pages)) gives,
      omega (arith, e),
      subst (λ hs. Holding (z.first_page + block) (z ∷ zones) hs (held ∷ helds)) (sym now)
          (here z zones block [] held helds inside new),
      subst (AllSound after start (z' ∷ zones)) (sym now)
          (first ∙ e, Sound-write_back z z' ((block, 0) ∷ held) pages first s', others),
      omega (arith, free),
      omega (arith, num),
    )

alloc_from-there :
    (start : ℕ) (z : Zone) (zones : List Zone) (held : Held) (helds : List Held)
    (pages : PhysicalPages)
    → AllSound pages start (z ∷ zones) (held ∷ helds)
    → alloc_block 1 (with_view pages z) ≡ err enomem
    → z.free_pages ≡ 0
    → PageGiven (start + z.num_pages) zones helds pages
    → PageGiven start (z ∷ zones) (held ∷ helds) pages
unfolding AllSound alloc_from total_free total_pages with_view
alloc_from-there start z zones held helds pages (e, s, rest) none_left full
      (page, zones', after, gives, low, holding, sound, free, num) =
    let past : z.first_page + z.num_pages ≤ page = omega (arith, e, low) in
    let now = hold_page-there page z zones held helds past in
    (
      page,
      z ∷ zones',
      after,
      ap (λ o. given_or_next o z zones pages (alloc_from 1 zones pages)) none_left
          ∙ ap (λ o. given_or_next (err enomem) z zones pages o) gives,
      omega (arith, low),
      subst (λ hs. Holding page (z ∷ zones) hs (held ∷ helds)) (sym now)
          (there page z zones held (hold_page page zones helds) helds past holding),
      subst (AllSound after start (z ∷ zones')) (sym now)
          (e, Sound-full (with_view pages z) held (zone_view z.first_page after) full s, sound),
      omega (arith, free),
      omega (arith, num),
    )

-- The loop of alloc_page gives a page where a zone has one, and else goes through all of them.
pub alloc_from-PageGiven :
    (start : ℕ) (zones : List Zone) (helds : List Held) (pages : PhysicalPages)
    → AllSound pages start zones helds
    → ((total_free zones ≡ 0) × (alloc_from 1 zones pages ≡ err enomem))
      ⊎ PageGiven start zones helds pages
unfolding AllSound alloc_from total_free with_view
alloc_from-PageGiven start [] [] pages s = inl (refl, refl)
alloc_from-PageGiven start [] (held ∷ helds) pages s = absurd s
alloc_from-PageGiven start (z ∷ zones) [] pages s = absurd s
alloc_from-PageGiven start (z ∷ zones) (held ∷ helds) pages s =
    elim (alloc_block-SinglePage (with_view pages z) held s.1) [
      | inr (block, z', gives, s', inside, new, first, num, free, kept) ↦ inr (
          alloc_from-here start z z' zones held helds block pages s gives s' inside new first num
            free kept)
      | inl (full, none_left) ↦
          elim (alloc_from-PageGiven (start + z.num_pages) zones helds pages s.2) [
            | inl (empty, fails) ↦ inl (
              omega (arith, full, empty),
              ap (λ o. given_or_next o z zones pages (alloc_from 1 zones pages)) none_left
                  ∙ ap (λ o. given_or_next (err enomem) z zones pages o) fails,
            )
            | inr given ↦
                inr (alloc_from-there start z zones held helds pages s none_left full given)
          ]
    ]
