-- ===== src/Memory/BuddyZone/Calls.antt =====
-- `alloc_block` and `free_block` of kernel/memory/BuddyZone.cpp start at an order, beside the lower ones.
use duck_os.Prelude.{
  ℕ, zero, suc, ◌+◌, ◌-◌, ◌≤◌, ◌<◌, ◌≡◌, ◌⊎◌, refl, sym, ap, subst, ◌∙◌, inl, inr, arith, none,
  List, [], ◌∷◌, length,
}
use duck_os.Prelude.Outcome.{Outcome, ok, fault}
use duck_os.Memory.BuddyZone.{
  size_of_order, BuddyOrder, Pages, Given, free_block_internal, alloc_at, free_at,
}
use duck_os.Memory.BuddyZone.Listed.{ListedOrder}
use duck_os.Memory.BuddyZone.Blocks.{Aligned, size_of_order-pos}
use duck_os.Memory.BuddyZone.Counts.{hit, cover, inside, count, hits-count, Levels}
use duck_os.Memory.BuddyZone.Alloc.{Bounded, Bounded-above, AllEmpty}
use duck_os.Memory.BuddyZone.Free.{inside-le}
use duck_os.Memory.BuddyZone.Links.{Chain-frame, AllLinked}
use duck_os.Memory.BuddyZone.Refine.{Bounded-once, alloc_block_internal-Gives}
use duck_os.Memory.BuddyZone.Release.{free_block_internal-TakesBack}

-- No block of the order `skip` orders up, or of a higher one, is free.
abbrev pub EmptyFrom : ℕ → List ListedOrder → Type 0
EmptyFrom zero lists = AllEmpty lists
EmptyFrom (suc skip) [] = Unit {0}
EmptyFrom (suc skip) (list ∷ lists) = EmptyFrom skip lists

-- A change of the free blocks of an order and of those above it, with the pages that it may change.
pub record Changed (level num_pages : ℕ) (pages : Pages) (lists : List ListedOrder)
    (orders : List BuddyOrder) (pages' : Pages) (after : List ListedOrder) (outside : ℕ → Type 0)
    : Type 0 where
  pub kept : Levels level num_pages after
  pub same_length : length after ≡ length lists
  pub linked : AllLinked pages' orders after
  pub unchanged : (y : ℕ) → outside y → pages'.at y ≡ pages.at y

abbrev pub GivesAt : ℕ → ℕ → ℕ → ℕ → Pages → List ListedOrder → Outcome Given → Type 0
GivesAt level order skip num_pages pages lists result =
    (EmptyFrom skip lists × (result ≡ fault))
    ⊎ ((block : ℕ) × (orders : List BuddyOrder) × (pages' : Pages) × (after : List ListedOrder)
        × (result ≡ ok (block, orders, pages'))
        × Aligned order block
        × ((page : ℕ)
            → cover level lists page
              ≡ hit (size_of_order order) block page + cover level after page)
        × Changed level num_pages pages lists orders pages' after (λ y. cover level lists y ≡ 0))

above-Changed :
    (level num_pages : ℕ) (pages pages' : Pages) (bucket : BuddyOrder)
    (above orders : List BuddyOrder) (list : ListedOrder) (lists after : List ListedOrder)
    (inner outer : ℕ → Type 0)
    → Levels level num_pages (list ∷ lists)
    → AllLinked pages (bucket ∷ above) (list ∷ lists)
    → ((y : ℕ) → 0 < count list.freelist y → inner y)
    → ((y : ℕ) → outer y → inner y)
    → Changed (suc level) num_pages pages lists orders pages' after inner
    → Changed level num_pages pages (list ∷ lists) (bucket ∷ orders) pages' (list ∷ after) outer
above-Changed level num_pages pages pages' bucket above orders list lists after inner outer v linked
      here there c =
    record {
      kept = (v.0, c.kept);
      same_length = ap suc c.same_length;
      linked = (
        linked.0,
        Chain-frame pages pages' none bucket.freelist list.freelist
            (λ y d. c.unchanged y (here y d)) linked.1,
        c.linked,
      );
      unchanged = λ y o. c.unchanged y (there y o);
    }

pub alloc_at-GivesAt :
    (level order skip num_pages : ℕ) (pages : Pages) (orders : List BuddyOrder)
    (lists : List ListedOrder)
    → order ≡ level + skip
    → Levels level num_pages lists
    → Bounded level num_pages lists
    → AllLinked pages orders lists
    → GivesAt level order skip num_pages pages lists (alloc_at skip level pages orders)
unfolding alloc_at cover
alloc_at-GivesAt level order zero num_pages pages orders lists e v h linked =
    let same : order ≡ level = omega arith in
    elim (alloc_block_internal-Gives level num_pages pages orders lists v h linked) [
      | inl stops ↦ inl stops
      | inr (block, after, taken, (orders', pages', gives, linked', outside)) ↦ inr (
        block,
        orders',
        pages',
        after,
        gives,
        subst (λ o. Aligned o block) (sym same) taken.block_aligned,
        (λ page.
            subst
              (λ o.
                cover level lists page ≡ hit (size_of_order o) block page + cover level after page)
              (sym same) (taken.covered page)),
        record {
          kept = taken.kept;
          same_length = taken.same_length;
          linked = linked';
          unchanged = outside;
        },
      )
    ]
alloc_at-GivesAt level order (suc skip) num_pages pages [] [] e v h linked = inl (tt, refl)
alloc_at-GivesAt level order (suc skip) num_pages pages [] (list ∷ lists) e v h linked =
    absurd linked
alloc_at-GivesAt level order (suc skip) num_pages pages (bucket ∷ above) [] e v h linked =
    absurd linked
alloc_at-GivesAt level order (suc skip) num_pages pages (bucket ∷ above) (list ∷ lists) e v h
      linked =
    elim (alloc_at-GivesAt (suc level) order skip num_pages pages above lists (omega arith) v.1
      (Bounded-above level num_pages list lists h) linked.2) [
        | inl (empty, stops) ↦ inl (empty, rw stops refl)
        | inr (block, orders', pages', after, gives, aligned, covered, changed) ↦ inr (
          block,
          bucket ∷ orders',
          pages',
          list ∷ after,
          rw gives refl,
          aligned,
          (λ page. omega (arith, covered page)),
          above-Changed level num_pages pages pages' bucket above orders' list lists after _ _ v
              linked (λ y d. omega (arith, Bounded-once level num_pages list lists h y))
              (λ y z. omega (arith, z)) changed,
        )
      ]

abbrev pub BackAt :
    ℕ → ℕ → ℕ → Pages → List ListedOrder → ℕ → Outcome (List BuddyOrder × Pages) → Type 0
BackAt level order num_pages pages lists block result =
    (orders : List BuddyOrder) × (pages' : Pages) × (after : List ListedOrder) × (result
      ≡ ok (orders, pages'))
    × ((page : ℕ)
        → cover level after page ≡ cover level lists page + hit (size_of_order order) block page)
    × Changed level num_pages pages lists orders pages' after
        (λ y. cover level lists y + hit (size_of_order order) block y ≡ 0)

pub free_at-BackAt :
    (level order skip num_pages block : ℕ) (pages : Pages) (orders : List BuddyOrder)
    (lists : List ListedOrder)
    → order ≡ level + skip
    → skip < length lists
    → num_pages ≡ size_of_order (level + (length lists - 1))
    → Levels level num_pages lists
    → Aligned order block
    → ((page : ℕ)
        → cover level lists page + hit (size_of_order order) block page ≤ inside num_pages page)
    → AllLinked pages orders lists
    → BackAt level order num_pages pages lists block (free_at skip level block pages orders)
unfolding free_at cover
free_at-BackAt level order skip num_pages block pages [] [] e s n v a h linked =
    absurd (omega arith)
free_at-BackAt level order skip num_pages block pages [] (list ∷ lists) e s n v a h linked =
    absurd linked
free_at-BackAt level order skip num_pages block pages (bucket ∷ above) [] e s n v a h linked =
    absurd linked
free_at-BackAt level order zero num_pages block pages (bucket ∷ above) (list ∷ lists) e s n v a h
      linked =
    let same : order ≡ level = omega arith in
    let room =
      subst
        (λ o.
          (page : ℕ)
          → cover level (list ∷ lists) page + hit (size_of_order o) block page
            ≤ inside num_pages page)
        same h in
    let (after, orders', pages', gives, freed, linked', outside) =
      free_block_internal-TakesBack level num_pages block pages bucket above list lists
        (n ∙ ap size_of_order (omega arith)) v (subst (λ o. Aligned o block) same a) room linked in
    subst
      (λ o.
        BackAt level o num_pages pages (list ∷ lists) block
          (free_block_internal level block pages (bucket ∷ above)))
      (sym same)
      (
        orders',
        pages',
        after,
        gives,
        freed.covered,
        record {
          kept = freed.kept;
          same_length = freed.same_length;
          linked = linked';
          unchanged = outside;
        },
      )
free_at-BackAt level order (suc skip) num_pages block pages (bucket ∷ above) (list ∷ lists) e s n v
      a h linked =
    let (orders', pages', after, gives, covered, changed) =
      free_at-BackAt (suc level) order skip num_pages block pages above lists (omega arith)
        (omega arith) (n ∙ ap size_of_order (omega (arith, s))) v.1 a
        (λ page. omega (arith, h page)) linked.2 in
    (
      bucket ∷ orders',
      pages',
      list ∷ after,
      rw gives refl,
      (λ page. omega (arith, covered page)),
      above-Changed level num_pages pages pages' bucket above orders' list lists after _ _ v linked
          (λ y d. omega (
            arith,
            h y,
            hits-count (size_of_order level) list.freelist y (size_of_order-pos level),
            inside-le num_pages y,
          ))
          (λ y z. omega (arith, z)) changed,
    )
