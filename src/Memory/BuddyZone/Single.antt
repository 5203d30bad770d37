-- ===== src/Memory/BuddyZone/Single.antt =====
-- Calls of kernel/memory/BuddyZone.cpp for a single page.
use duck_os.Prelude.{
  ℕ, suc, ◌+◌, ◌-◌, ◌≤◌, ◌<◌, ◌≡◌, ◌⊎◌, refl, sym, subst, inl, inr, arith, Bool-cases, List, ◌∷◌,
  ◌++◌, leb,
}
use duck_os.Prelude.Words.{sub_size, size_limit}
use duck_os.Prelude.Outcome.{ok, err, enomem, Ensures-at}
use duck_os.Memory.BuddyZone.{size_of_order, order_for, highest_bit, Zone, alloc_block, free_block}
use duck_os.Memory.BuddyZone.Listed.{ListedOrder}
use duck_os.Memory.BuddyZone.Counts.{hit, hit_self}
use duck_os.Memory.BuddyZone.Alloc.{Bounded, inside-less, inside-outside}
use duck_os.Memory.BuddyZone.Free.{inside-le}
use duck_os.Memory.BuddyZone.Blocks.{size_of_order-pos}
use duck_os.Memory.BuddyZone.Calls.{EmptyFrom, alloc_at-GivesAt}
use duck_os.Memory.BuddyZone.Tiles.{Held, holds, Tiled, IsTiled, given-Tiled, free_block-Tiled}
use duck_os.Memory.BuddyZone.Balance.{held_pages, held_pages-append, held_pages-AllEmpty}
use duck_os.Memory.BuddyZone.Before.{free_block-before}

-- A zone whose count of free pages is right.
pub record Sound (z : Zone) (held : Held) : Type 0 where
  pub tiled : IsTiled held z
  pub balanced : z.free_pages + held_pages held ≡ z.num_pages
  pub small : z.num_pages < size_limit

pub order_for-one : order_for 1 ≡ 0
unfolding order_for highest_bit
order_for-one = refl

size_of_order-zero : size_of_order 0 ≡ 1
unfolding size_of_order
size_of_order-zero = refl

one_page-size : size_of_order (order_for 1) ≡ 1
unfolding order_for highest_bit size_of_order
one_page-size = refl

-- No other page than one of the zone has other links.
abbrev pub KeptOutside : Zone → Zone → Type 0
KeptOutside z z' = (y : ℕ) → z.num_pages ≤ y → z'.pages.at y ≡ z.pages.at y

abbrev pub SinglePage : Zone → Held → Type 0
SinglePage z held =
    ((z.free_pages ≡ 0) × (alloc_block 1 z ≡ err enomem))
    ⊎ ((block : ℕ) × (z' : Zone) × (alloc_block 1 z ≡ ok (z.first_page + block, z'))
        × Sound z' ((block, 0) ∷ held)
        × (block < z.num_pages)
        × (holds held block ≡ 0)
        × (z'.first_page ≡ z.first_page)
        × (z'.num_pages ≡ z.num_pages)
        × (z.free_pages ≡ suc z'.free_pages)
        × KeptOutside z z')

one_page :
    (lists : List ListedOrder) (b block : ℕ) (held : Held) (z : Zone)
    → b ≡ block
    → Tiled z ((b, order_for 1) ∷ held) lists
    → Tiled z ((block, 0) ∷ held) lists
one_page lists b block held z e t =
    subst (λ x. Tiled z ((x, 0) ∷ held) lists) e
      (subst (λ o. Tiled z ((b, o) ∷ held) lists) order_for-one t)

pub alloc_block-SinglePage : (z : Zone) (held : Held) → Sound z held → SinglePage z held
unfolding alloc_block held_pages
alloc_block-SinglePage z held s = elim (Bool-cases (leb 1 z.free_pages)) [
  | inr few ↦ inl (ground (arith, few), rw few refl)
  | inl enough ↦
      let (lists, t) = s.tiled in
      let free : 1 ≤ z.free_pages = ground (arith, enough) in
      let bounded : Bounded 0 z.num_pages lists = λ page. omega (arith, t.covered page) in
      elim (alloc_at-GivesAt 0 (order_for 1) (order_for 1) z.num_pages z.pages z.orders lists
        (omega arith) t.levels bounded t.linked) [
          | inl (empty, stops) ↦ absurd (
              omega (
                arith,
                s.balanced,
                free,
                held_pages-AllEmpty z held lists t
                    (subst (λ o. EmptyFrom o lists) order_for-one empty),
              ))
          | inr (block, orders, pages, after, made, a, c, changed) ↦
              let z' : Zone = record z {
                orders = orders;
                pages = pages;
                free_pages = sub_size z.free_pages 1;
              } in
              let given =
                given-Tiled 1 z held lists after block (sub_size z.free_pages 1) orders pages t a c
                  changed in
              let same : z.first_page + block - z.first_page ≡ block = omega arith in
              let once : hit (size_of_order (order_for 1)) block block ≡ 1 =
                hit_self (size_of_order (order_for 1)) block (size_of_order-pos (order_for 1)) in
              inr (
                block,
                z',
                rw (enough, made) refl,
                (record {
                  tiled = (
                    after,
                    one_page after (z.first_page + block - z.first_page) block held z' same given,
                  );
                  balanced = omega (arith, s.balanced, s.small, free, size_of_order-zero);
                  small = s.small;
                }),
                inside-less z.num_pages block (omega (arith, c block, t.covered block, once)),
                omega (arith, c block, t.covered block, once, inside-le z.num_pages block),
                refl,
                refl,
                omega (arith, free, s.small, s.balanced),
                (λ y o.
                    changed.unchanged y
                      (omega (arith, t.covered y, inside-outside z.num_pages y o))),
              )
        ]
]

abbrev pub FreedPage : ℕ → Zone → Held → Type 0
FreedPage block z held =
    (z' : Zone) × (free_block (z.first_page + block) 1 z ≡ ok z')
    × Sound z' held
    × (z'.first_page ≡ z.first_page)
    × (z'.num_pages ≡ z.num_pages)
    × (z'.free_pages ≡ suc z.free_pages)
    × KeptOutside z z'
    × (z'.pages.before ≡ z.pages.before)

pub free_block-FreedPage :
    (block : ℕ) (z : Zone) (before behind : Held)
    → Sound z (before ++ (block, 0) ∷ behind)
    → FreedPage block z (before ++ behind)
unfolding held_pages
free_block-FreedPage block z before behind s =
    let (lists, t) = s.tiled in
    let held : Tiled z (before ++ (block, order_for 1) ∷ behind) lists =
      subst (λ o. Tiled z (before ++ (block, o) ∷ behind) lists) (sym order_for-one) t in
    let (z', back, tiled, (first, num, free, kept)) =
      free_block-Tiled 1 block z before behind lists one_page-size held in
    let count : z'.free_pages ≡ suc z.free_pages = omega (
      arith,
      free,
      s.balanced,
      s.small,
      held_pages-append before ((block, 0) ∷ behind),
      size_of_order-zero,
    ) in
    (
      z',
      back,
      record {
        tiled = tiled;
        balanced = omega (
          arith,
          count,
          num,
          s.balanced,
          held_pages-append before ((block, 0) ∷ behind),
          held_pages-append before behind,
          size_of_order-zero,
        );
        small = omega (arith, num, s.small);
      },
      first,
      num,
      count,
      kept,
      Ensures-at (λ y. y.pages.before ≡ z.pages.before) _ back
          (free_block-before (z.first_page + block) 1 z),
    )
