-- ===== src/Memory/BuddyZone/Tiles.antt =====
-- Zones of kernel/memory/BuddyZone.h that their free blocks and those that callers hold fill.
use duck_os.Prelude.{
  ℕ, ◌+◌, ◌-◌, ◌≤◌, ◌<◌, ◌≡◌, refl, sym, ap, subst, ◌∙◌, inl, inr, arith, none, List, [], ◌∷◌, ◌++◌,
  length, leb, leb-true, suc,
}
use duck_os.Prelude.Words.{add_size, sub_size}
use duck_os.Prelude.Outcome.{
  ok, fault, enomem, assert, require, >>=-eq-ok, assert-eq-ok, Ensures, Ensures-ok, Ensures->>=,
  ok-injective,
}
use duck_os.Memory.BuddyZone.{
  max_order, size_of_order, order_for, BuddyOrder, Pages, Zone, alloc_at, free_at, empty_orders,
  give_all, init, alloc_block, free_block, is_size,
}
use duck_os.Memory.BuddyZone.Listed.{ListedOrder}
use duck_os.Memory.BuddyZone.Blocks.{Aligned, size_of_order-pos}
use duck_os.Memory.BuddyZone.Counts.{hit, hit-inside, hit-last, cover, inside, Levels}
use duck_os.Memory.BuddyZone.Alloc.{Bounded, inside-less, inside-outside}
use duck_os.Memory.BuddyZone.Links.{AllLinked}
use duck_os.Memory.BuddyZone.Calls.{Changed, alloc_at-GivesAt, free_at-BackAt}
use duck_os.Memory.BuddyZone.Orders.{order-le, is_size-size, is_size-true}
use duck_os.Memory.BuddyZone.Start.{
  start_lists, length-start_lists, start-AllLinked, start-Levels, cover-start_lists,
}

-- Blocks in the hands of callers, each with its order.
abbrev pub Held : Type 0
Held = List (ℕ × ℕ)

-- How many of the held blocks cover a page.
unfoldable pub holds : Held → ℕ → ℕ
holds [] page = 0
holds ((block, order) ∷ held) page = hit (size_of_order order) block page + holds held page

abbrev pub AllAligned : Held → Type 0
AllAligned [] = Unit {0}
AllAligned ((block, order) ∷ held) = Aligned order block × AllAligned held

-- The zone's linked lists hold free blocks, buddies never apart from each other in the bitmaps, and these
-- and the held blocks cover each page of the zone exactly once and no other page.
pub record Tiled (z : Zone) (held : Held) (lists : List ListedOrder) : Type 0 where
  pub covered : (page : ℕ) → cover 0 lists page + holds held page ≡ inside z.num_pages page
  pub levels : Levels 0 z.num_pages lists
  pub linked : AllLinked z.pages z.orders lists
  pub some_orders : 0 < length lists
  pub few_orders : length lists ≤ suc max_order
  pub whole : z.num_pages ≡ size_of_order (length lists - 1)
  pub aligned : AllAligned held

holds-append : (xs ys : Held) (page : ℕ) → holds (xs ++ ys) page ≡ holds xs page + holds ys page
unfolding holds
holds-append [] ys page = omega arith
holds-append ((block, order) ∷ xs) ys page = omega (arith, holds-append xs ys page)

-- A zone of as many pages as its highest order has, with its free blocks linked, is tiled by them.
start-Tiled :
    (first num order free : ℕ) (pages : Pages)
    → num ≡ size_of_order order
    → order ≤ max_order
    → (pages.at 0).next ≡ none
    → (pages.at 0).prev ≡ none
    → Tiled
        (record {
          orders = give_all 0 (empty_orders order 0 num);
          pages = pages;
          first_page = first;
          num_pages = num;
          free_pages = free;
        })
        []
        (start_lists order 0 num)
unfolding holds
start-Tiled first num order free pages e h n p =
    let top : order ≡ 0 + order = omega arith in
    record {
      covered = λ page. omega (
        arith,
        cover-start_lists order 0 num page,
        ap (λ o. hit (size_of_order o) 0 page) (sym top),
        ap (λ s. hit s 0 page) (sym e),
        hit-inside num page,
      );
      levels = start-Levels order 0 num (e ∙ ap size_of_order top);
      linked = start-AllLinked order 0 num pages n p;
      some_orders = omega (arith, length-start_lists order 0 num);
      few_orders = omega (arith, length-start_lists order 0 num, h);
      whole = e ∙ ap size_of_order (omega (arith, length-start_lists order 0 num));
      aligned = tt;
    }

abbrev pub IsTiled : Held → Zone → Type 0
IsTiled held z = (lists : List ListedOrder) × Tiled z held lists

pub init-Tiled :
    (first num : ℕ) (pages : Pages) (z : Zone)
    → init first num pages ≡ ok z
    → (pages.at 0).next ≡ none
    → (pages.at 0).prev ≡ none
    → IsTiled [] z
unfolding init
init-Tiled first num pages z e n p =
    let (u, power, rest) = >>=-eq-ok (assert (is_size (order_for num) num)) _ e in
    let (w, small, made) = >>=-eq-ok (assert (leb (order_for num) max_order)) _ rest in
    let size : num ≡ size_of_order (order_for num) =
      sym (is_size-size (order_for num) num (assert-eq-ok (is_size (order_for num) num) power)) in
    let low : order_for num ≤ max_order =
      ground (arith, assert-eq-ok (leb (order_for num) max_order) small) in
    Ensures-ok (IsTiled []) _ refl made (
      start_lists (order_for num) 0 num,
      start-Tiled first num (order_for num) num pages size low n p,
    )

-- A block that the zone gives becomes one that is held.
pub given-Tiled :
    (num : ℕ) (z : Zone) (held : Held) (lists after : List ListedOrder) (block free : ℕ)
    (orders : List BuddyOrder) (pages : Pages)
    → Tiled z held lists
    → Aligned (order_for num) block
    → ((page : ℕ)
        → cover 0 lists page ≡ hit (size_of_order (order_for num)) block page + cover 0 after page)
    → Changed 0 z.num_pages z.pages lists orders pages after (λ y. cover 0 lists y ≡ 0)
    → Tiled
        (record z { orders = orders; pages = pages; free_pages = free })
        ((z.first_page + block - z.first_page, order_for num) ∷ held)
        after
unfolding holds
given-Tiled num z held lists after block free orders pages t a c changed =
    let same : z.first_page + block - z.first_page ≡ block = omega arith in
    record {
      covered = λ page. omega (
        arith,
        t.covered page,
        c page,
        ap (λ b. hit (size_of_order (order_for num)) b page) same,
      );
      levels = changed.kept;
      linked = changed.linked;
      some_orders = omega (arith, t.some_orders, changed.same_length);
      few_orders = omega (arith, t.few_orders, changed.same_length);
      whole = t.whole ∙ ap (λ n. size_of_order (n - 1)) (sym changed.same_length);
      aligned = (subst (Aligned (order_for num)) (sym same) a, t.aligned);
    }

pub alloc_block-Tiled :
    (num : ℕ) (z : Zone) (held : Held) (lists : List ListedOrder)
    → Tiled z held lists
    → Ensures (λ r. IsTiled ((r.0 - z.first_page, order_for num) ∷ held) r.1) (alloc_block num z)
unfolding alloc_block
alloc_block-Tiled num z held lists t =
    let result : ℕ × Zone → Type 0 =
      λ r. IsTiled ((r.0 - z.first_page, order_for num) ∷ held) r.1 in
    let bounded : Bounded 0 z.num_pages lists = λ page. omega (arith, t.covered page) in
    let gives =
      alloc_at-GivesAt 0 (order_for num) (order_for num) z.num_pages z.pages z.orders lists
        (omega arith) t.levels bounded t.linked in
    Ensures->>= result (require (leb num z.free_pages) enomem) _ (λ u enough.
      Ensures->>= result (alloc_at (order_for num) 0 z.pages z.orders) _ (λ given got. elim gives [
        | inl (empty, stops) ↦ absurd (fault-ne-ok (sym stops ∙ got))
        | inr (block, orders, pages, after, made, a, c, changed) ↦
            subst
              (λ g. result (
                z.first_page + g.0,
                record z { orders = g.1; pages = g.2; free_pages = sub_size z.free_pages num },
              ))
              (ok-injective (sym made ∙ got))
              (
                after,
                given-Tiled num z held lists after block (sub_size z.free_pages num) orders pages t
                    a c changed,
              )
      ]))
  where
    fault-ne-ok : {A : Type 0} {a : A} → fault ≡ ok a → ⊥
    fault-ne-ok e = cc

AllAligned-middle :
    (before behind : Held) (block order : ℕ)
    → AllAligned (before ++ (block, order) ∷ behind)
    → Aligned order block × AllAligned (before ++ behind)
AllAligned-middle [] behind block order a = a
AllAligned-middle (h ∷ before) behind block order a =
    let rest = AllAligned-middle before behind block order a.1 in (rest.0, (a.0, rest.1))

-- A call whose arguments its assertions let pass.
free_block-back :
    (num block : ℕ) (z : Zone) (orders : List BuddyOrder) (pages : Pages)
    → size_of_order (order_for num) ≡ num
    → order_for num < 32
    → block + num ≤ z.num_pages
    → free_at (order_for num) 0 block z.pages z.orders ≡ ok (orders, pages)
    → free_block (z.first_page + block) num z
      ≡ ok (record z { orders = orders; pages = pages; free_pages = add_size z.free_pages num })
unfolding free_block
free_block-back num block z orders pages e o h back =
    let low = leb-true z.first_page (z.first_page + block) (omega arith) in
    let high = leb-true (z.first_page + block + num) (z.first_page + z.num_pages) (omega arith) in
    let size = is_size-true (order_for num) num o e in
    let same : z.first_page + block - z.first_page ≡ block = omega arith in
    rw (low, high, size, same, back) refl

-- What a free changes beside the orders.
abbrev pub FreeChanges : ℕ → Zone → Zone → Type 0
FreeChanges num z z' =
    (z'.first_page ≡ z.first_page)
    × (z'.num_pages ≡ z.num_pages)
    × (z'.free_pages ≡ add_size z.free_pages num)
    × ((y : ℕ) → z.num_pages ≤ y → z'.pages.at y ≡ z.pages.at y)

-- A block that is held goes back.
pub free_block-Tiled :
    (num block : ℕ) (z : Zone) (before behind : Held) (lists : List ListedOrder)
    → size_of_order (order_for num) ≡ num
    → Tiled z (before ++ (block, order_for num) ∷ behind) lists
    → (z' : Zone) × (free_block (z.first_page + block) num z ≡ ok z')
      × IsTiled (before ++ behind) z'
      × FreeChanges num z z'
unfolding free_block holds
free_block-Tiled num block z before behind lists e t =
    let order : ℕ = order_for num in
    let same : z.first_page + block - z.first_page ≡ block = omega arith in
    let shared : (page : ℕ)
        → cover 0 lists page + hit (size_of_order order) block page + holds (before ++ behind) page
          ≡ inside z.num_pages page =
      λ page. omega (
        arith,
        t.covered page,
        holds-append before ((block, order) ∷ behind) page,
        holds-append before behind page,
      ) in
    let last : block + size_of_order order - 1 < z.num_pages = inside-less z.num_pages _ (
      omega (
        arith,
        shared (block + size_of_order order - 1),
        hit-last (size_of_order order) block (size_of_order-pos order),
      )) in
    let fits : order ≤ length lists - 1 =
      order-le order (length lists - 1) (omega (arith, last, t.whole, size_of_order-pos order)) in
    let held = AllAligned-middle before behind block order t.aligned in
    let (orders, pages, after, back, covered, changed) =
      free_at-BackAt 0 order order z.num_pages block z.pages z.orders lists (omega arith)
        (omega (arith, fits, t.some_orders)) (t.whole ∙ ap size_of_order (omega arith)) t.levels
        held.0 (λ page. omega (arith, shared page)) t.linked in
    let z' : Zone = record z {
      orders = orders;
      pages = pages;
      free_pages = add_size z.free_pages num;
    } in
    (
      z',
      free_block-back num block z orders pages e (omega (arith, fits, t.few_orders))
          (omega (arith, last, e, size_of_order-pos order)) back,
      (
        after,
        record {
          covered = λ page. omega (arith, shared page, covered page);
          levels = changed.kept;
          linked = changed.linked;
          some_orders = omega (arith, t.some_orders, changed.same_length);
          few_orders = omega (arith, t.few_orders, changed.same_length);
          whole = t.whole ∙ ap (λ n. size_of_order (n - 1)) (sym changed.same_length);
          aligned = held.1;
        },
      ),
      (
        refl,
        refl,
        refl,
        λ y o. changed.unchanged y (omega (arith, shared y, inside-outside z.num_pages y o)),
      ),
    )
