-- ===== src/Memory/BuddyZone/Balance.antt =====
-- `m_free_pages` of kernel/memory/BuddyZone.cpp and the pages that are free.
use duck_os.Prelude.{ℕ, zero, suc, ◌+◌, ◌-◌, ◌≤◌, ◌<◌, ◌≡◌, refl, ap, arith, List, [], ◌∷◌, ◌++◌}
use native.Mathlib.Decide.{dec_lt}
use duck_os.Memory.BuddyZone.{size_of_order, Zone}
use duck_os.Memory.BuddyZone.Listed.{ListedOrder}
use duck_os.Memory.BuddyZone.Blocks.{size_of_order-pos}
use duck_os.Memory.BuddyZone.Counts.{hit, hits, hit-last, cover, inside}
use duck_os.Memory.BuddyZone.Alloc.{AllEmpty, inside-less, inside-outside}
use duck_os.Memory.BuddyZone.Tiles.{Held, holds, Tiled}

-- The sum of a function over the pages below a bound.
unfoldable sum_below : ℕ → (ℕ → ℕ) → ℕ
sum_below zero f = 0
sum_below (suc n) f = f n + sum_below n f

unfoldable pub held_pages : Held → ℕ
held_pages [] = 0
held_pages ((block, order) ∷ held) = size_of_order order + held_pages held

pub held_pages-append : (xs ys : Held) → held_pages (xs ++ ys) ≡ held_pages xs + held_pages ys
unfolding held_pages
held_pages-append [] ys = omega arith
held_pages-append ((block, order) ∷ xs) ys = omega (arith, held_pages-append xs ys)

sum_below-hit : (n size block : ℕ) → sum_below n (hit size block) ≡ n - block - (n - (block + size))
unfolding sum_below hit
sum_below-hit zero size block = omega arith
sum_below-hit (suc n) size block = ground (arith, sum_below-hit n size block)

sum_below-add : (n : ℕ) (f g : ℕ → ℕ) → sum_below n (λ p. f p + g p) ≡ sum_below n f + sum_below n g
unfolding sum_below
sum_below-add zero f g = omega arith
sum_below-add (suc n) f g = omega (arith, sum_below-add n f g)

sum_below-inside : (n num : ℕ) → n ≤ num → sum_below n (inside num) ≡ n
unfolding sum_below inside
sum_below-inside zero num h = refl
sum_below-inside (suc n) num h = ground (arith, sum_below-inside n num (omega arith))

sum_below-cong : (n : ℕ) (f g : ℕ → ℕ) → ((p : ℕ) → f p ≡ g p) → sum_below n f ≡ sum_below n g
unfolding sum_below
sum_below-cong zero f g e = refl
sum_below-cong (suc n) f g e = omega (arith, e n, sum_below-cong n f g e)

sum_below-zero : (n : ℕ) → sum_below n (λ p. 0) ≡ 0
unfolding sum_below
sum_below-zero zero = refl
sum_below-zero (suc n) = omega (arith, sum_below-zero n)

sum_below-term : (n p : ℕ) (f : ℕ → ℕ) → p < n → f p ≤ sum_below n f
unfolding sum_below
sum_below-term zero p f h = absurd (omega arith)
sum_below-term (suc n) p f h = elim (dec_lt p n) [
  | yes l ↦ omega (arith, sum_below-term n p f l)
  | no nl ↦ let same : p ≡ n = omega arith in omega (arith, ap f same)
]

-- Blocks that lie in the zone have as many pages together as they cover.
sum_below-holds :
    (num : ℕ) (held : Held)
    → ((page : ℕ) → holds held page ≤ inside num page)
    → sum_below num (holds held) ≡ held_pages held
unfolding holds held_pages
sum_below-holds num [] h = sum_below-zero num
sum_below-holds num ((block, order) ∷ held) h =
    let size : ℕ = size_of_order order in
    let last : block + size - 1 < num =
      inside-less num (block + size - 1)
        (omega (arith, h (block + size - 1), hit-last size block (size_of_order-pos order))) in
    omega (
      arith,
      last,
      size_of_order-pos order,
      sum_below-add num (hit size block) (holds held),
      sum_below-hit num size block,
      sum_below-holds num held (λ page. omega (arith, h page)),
    )

-- The free blocks and the held ones have all pages of the zone together.
sum_below-cover :
    (z : Zone) (held : Held) (lists : List ListedOrder)
    → Tiled z held lists
    → sum_below z.num_pages (cover 0 lists) + held_pages held ≡ z.num_pages
sum_below-cover z held lists t = omega (
  arith,
  sum_below-holds z.num_pages held (λ page. omega (arith, t.covered page)),
  sum_below-add z.num_pages (cover 0 lists) (holds held),
  sum_below-cong z.num_pages (λ page. cover 0 lists page + holds held page) (inside z.num_pages)
      t.covered,
  sum_below-inside z.num_pages z.num_pages (omega arith),
)

cover-AllEmpty :
    (order : ℕ) (lists : List ListedOrder) (page : ℕ) → AllEmpty lists → cover order lists page ≡ 0
unfolding cover hits
cover-AllEmpty order [] page e = refl
cover-AllEmpty order (list ∷ lists) page (e, f) =
    rw e (omega (arith, cover-AllEmpty (suc order) lists page f))

-- Where no block is free, the held ones have all pages.
pub held_pages-AllEmpty :
    (z : Zone) (held : Held) (lists : List ListedOrder)
    → Tiled z held lists
    → AllEmpty lists
    → held_pages held ≡ z.num_pages
held_pages-AllEmpty z held lists t e = omega (
  arith,
  sum_below-cover z held lists t,
  sum_below-cong z.num_pages (cover 0 lists) (λ page. 0) (λ page. cover-AllEmpty 0 lists page e),
  sum_below-zero z.num_pages,
)

-- Where the held blocks have all pages, none is free.
pub cover-held_pages :
    (z : Zone) (held : Held) (lists : List ListedOrder) (page : ℕ)
    → Tiled z held lists
    → held_pages held ≡ z.num_pages
    → cover 0 lists page ≡ 0
cover-held_pages z held lists page t e = elim (dec_lt page z.num_pages) [
  | yes l ↦
      omega
        (arith, sum_below-cover z held lists t, sum_below-term z.num_pages page (cover 0 lists) l)
  | no nl ↦ omega (arith, t.covered page, inside-outside z.num_pages page (omega arith))
]
