-- ===== src/Memory/BuddyZone/Links.antt =====
-- The linked lists of free blocks in kernel/memory/BuddyZone.cpp, and what a write to a page leaves of them.
use duck_os.Prelude.{
  ℕ, suc, ◌≤◌, ◌<◌, ◌≡◌, ◌≢◌, refl, sym, ap, subst, ◌∙◌, inl, inr, arith, Bool-cases, true, ◌==◌,
  Option, none, some, List, [], ◌∷◌,
}
use duck_os.Memory.BuddyZone.{
  size_of_order, BuddyOrder, PageLinks, Pages, get_block, put_block, set_prev,
}
use duck_os.Memory.BuddyZone.Listed.{ListedOrder}
use duck_os.Memory.BuddyZone.Blocks.{size_of_order-pos}
use duck_os.Memory.BuddyZone.Counts.{cover, count, hits-count}

-- A list from `cur` on, whose first block has `prev` before it.
abbrev pub Chain : Pages → Option ℕ → Option ℕ → List ℕ → Type 0
Chain pages prev cur [] = cur ≡ none
Chain pages prev cur (x ∷ xs) =
    (cur ≡ some x) × ((pages.at x).prev ≡ prev) × Chain pages (some x) (pages.at x).next xs

-- Orders whose linked lists hold the blocks of the listed orders.
abbrev pub AllLinked : Pages → List BuddyOrder → List ListedOrder → Type 0
AllLinked pages [] [] = Unit {0}
AllLinked pages [] (list ∷ lists) = ⊥
AllLinked pages (bucket ∷ above) [] = ⊥
AllLinked pages (bucket ∷ above) (list ∷ lists) =
    (bucket.block_map ≡ list.block_map)
    × Chain pages none bucket.freelist list.freelist
    × AllLinked pages above lists

pub some-injective : {x y : ℕ} → some x ≡ some y → x ≡ y
some-injective {x = x} e = ap (λ o. elim o [ none ↦ x | some z ↦ z ]) e

pub put_block-other :
    (o : Option ℕ) (links : PageLinks) (pages : Pages) (y : ℕ)
    → o ≢ some y
    → (put_block o links pages).at y ≡ pages.at y
unfolding put_block
put_block-other none links pages y h = refl
put_block-other (some x) links pages y h = elim (Bool-cases (y == x)) [
  | inl e ↦ let same : x ≡ y = ground (arith, e) in absurd (h (ap some same))
  | inr e ↦ rw e refl
]

pub put_block_self :
    (x : ℕ) (links : PageLinks) (pages : Pages) → (put_block (some x) links pages).at x ≡ links
unfolding put_block
put_block_self x links pages = let same : (x == x) ≡ true = ground arith in rw same refl

-- Pages that agree on the blocks of a list have it.
pub Chain-frame :
    (p q : Pages) (prev cur : Option ℕ) (xs : List ℕ)
    → ((y : ℕ) → 0 < count xs y → q.at y ≡ p.at y)
    → Chain p prev cur xs
    → Chain q prev cur xs
unfolding count
Chain-frame p q prev cur [] h v = v
Chain-frame p q prev cur (x ∷ xs) h v =
    let same : q.at x ≡ p.at x = h x (ground arith) in
    (
      v.0,
      ap (λ l. l.prev) same ∙ v.1,
      rw same (Chain-frame p q (some x) (p.at x).next xs (λ y c. h y (omega arith)) v.2),
    )

pub AllLinked-frame :
    (order : ℕ) (p q : Pages) (orders : List BuddyOrder) (lists : List ListedOrder)
    → ((y : ℕ) → 0 < cover order lists y → q.at y ≡ p.at y)
    → AllLinked p orders lists
    → AllLinked q orders lists
unfolding cover
AllLinked-frame order p q [] [] h v = v
AllLinked-frame order p q [] (list ∷ lists) h v = v
AllLinked-frame order p q (bucket ∷ above) [] h v = v
AllLinked-frame order p q (bucket ∷ above) (list ∷ lists) h v = (
  v.0,
  Chain-frame p q none bucket.freelist list.freelist
      (λ y c.
        h y (
          omega
            (arith, hits-count (size_of_order order) list.freelist y (size_of_order-pos order))))
      v.1,
  AllLinked-frame (suc order) p q above lists (λ y c. h y (omega arith)) v.2,
)

-- The block that the head becomes when the head is taken: its previous one is none.
pub Chain-set_prev :
    (p : Pages) (prev prev' cur : Option ℕ) (xs : List ℕ)
    → ((y : ℕ) → count xs y ≤ 1)
    → Chain p prev cur xs
    → Chain (set_prev cur prev' p) prev' cur xs
unfolding count get_block
Chain-set_prev p prev prev' cur [] once v = v
Chain-set_prev p prev prev' cur (x ∷ xs) once v =
    let q : Pages = set_prev (some x) prev' p in
    let here : q.at x ≡ record (p.at x) { prev = prev' } =
      put_block_self x (record (p.at x) { prev = prev' }) p in
    let elsewhere : (y : ℕ) → x ≢ y → q.at y ≡ p.at y = λ y ne.
      put_block-other (some x) (record (p.at x) { prev = prev' }) p y
        (λ e. ne (some-injective e)) in
    subst (λ c. Chain (set_prev c prev' p) prev' c (x ∷ xs)) (sym v.0)
      (
        refl,
        ap (λ l. l.prev) here,
        rw here
            (Chain-frame p q (some x) (p.at x).next xs (λ y c. elsewhere y (not_again y c)) v.2),
      )
  where
    not_again : (y : ℕ) → 0 < count xs y → x ≢ y
    not_again y c = ground (arith, once y)

-- Pages outside of the blocks that an order and those above it cover.
abbrev pub SameOutside : ℕ → List ListedOrder → Pages → Pages → Type 0
SameOutside order lists p q = (y : ℕ) → cover order lists y ≡ 0 → q.at y ≡ p.at y

pub Chain-cur :
    (p : Pages) (prev cur : Option ℕ) (xs : List ℕ) (y : ℕ)
    → Chain p prev cur xs
    → count xs y ≡ 0
    → cur ≢ some y
unfolding count
Chain-cur p prev cur [] y v z = λ e. cc
Chain-cur p prev cur (x ∷ xs) y v z =
    λ e. let same : x ≡ y = some-injective (sym v.0 ∙ e) in absurd (ground (arith, same))

-- A write to the head of a list leaves the blocks that are not in it.
pub set_prev-outside :
    (p : Pages) (prev prev' cur : Option ℕ) (xs : List ℕ) (y : ℕ)
    → Chain p prev cur xs
    → count xs y ≡ 0
    → (set_prev cur prev' p).at y ≡ p.at y
set_prev-outside p prev prev' cur xs y v z =
    put_block-other cur (record (get_block cur p) { prev = prev' }) p y
      (Chain-cur p prev cur xs y v z)
