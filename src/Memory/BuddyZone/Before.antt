-- ===== src/Memory/BuddyZone/Before.antt =====
-- A free of kernel/memory/BuddyZone.cpp does not write to the page before the zone.
use duck_os.Prelude.{
  ℕ, zero, suc, ◌+◌, ◌-◌, ◌*◌, ◌≡◌, refl, ◌∙◌, inl, inr, Bool-cases, Option, none, some, List, [],
  ◌∷◌, leb, ◌==◌, if◌then◌else◌,
}
use duck_os.Prelude.Outcome.{assert, Ensures, Ensures-at, Ensures->>=}
use duck_os.Memory.BuddyZone.{
  size_of_order, order_for, bit_index, BuddyOrder, get_bit, PageLinks, Pages, get_block, put_block,
  set_prev, set_next, is_none, is_block, unlink, remove_from_freelist, push_front,
  free_block_internal, free_at, free_block, Zone, is_size,
}

set_prev-before :
    (o to : Option ℕ) (pages : Pages)
    → (if is_none o then pages else set_prev o to pages).before ≡ pages.before
unfolding get_block put_block
set_prev-before none to pages = refl
set_prev-before (some x) to pages = refl

set_next-before :
    (o to : Option ℕ) (pages : Pages)
    → (if is_none o then pages else set_next o to pages).before ≡ pages.before
unfolding get_block put_block
set_next-before none to pages = refl
set_next-before (some x) to pages = refl

unlink-before : (block : ℕ) (pages : Pages) → (unlink block pages).before ≡ pages.before
unfolding unlink get_block put_block
unlink-before block pages =
    let links : PageLinks = pages.at block in
    let behind : Pages =
      if is_none links.next then pages else set_prev links.next links.prev pages in
    let again : PageLinks = behind.at block in
    set_next-before again.prev again.next behind ∙ set_prev-before links.next links.prev pages

remove_from_freelist-before :
    (block : ℕ) (head : Option ℕ) (pages : Pages)
    → Ensures (λ r. r.1.before ≡ pages.before) (remove_from_freelist block head pages)
unfolding remove_from_freelist
remove_from_freelist-before block head pages = elim (Bool-cases (is_block block head)) [
  | inl t ↦ rw t (
      Ensures->>= (λ r. r.1.before ≡ pages.before)
        (assert (is_none ((unlink block pages).at block).prev)) _
        (λ u e. unlink-before block pages))
  | inr f ↦ rw f (unlink-before block pages)
]

push_front-before :
    (order block : ℕ) (bucket : BuddyOrder) (above : List BuddyOrder) (pages : Pages)
    → (push_front order block bucket above pages).1.before ≡ pages.before
unfolding get_block put_block
push_front-before order block bucket above pages =
    set_prev-before bucket.freelist (some block) pages

free_block_internal-before :
    (order block : ℕ) (pages : Pages) (orders : List BuddyOrder)
    → Ensures (λ r. r.1.before ≡ pages.before) (free_block_internal order block pages orders)
unfolding free_block_internal
free_block_internal-before order block pages [] = tt
free_block_internal-before order block pages (bucket ∷ above) =
    elim (Bool-cases (get_bit order block bucket)) [
      | inl t ↦
          let first : ℕ = bit_index order block * 2 * size_of_order order in
          let buddy : ℕ = if block == first then first + size_of_order order else first in
          rw t (
            Ensures->>= (λ r. r.1.before ≡ pages.before)
              (remove_from_freelist buddy bucket.freelist pages) _
              (λ left e.
                Ensures->>= (λ r. r.1.before ≡ pages.before)
                  (free_block_internal (suc order) first left.1 above) _
                  (λ higher e'.
                    Ensures-at (λ r. r.1.before ≡ left.1.before) _ e'
                      (free_block_internal-before (suc order) first left.1 above)
                    ∙ Ensures-at (λ r. r.1.before ≡ pages.before) _ e
                        (remove_from_freelist-before buddy bucket.freelist pages))))
      | inr f ↦ rw f (push_front-before order block bucket above pages)
    ]

free_at-before :
    (skip order block : ℕ) (pages : Pages) (orders : List BuddyOrder)
    → Ensures (λ r. r.1.before ≡ pages.before) (free_at skip order block pages orders)
unfolding free_at
free_at-before zero order block pages orders = free_block_internal-before order block pages orders
free_at-before (suc skip) order block pages [] = tt
free_at-before (suc skip) order block pages (bucket ∷ above) =
    Ensures->>= (λ r. r.1.before ≡ pages.before) (free_at skip (suc order) block pages above) _
      (λ r e.
        Ensures-at (λ q. q.1.before ≡ pages.before) _ e
          (free_at-before skip (suc order) block pages above))

pub free_block-before :
    (page num : ℕ) (z : Zone)
    → Ensures (λ z'. z'.pages.before ≡ z.pages.before) (free_block page num z)
unfolding free_block
free_block-before page num z =
    let same : Zone → Type 0 = λ z'. z'.pages.before ≡ z.pages.before in
    Ensures->>= same (assert (leb z.first_page page)) _ (λ u e.
      Ensures->>= same (assert (leb (page + num) (z.first_page + z.num_pages))) _ (λ v f.
        Ensures->>= same (assert (is_size (order_for num) num)) _ (λ w g.
          Ensures->>= same (free_at (order_for num) 0 (page - z.first_page) z.pages z.orders) _
            (λ r e.
              Ensures-at (λ q. q.1.before ≡ z.pages.before) _ e
                (free_at-before (order_for num) 0 (page - z.first_page) z.pages z.orders)))))
