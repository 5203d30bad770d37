-- ===== src/Memory/BuddyZone/Unlink.antt =====
-- `remove_from_freelist` of kernel/memory/BuddyZone.cpp: a block leaves its linked list.
use duck_os.Prelude.{
  ℕ, ◌≤◌, ◌<◌, ◌≡◌, ◌≢◌, refl, sym, ap, subst, ◌∙◌, inl, inr, arith, Bool-cases, true, false, ◌==◌,
  if◌then◌else◌, Option, none, some, List, [], ◌∷◌,
}
use duck_os.Prelude.Outcome.{ok}
use duck_os.Memory.BuddyZone.{PageLinks, Pages, is_block, unlink, remove_from_freelist}
use duck_os.Memory.BuddyZone.Listed.{remove}
use duck_os.Memory.BuddyZone.Counts.{count}
use duck_os.Memory.BuddyZone.Links.{Chain, Chain-frame, some-injective}
use duck_os.Memory.BuddyZone.Neighbours.{next-member, next-not_self, prev-cases}
use duck_os.Memory.BuddyZone.Rewired.{
  is_block-other, is_block_self, unlink-at, unlink-next, unlink-prev, unlink-other,
}

-- The list behind a first block, once that is unlinked.
unlink-first :
    (p : Pages) (prev : Option ℕ) (m : ℕ) (xs : List ℕ)
    → (p.at m).next ≢ some m
    → (p.at m).prev ≡ prev
    → Chain p (some m) (p.at m).next xs
    → ((y : ℕ) → count xs y ≤ 1)
    → ((y : ℕ) → 0 < count xs y → prev ≢ some y)
    → Chain (unlink m p) prev (p.at m).next xs
unfolding count
unlink-first p prev m [] h b v once apart = v
unlink-first p prev m (y ∷ ys) h b v once apart =
    let u : Pages = unlink m p in
    let here : 0 < count (y ∷ ys) y = ground arith in
    let not_before : (p.at m).prev ≢ some y = λ e. apart y here (sym b ∙ e) in
    let next_kept : (u.at y).next ≡ (p.at y).next = unlink-next m p y h not_before in
    let others : (z : ℕ) → 0 < count ys z → u.at z ≡ p.at z = λ z c.
      unlink-other m p z h (λ e. absurd (again z c (some-injective (sym v.0 ∙ e))))
        (λ e. apart z (omega arith) (sym b ∙ e)) in
    (
      v.0,
      ap (λ (l : PageLinks). l.prev) (unlink-at m p y h)
          ∙ ap (λ o. if is_block y o then (p.at m).prev else (p.at y).prev) v.0
          ∙ ap (λ t. if t then (p.at m).prev else (p.at y).prev) (is_block_self y)
          ∙ b,
      subst (λ o. Chain u (some y) o ys) (sym next_kept)
          (Chain-frame p u (some y) (p.at y).next ys others v.2),
    )
  where
    again : (z : ℕ) → 0 < count ys z → y ≡ z → ⊥
    again z c e = absurd (ground (arith, once y, ap (count ys) e))

-- A list without a block of it.
pub unlink-Chain :
    (p : Pages) (prev cur : Option ℕ) (xs : List ℕ) (m : ℕ)
    → Chain p prev cur xs
    → ((y : ℕ) → count xs y ≤ 1)
    → 0 < count xs m
    → ((y : ℕ) → 0 < count xs y → prev ≢ some y)
    → Chain (unlink m p) prev (if is_block m cur then (p.at m).next else cur) (remove m xs)
unfolding count remove
unlink-Chain p prev cur [] m v once c apart = absurd (omega arith)
unlink-Chain p prev cur (x ∷ xs) m v once c apart = elim (Bool-cases (x == m)) [
  | inl t ↦
      let same : x ≡ m = ground (arith, t) in
      let at_head : is_block m cur ≡ true = ap (is_block m) v.0 ∙ t in
      let tail : Chain p (some m) (p.at m).next xs =
        subst (λ z. Chain p (some z) (p.at z).next xs) same v.2 in
      rw (t, at_head)
        (unlink-first p prev m xs (next-not_self p prev cur (x ∷ xs) m v once c)
          (ap (λ z. (p.at z).prev) (sym same) ∙ v.1) tail (λ y. omega (arith, once y))
          (λ y d. apart y (omega arith)))
  | inr t ↦
      let u : Pages = unlink m p in
      let later : 0 < count xs m = ground (arith, c, t) in
      let alone : count xs x ≡ 0 = ground (arith, once x) in
      let h = next-not_self p prev cur (x ∷ xs) m v once c in
      let not_at_head : is_block m cur ≡ false = ap (is_block m) v.0 ∙ t in
      let not_behind : (p.at m).next ≢ some x =
        λ e. absurd (omega (arith, next-member p (some x) (p.at x).next xs m x v.2 later e)) in
      let tail =
        unlink-Chain p (some x) (p.at x).next xs m v.2 (λ y. omega (arith, once y)) later
          (λ y d e. absurd (omega (arith, ap (count xs) (some-injective e)))) in
      let next_is : (u.at x).next
          ≡ (if is_block m (p.at x).next then (p.at m).next else (p.at x).next) =
        elim (prev-cases p (some x) (p.at x).next xs m v.2 later) [
          | inl (first, before) ↦
              ap (λ (l : PageLinks). l.next) (unlink-at m p x h)
              ∙ ap (λ o. if is_block x o then (p.at m).next else (p.at x).next) before
              ∙ ap (λ b. if b then (p.at m).next else (p.at x).next)
                  (is_block_self x ∙ sym (is_block_self m))
              ∙ ap (λ o. if is_block m o then (p.at m).next else (p.at x).next) (sym first)
          | inr (not_first, (q, before, d)) ↦
              unlink-next m p x h
                (λ e. absurd (omega (arith, ap (count xs) (some-injective (sym before ∙ e)))))
              ∙ ap (λ b. if b then (p.at m).next else (p.at x).next)
                  (sym (is_block-other m (p.at x).next not_first))
        ] in
      rw (t, not_at_head)
        (
          v.0,
          unlink-prev m p x h not_behind ∙ v.1,
          subst (λ o. Chain u (some x) o (remove m xs)) (sym next_is) tail,
        )
]

-- A block that the list does not have, and that comes before none of it, keeps its links.
pub unlink-outside :
    (p : Pages) (cur : Option ℕ) (xs : List ℕ) (m y : ℕ)
    → Chain p none cur xs
    → ((z : ℕ) → count xs z ≤ 1)
    → 0 < count xs m
    → count xs y ≡ 0
    → (unlink m p).at y ≡ p.at y
unlink-outside p cur xs m y v once c z =
    unlink-other m p y (next-not_self p none cur xs m v once c)
      (λ e. absurd (omega (arith, next-member p none cur xs m y v c e)))
      (λ e. elim (prev-cases p none cur xs m v c) [
        | inl (first, before) ↦ none-ne-some (sym before ∙ e)
        | inr (not_first, (q, before, d)) ↦
            absurd (omega (arith, ap (count xs) (some-injective (sym before ∙ e))))
      ])
  where
    none-ne-some : {x : ℕ} → none ≡ some x → ⊥
    none-ne-some e = cc

-- `remove_from_freelist` of a block that is in the list takes it out of the list, and its assertion holds.
pub remove_from_freelist-Chain :
    (p : Pages) (head : Option ℕ) (xs : List ℕ) (m : ℕ)
    → Chain p none head xs
    → ((y : ℕ) → count xs y ≤ 1)
    → 0 < count xs m
    → (head' : Option ℕ) × (p' : Pages) × (remove_from_freelist m head p ≡ ok (head', p'))
      × Chain p' none head' (remove m xs)
      × ((y : ℕ) → count xs y ≡ 0 → p'.at y ≡ p.at y)
unfolding remove_from_freelist
remove_from_freelist-Chain p head xs m v once c =
    let left : Pages = unlink m p in
    let h = next-not_self p none head xs m v once c in
    let chain = unlink-Chain p none head xs m v once c (λ y d. λ e. cc) in
    let kept : (y : ℕ) → count xs y ≡ 0 → left.at y ≡ p.at y =
      λ y z. unlink-outside p head xs m y v once c z in
    elim (prev-cases p none head xs m v c) [
      | inl (first, before) ↦
          let test : is_block m head ≡ true = ap (is_block m) first ∙ is_block_self m in
          let top : (left.at m).prev ≡ none = unlink-prev m p m h h ∙ before in
          let onward : (left.at m).next ≡ (p.at m).next =
            unlink-next m p m h (λ e. not_some (sym before ∙ e)) in
          (
            (p.at m).next,
            left,
            rw test (rw top (ap (λ n. ok (n, left)) onward)),
            subst (λ t. Chain left none (if t then (p.at m).next else head) (remove m xs)) test
                chain,
            kept,
          )
      | inr (not_first, rest) ↦
          let test : is_block m head ≡ false = is_block-other m head not_first in
          (
            head,
            left,
            rw test refl,
            subst (λ t. Chain left none (if t then (p.at m).next else head) (remove m xs)) test
                chain,
            kept,
          )
    ]
  where
    not_some : {x : ℕ} → none ≡ some x → ⊥
    not_some e = cc
