-- ===== src/Memory/BuddyZone/Neighbours.antt =====
-- The neighbours of a block in a linked list (kernel/memory/BuddyZone.cpp).
use duck_os.Prelude.{
  ℕ, ◌≤◌, ◌<◌, ◌≡◌, ◌≢◌, ◌⊎◌, sym, ap, ◌∙◌, inl, inr, arith, Bool-cases, false, ◌==◌, Option, some,
  List, [], ◌∷◌,
}
use native.Mathlib.Decide.{ℕ_discrete}
use duck_os.Memory.BuddyZone.{Pages}
use duck_os.Memory.BuddyZone.Counts.{count}
use duck_os.Memory.BuddyZone.Links.{Chain, Chain-cur, some-injective}

-- A chain that goes on with a block has it.
pub Chain-member :
    (p : Pages) (prev cur : Option ℕ) (xs : List ℕ) (y : ℕ)
    → Chain p prev cur xs
    → cur ≡ some y
    → 0 < count xs y
Chain-member p prev cur xs y v e = elim (ℕ_discrete (count xs y) 0) [
  | yes z ↦ absurd (Chain-cur p prev cur xs y v z e)
  | no nz ↦ omega arith
]

pub next-member :
    (p : Pages) (prev cur : Option ℕ) (xs : List ℕ) (m y : ℕ)
    → Chain p prev cur xs
    → 0 < count xs m
    → (p.at m).next ≡ some y
    → 0 < count xs y
unfolding count
next-member p prev cur [] m y v c e = absurd (omega arith)
next-member p prev cur (x ∷ xs) m y v c e = elim (Bool-cases (x == m)) [
  | inl t ↦
      let same : x ≡ m = ground (arith, t) in
      let later =
        Chain-member p (some x) (p.at x).next xs y v.2 (ap (λ z. (p.at z).next) same ∙ e) in
      omega arith
  | inr t ↦
      let later = next-member p (some x) (p.at x).next xs m y v.2 (ground (arith, c, t)) e in
      omega arith
]

pub next-not_self :
    (p : Pages) (prev cur : Option ℕ) (xs : List ℕ) (m : ℕ)
    → Chain p prev cur xs
    → ((y : ℕ) → count xs y ≤ 1)
    → 0 < count xs m
    → (p.at m).next ≢ some m
unfolding count
next-not_self p prev cur [] m v once c = absurd (omega arith)
next-not_self p prev cur (x ∷ xs) m v once c = λ e. elim (Bool-cases (x == m)) [
  | inl t ↦
      let same : x ≡ m = ground (arith, t) in
      let later =
        Chain-member p (some x) (p.at x).next xs m v.2 (ap (λ z. (p.at z).next) same ∙ e) in
      absurd (ground (arith, once m, t))
  | inr t ↦
      next-not_self p (some x) (p.at x).next xs m v.2 (λ y. omega (arith, once y))
        (ground (arith, c, t)) e
]

-- A block is the first of its chain, or another one of it comes before.
pub prev-cases :
    (p : Pages) (prev cur : Option ℕ) (xs : List ℕ) (m : ℕ)
    → Chain p prev cur xs
    → 0 < count xs m
    → ((cur ≡ some m) × ((p.at m).prev ≡ prev))
      ⊎ ((cur ≢ some m) × ((q : ℕ) × ((p.at m).prev ≡ some q) × (0 < count xs q)))
unfolding count
prev-cases p prev cur [] m v c = absurd (omega arith)
prev-cases p prev cur (x ∷ xs) m v c = elim (Bool-cases (x == m)) [
  | inl t ↦
      let same : x ≡ m = ground (arith, t) in
      inl (v.0 ∙ ap some same, ap (λ z. (p.at z).prev) (sym same) ∙ v.1)
  | inr t ↦
      let differ : cur ≢ some m = λ e. absurd (other t (some-injective (sym v.0 ∙ e))) in
      elim (prev-cases p (some x) (p.at x).next xs m v.2 (ground (arith, c, t))) [
        | inl (first, before) ↦ inr (differ, (x, before, ground arith))
        | inr (later, (q, before, d)) ↦ inr (differ, (q, before, omega arith))
      ]
]
  where
    other : (x == m) ≡ false → x ≢ m
    other t = ground (arith, t)
