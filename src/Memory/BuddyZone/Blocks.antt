-- ===== src/Memory/BuddyZone/Blocks.antt =====
-- Block indices and sizes of kernel/memory/BuddyZone.h.
use duck_os.Prelude.{
  ℕ, suc, ◌+◌, ◌*◌, ◌/◌, ◌^◌, ◌≤◌, ◌<◌, ◌≡◌, ◌≢◌, ◌⊎◌, refl, sym, ap, ◌∙◌, inl, inr, arith,
}
use native.Mathlib.Nat.{mul_assoc, two-pow-succ, mul-div_cancel, lt_of_mul-lt-mul_right, one-le-pow}
use native.Mathlib.Decide.{ℕ_discrete}
use duck_os.Memory.BuddyZone.{size_of_order, bit_index}

pub size_of_order-suc :
    (order : ℕ) → size_of_order (suc order) ≡ size_of_order order + size_of_order order
unfolding size_of_order
size_of_order-suc order = two-pow-succ order

pub size_of_order-pos : (order : ℕ) → 0 < size_of_order order
unfolding size_of_order
size_of_order-pos order = one-le-pow order 2 (omega arith)

abbrev pub Aligned : ℕ → ℕ → Type 0
Aligned order block = (j : ℕ) × (block ≡ j * size_of_order order)

-- The first of the two buddies that share bit `i`.
abbrev pub first_at : ℕ → ℕ → ℕ
first_at order i = i * 2 * size_of_order order

pub bit_index-first : (order i : ℕ) → bit_index order (first_at order i) ≡ i
unfolding bit_index size_of_order
bit_index-first order i =
    let inner : i * 2 * 2 ^ order / 2 ^ order ≡ i * 2 =
      mul-div_cancel (i * 2) (size_of_order-pos order) in
    rw inner (omega arith)

pub bit_index-second : (order i : ℕ) → bit_index order (first_at order i + size_of_order order) ≡ i
unfolding bit_index size_of_order
bit_index-second order i =
    let odd : i * 2 * 2 ^ order + 2 ^ order ≡ (i * 2 + 1) * 2 ^ order = omega arith in
    let inner : (i * 2 + 1) * 2 ^ order / 2 ^ order ≡ i * 2 + 1 =
      mul-div_cancel (i * 2 + 1) (size_of_order-pos order) in
    rw (odd, inner) (omega arith)

-- A block is the first or the second of the two that share its bit.
pub Aligned-cases :
    (order block : ℕ)
    → Aligned order block
    → let first = first_at order (bit_index order block) in
      (block ≡ first) ⊎ (block ≡ first + size_of_order order)
unfolding bit_index size_of_order
Aligned-cases order block (j, e) =
    let at : block / 2 ^ order ≡ j =
      ap (λ b. b / 2 ^ order) e ∙ mul-div_cancel j (size_of_order-pos order) in
    elim (ℕ_discrete (j / 2 * 2) j) [
      | yes even ↦ inl (rw at (e ∙ ap (λ i. i * 2 ^ order) (sym even)))
      | no odd ↦
          inr (rw at (e ∙ ap (λ i. i * 2 ^ order) (next j odd) ∙ spread (j / 2 * 2) (2 ^ order)))
    ]
  where
    next : (j : ℕ) → j / 2 * 2 ≢ j → j ≡ j / 2 * 2 + 1
    next j odd = omega arith

    spread : (a b : ℕ) → (a + 1) * b ≡ a * b + b
    spread a b = omega arith

-- Blocks with different bits are different.
pub bit_index-apart :
    (order i block : ℕ)
    → bit_index order block ≢ i
    → (block ≢ first_at order i) × (block ≢ first_at order i + size_of_order order)
bit_index-apart order i block h = (
  λ e. h (ap (bit_index order) e ∙ bit_index-first order i),
  λ e. h (ap (bit_index order) e ∙ bit_index-second order i),
)

first-suc : (order i : ℕ) → first_at order i ≡ i * size_of_order (suc order)
first-suc order i = twice i (size_of_order order) ∙ ap (λ s. i * s) (sym (size_of_order-suc order))
  where
    twice : (a b : ℕ) → a * 2 * b ≡ a * (b + b)
    twice a b = mul_assoc a 2 b ∙ ap (λ x. a * x) (omega arith)

pub first-Aligned : (order i : ℕ) → Aligned (suc order) (first_at order i)
first-Aligned order i = (i, first-suc order i)

-- The bit of a block below `n` is one of those that cover the pages below `n`.
pub bit_index-less :
    (order n bits block : ℕ)
    → Aligned order block
    → block < n
    → n ≤ bits * size_of_order (suc order)
    → bit_index order block < bits
bit_index-less order n bits block v h room =
    let least : first_at order (bit_index order block) ≤ block =
      elim (Aligned-cases order block v) [ inl e ↦ omega arith | inr e ↦ omega arith ] in
    lt_of_mul-lt-mul_right (size_of_order (suc order))
      (omega (arith, first-suc order (bit_index order block)))

pub Aligned-suc :
    (order block : ℕ) → Aligned (suc order) block → block ≡ first_at order (bit_index order block)
Aligned-suc order block (j, e) =
    let at : block ≡ first_at order j = e ∙ sym (first-suc order j) in
    at ∙ ap (first_at order) (sym (ap (bit_index order) at ∙ bit_index-first order j))

pub lower-Aligned : (order i : ℕ) → Aligned order (first_at order i)
lower-Aligned order i = (i * 2, refl)

pub upper-Aligned : (order i : ℕ) → Aligned order (first_at order i + size_of_order order)
upper-Aligned order i = (i * 2 + 1, spread (i * 2) (size_of_order order))
  where
    spread : (a b : ℕ) → a * b + b ≡ (a + 1) * b
    spread a b = omega arith
