-- ===== src/Memory/BuddyZone/Orders.antt =====
-- `order_for` of kernel/memory/BuddyZone.h.
use duck_os.Prelude.{
  ℕ, zero, suc, ◌+◌, ◌-◌, ◌/◌, ◌^◌, ◌≤◌, ◌<◌, ◌≡◌, refl, ap, ◌∙◌, inl, inr, arith, Bool-cases, ltb,
  ◌==◌, ==_iff, ==-true, ◌&&◌, true, false, subst,
}
use native.Mathlib.Nat.{two-pow-succ, one-le-pow, pow-le-pow_right}
use native.Mathlib.Decide.{dec_lt}
use duck_os.Memory.BuddyZone.{size_of_order, is_size, highest_bit, order_for}

pub is_size-size : (order num : ℕ) → is_size order num ≡ true → size_of_order order ≡ num
unfolding is_size
is_size-size order num h = elim (Bool-cases (ltb order 32)) [
  | inl t ↦
      (==_iff (size_of_order order) num).0
        (subst (λ b. (b && (size_of_order order == num)) ≡ true) t h)
  | inr f ↦
      let never : false ≡ true = subst (λ b. (b && (size_of_order order == num)) ≡ true) f h in cc
]

pub is_size-true :
    (order num : ℕ) → order < 32 → size_of_order order ≡ num → is_size order num ≡ true
unfolding is_size
is_size-true order num h e =
    let small : ltb order 32 ≡ true = ground arith in
    rw (small, ==-true (size_of_order order) num e) refl

pub highest_bit-bounds :
    (fuel n : ℕ)
    → 0 < n
    → n < 2 ^ fuel
    → (2 ^ highest_bit fuel n ≤ n) × (n < 2 ^ highest_bit fuel n + 2 ^ highest_bit fuel n)
unfolding highest_bit
highest_bit-bounds zero n p h = absurd (omega arith)
highest_bit-bounds (suc fuel) n p h = elim (Bool-cases (ltb n 2)) [
  | inl t ↦ rw t (ground (arith, t), ground (arith, t))
  | inr f ↦
      let some_left : 0 < n / 2 = ground (arith, f) in
      let half = highest_bit-bounds fuel (n / 2) some_left (omega (arith, two-pow-succ fuel)) in
      rw f (
        omega (arith, half, two-pow-succ (highest_bit fuel (n / 2))),
        omega (arith, half, two-pow-succ (highest_bit fuel (n / 2))),
      )
]

order_for-within :
    (n : ℕ)
    → 0 < n
    → n < 2 ^ 32
    → (n ≤ size_of_order (order_for n)) × (size_of_order (order_for n) < n + n)
unfolding order_for size_of_order
order_for-within n p h =
    let bounds = highest_bit-bounds 32 n p h in
    let bit : ℕ = highest_bit 32 n in
    elim (Bool-cases (n - 2 ^ bit == 0)) [
      | inl t ↦ rw t (ground (arith, t, bounds), ground (arith, t, bounds))
      | inr f ↦
          let more : 2 ^ bit < n = ground (arith, f, bounds) in
          let next : 2 ^ (bit + 1) ≡ 2 ^ bit + 2 ^ bit =
            ap (λ k. 2 ^ k) (omega arith) ∙ two-pow-succ bit in
          rw f (omega (arith, bounds, next), omega (arith, more, next))
    ]

pub powers-le : (a b : ℕ) → a ≤ b → 2 ^ a ≤ 2 ^ b
powers-le a b h = pow-le-pow_right (omega arith) h

pub order-le : (a b : ℕ) → size_of_order a ≤ size_of_order b → a ≤ b
unfolding size_of_order
order-le a b h = elim (dec_lt b a) [
  | yes l ↦
      let bigger : 2 ^ suc b ≤ 2 ^ a = powers-le (suc b) a l in
      absurd (omega (arith, two-pow-succ b, one-le-pow b 2 (omega arith)))
  | no nl ↦ omega arith
]

pub size_of_order-lt : (a b : ℕ) → size_of_order a < size_of_order (suc b) → a ≤ b
unfolding size_of_order
size_of_order-lt a b h = elim (dec_lt b a) [
  | yes l ↦ let bigger : 2 ^ suc b ≤ 2 ^ a = powers-le (suc b) a l in absurd (omega arith)
  | no nl ↦ omega arith
]

-- An order has the size that `order_for` finds it by.
pub order_for-size : (k : ℕ) → k ≤ 10 → order_for (size_of_order k) ≡ k
unfolding size_of_order
order_for-size k h =
    let top : 2 ^ k ≤ 2 ^ 10 = powers-le k 10 h in
    let bounds = order_for-within (2 ^ k) (one-le-pow k 2 (omega arith)) (omega arith) in
    let low : k ≤ order_for (2 ^ k) = order-le k (order_for (2 ^ k)) (bounds.0) in
    let high : order_for (2 ^ k) ≤ k =
      size_of_order-lt (order_for (2 ^ k)) k (omega (arith, bounds.1, two-pow-succ k)) in
    omega arith

-- For a number of pages from 1 to 2^31, order_for gives an order below 32, whose size is therefore
-- defined, large enough and less than twice as large as it must be.
pub order_for-bounds :
    (n : ℕ)
    → 0 < n
    → n ≤ 2 ^ 31
    → (order_for n < 32) × (n ≤ size_of_order (order_for n)) × (size_of_order (order_for n) < n + n)
unfolding size_of_order
order_for-bounds n p h =
    let within = order_for-within n p (omega arith) in
    let top : size_of_order (suc 31) ≡ 2 ^ 32 = refl in
    let low : order_for n ≤ 31 = size_of_order-lt (order_for n) 31 (omega (arith, within.1, top)) in
    (omega (arith, low), within.0, within.1)
