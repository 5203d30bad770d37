-- ===== src/Libduck/AtomicCircularQueue/Positions.antt =====
-- The slots that counters which wrap stand for (libraries/libduck/AtomicCircularQueue.h).
use duck_os.Prelude.{ℕ, ◌+◌, ◌-◌, ◌*◌, ◌%◌, ◌<◌, ◌≡◌, ◌≢◌, sym, ap, ◌∙◌, arith}
use native.Mathlib.Nat.{
  mod-lt, mod-add-mod, add-mod_right, add-mul-mod_self_left, mul-mod_right, dvd_of_mod-eq-zero,
  mod-mod_of_dvd,
}
use duck_os.Prelude.Words.{size_limit, add_size, sub_size}
use duck_os.Kstd.Ring.Holds.{around, mod-around}

pub mod-add_size : (n k : ℕ) → add_size (n % size_limit) k ≡ (n + k) % size_limit
mod-add_size n k = mod-add-mod n size_limit k

-- The queue's size divides the range of the counters.
module _ (capacity rounds : ℕ) (divides : capacity * rounds + capacity ≡ size_limit) where
  pub mod-wrapped : (n : ℕ) → n % size_limit % capacity ≡ n % capacity
  mod-wrapped n = mod-mod_of_dvd capacity n (
      dvd_of_mod-eq-zero capacity (
        ap (λ x. x % capacity) (sym divides)
        ∙ add-mod_right (capacity * rounds) capacity
        ∙ mul-mod_right capacity rounds))

  -- Different values that wait in the queue stand in different slots.
  pub mod-apart : (n k d : ℕ) → k < d → d < capacity → (n + k) % capacity ≢ (n + d) % capacity
  mod-apart n k d h g e =
      let start : n % capacity < capacity = mod-lt n (omega arith) in
      let left : (n + k) % capacity ≡ around capacity (n % capacity) k =
        sym (mod-add-mod n capacity k) ∙ mod-around capacity (n % capacity) k start (omega arith) in
      let right : (n + d) % capacity ≡ around capacity (n % capacity) d =
        sym (mod-add-mod n capacity d) ∙ mod-around capacity (n % capacity) d start (omega arith) in
      let same : around capacity (n % capacity) k ≡ around capacity (n % capacity) d =
        sym left ∙ e ∙ right in
      ground (arith, same)

  -- The slot before the front, which the test for a full queue looks for, is the one that a last value
  -- would be put in.
  pub slot_before :
      (n d : ℕ) → d + 1 ≡ capacity → sub_size (n % size_limit) 1 % capacity ≡ (n + d) % capacity
  slot_before n d h =
      let behind : n % size_limit + size_limit - 1 ≡ n % size_limit + (d + capacity * rounds) =
        omega (arith, divides) in
      mod-wrapped (n % size_limit + size_limit - 1)
      ∙ ap (λ x. x % capacity) behind
      ∙ sym (mod-add-mod (n % size_limit) capacity (d + capacity * rounds))
      ∙ ap (λ x. (x + (d + capacity * rounds)) % capacity) (mod-wrapped n)
      ∙ mod-add-mod n capacity (d + capacity * rounds)
      ∙ ap (λ x. x % capacity) (add_assoc_back n d (capacity * rounds))
      ∙ add-mul-mod_self_left (n + d) capacity rounds
    where
      add_assoc_back : (a b c : ℕ) → a + (b + c) ≡ (a + b) + c
      add_assoc_back a b c = omega arith
