-- ===== src/Libduck/AtomicCircularQueue/Order.antt =====
-- The two threads of libraries/libduck/AtomicCircularQueue.h, whatever the order of their actions.
use duck_os.Prelude.{
  ℕ, suc, ◌+◌, ◌-◌, ◌*◌, ◌%◌, ◌<◌, ◌≡◌, ◌≢◌, refl, sym, ap, ◌∙◌, some, List, ◌++◌, arith, length,
  get_elem?, ◌==◌,
}
use native.Mathlib.Decide.{ℕ_discrete}
use mathlib.Core.List.{map}
use duck_os.Prelude.Words.{size_limit, sub_size}
use duck_os.Libduck.AtomicCircularQueue.{
  Shared, Producer, resting, admitted, written, Consumer, outside, allowed, loaded, System, is_full,
  nothing_there,
}
use duck_os.Libduck.AtomicCircularQueue.Positions.{mod-wrapped, mod-apart, slot_before}

module _ {A : Type 0} (capacity rounds : ℕ)
    (divides : capacity * rounds + capacity ≡ size_limit) where
  -- What the thread that pushes may rely on, with `n` values given and `d` that wait.
  abbrev pub Pushes : Shared A → ℕ → ℕ → Producer A → Type 0
  Pushes q n d resting = Unit {0}
  Pushes q n d (admitted x) = d + 1 < capacity
  Pushes q n d (written x) =
      (d + 1 < capacity) × (get_elem? q.storage ((n + d) % capacity) ≡ some (some x))

  abbrev pub Pops : List A → Consumer A → Type 0
  Pops rest outside = Unit {0}
  Pops rest allowed = 0 < length rest
  Pops rest (loaded o) = (0 < length rest) × (o ≡ get_elem? rest 0)

  -- The values that were given, and those that wait in the queue.
  pub record Ordered (s : System A) (got rest : List A) : Type 0 where
    pub sent_is : s.sent ≡ got ++ rest
    pub received_is : s.received ≡ map some got
    pub front_is : s.queue.front ≡ length got % size_limit
    pub back_is : s.queue.back ≡ (length got + length rest) % size_limit
    pub room : length s.queue.storage ≡ capacity
    pub small : length rest < capacity
    pub slots :
        (k : ℕ)
        → k < length rest
        → get_elem? s.queue.storage ((length got + k) % capacity) ≡ some (get_elem? rest k)
    pub pushes : Pushes s.queue (length got) (length rest) s.producer
    pub pops : Pops rest s.consumer

  abbrev pub Reached : System A → Type 0
  Reached s = (got : List A) × (rest : List A) × Ordered s got rest

  pub full-Ordered :
      (s : System A) (got rest : List A)
      → Ordered s got rest
      → is_full capacity s.queue ≡ (length rest + 1 == capacity)
  unfolding is_full
  full-Ordered s got rest v =
      let last : s.queue.back % capacity ≡ (length got + length rest) % capacity =
        ap (λ x. x % capacity) v.back_is
        ∙ mod-wrapped capacity rounds divides (length got + length rest) in
      let top : suc (capacity - 1) ≡ capacity = omega (arith, v.small) in
      let before : sub_size s.queue.front 1 % capacity ≡ (length got + (capacity - 1)) % capacity =
        ap (λ x. sub_size x 1 % capacity) v.front_is
        ∙ slot_before capacity rounds divides (length got) (capacity - 1)
            (omega (arith, v.small)) in
      elim (ℕ_discrete (length rest + 1) capacity) [
        | yes e ↦
            let same : length rest ≡ capacity - 1 = omega arith in
            let equal : sub_size s.queue.front 1 % capacity ≡ s.queue.back % capacity =
              before ∙ ap (λ d. (length got + d) % capacity) (sym same) ∙ sym last in
            ground (arith, equal, e)
        | no ne ↦
            let differ =
              mod-apart capacity rounds divides (length got) (length rest) (capacity - 1)
                (omega (arith, v.small)) (omega (arith, v.small)) in
            let apart : sub_size s.queue.front 1 % capacity ≢ s.queue.back % capacity =
              λ e. differ (sym last ∙ sym e ∙ before) in
            ground (arith, apart, ne)
      ]

  pub nothing_there-Ordered :
      (s : System A) (got rest : List A)
      → Ordered s got rest
      → nothing_there capacity s.queue ≡ (length rest == 0)
  nothing_there-Ordered s got rest v = elim (ℕ_discrete (length rest) 0) [
    | yes e ↦
        let equal : s.queue.front ≡ s.queue.back =
          v.front_is ∙ ap (λ x. x % size_limit) (omega (arith, e)) ∙ sym v.back_is in
        ground (arith, equal, e)
    | no ne ↦
        let differ =
          mod-apart size_limit 0 refl (length got) 0 (length rest) (omega arith)
            (omega (arith, v.small, divides)) in
        let apart : s.queue.front ≢ s.queue.back =
          λ e. differ (ap (λ x. x % size_limit) (omega arith) ∙ sym v.front_is ∙ e ∙ v.back_is) in
        ground (arith, apart, ne)
  ]
