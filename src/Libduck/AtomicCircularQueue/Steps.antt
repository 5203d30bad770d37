-- ===== src/Libduck/AtomicCircularQueue/Steps.antt =====
-- The two threads of libraries/libduck/AtomicCircularQueue.h, one action at a time.
use duck_os.Prelude.{
  ℕ, suc, ◌+◌, ◌*◌, ◌%◌, ◌<◌, ◌≡◌, refl, sym, ap, subst, ◌∙◌, false, Bool-cases, inl, inr, Option,
  none, some, List, [], ◌∷◌, ◌++◌, append_assoc, arith, length, length-append, length-set,
  get_elem?, get_elem?-set_self, get_elem?-set_ne, ◌==◌,
}
use native.Mathlib.Decide.{ℕ_discrete}
use native.Mathlib.Nat.{mod-lt}
use mathlib.Core.List.{map}
use duck_os.Prelude.Words.{size_limit, add_size}
use duck_os.Kstd.Ring.{slot}
use duck_os.Kstd.Ring.Holds.{get_elem?-append_left, get_elem?-append_end}
use duck_os.Libduck.AtomicCircularQueue.{
  Shared, Producer, resting, admitted, written, Consumer, outside, allowed, loaded, System, is_full,
  nothing_there, push_from, write_value, push_done, pop_from, load_value, pop_done,
}
use duck_os.Libduck.AtomicCircularQueue.Positions.{mod-add_size, mod-wrapped, mod-apart}
use duck_os.Libduck.AtomicCircularQueue.Order.{
  Pushes, Pops, Ordered, full-Ordered, nothing_there-Ordered,
}

map-snoc : {A : Type 0} (xs : List A) (x : A) → map some (xs ++ x ∷ []) ≡ map some xs ++ some x ∷ []
map-snoc [] x = refl
map-snoc (y ∷ xs) x = ap (◌∷◌ (some y)) (map-snoc xs x)

slot-found :
    {A : Type 0} (storage : List (Option A)) (i : ℕ) (o : Option A)
    → get_elem? storage i ≡ some o
    → slot storage i ≡ o
slot-found storage i o h = ap (λ found. elim found [ none ↦ none | some x ↦ x ]) h

module _ {A : Type 0} (capacity rounds : ℕ)
    (divides : capacity * rounds + capacity ≡ size_limit) where
  pub push_from-Ordered :
      (x : A) (s : System A) (got rest : List A)
      → s.producer ≡ resting
      → Ordered capacity rounds divides s got rest
      → Ordered capacity rounds divides (push_from capacity x s) got rest
  unfolding push_from
  push_from-Ordered x s got rest p v = elim (Bool-cases (is_full capacity s.queue)) [
    | inl e ↦ rw e v
    | inr e ↦
        let spare : (length rest + 1 == capacity) ≡ false =
          sym (full-Ordered capacity rounds divides s got rest v) ∙ e in
        let fits : length rest + 1 < capacity = ground (arith, spare, v.small) in
        rw e (record {
          sent_is = v.sent_is;
          received_is = v.received_is;
          front_is = v.front_is;
          back_is = v.back_is;
          room = v.room;
          small = v.small;
          slots = v.slots;
          pushes = fits;
          pops = v.pops;
        })
  ]

  pub write_value-Ordered :
      (x : A) (s : System A) (got rest : List A)
      → s.producer ≡ admitted x
      → Ordered capacity rounds divides s got rest
      → Ordered capacity rounds divides (write_value capacity x s) got rest
  write_value-Ordered x s got rest p v =
      let fits : length rest + 1 < capacity =
        subst (Pushes capacity rounds divides s.queue (length got) (length rest)) p v.pushes in
      let place : s.queue.back % capacity ≡ (length got + length rest) % capacity =
        ap (λ i. i % capacity) v.back_is
        ∙ mod-wrapped capacity rounds divides (length got + length rest) in
      let inside : (length got + length rest) % capacity < length s.queue.storage =
        rw v.room (mod-lt (length got + length rest) (omega arith)) in
      record {
        sent_is = v.sent_is;
        received_is = v.received_is;
        front_is = v.front_is;
        back_is = v.back_is;
        room = length-set s.queue.storage (s.queue.back % capacity) (some x) ∙ v.room;
        small = v.small;
        slots = λ k h. rw place (
            get_elem?-set_ne s.queue.storage ((length got + length rest) % capacity)
              ((length got + k) % capacity) (some x)
              (λ e.
                mod-apart capacity rounds divides (length got) k (length rest) h v.small (sym e))
            ∙ v.slots k h);
        pushes = (
          fits,
          rw place (
              get_elem?-set_self s.queue.storage ((length got + length rest) % capacity) (some x)
                inside),
        );
        pops = v.pops;
      }

  Pops-append :
      (rest : List A) (x : A) (c : Consumer A)
      → Pops capacity rounds divides rest c
      → Pops capacity rounds divides (rest ++ x ∷ []) c
  Pops-append rest x outside v = v
  Pops-append rest x allowed v = omega (arith, length-append rest (x ∷ []))
  Pops-append rest x (loaded o) v = (
    omega (arith, length-append rest (x ∷ [])),
    v.1 ∙ sym (get_elem?-append_left rest (x ∷ []) 0 v.0),
  )

  pub push_done-Ordered :
      (x : A) (s : System A) (got rest : List A)
      → s.producer ≡ written x
      → Ordered capacity rounds divides s got rest
      → Ordered capacity rounds divides (push_done capacity x s) got (rest ++ x ∷ [])
  push_done-Ordered x s got rest p v =
      let put =
        subst (Pushes capacity rounds divides s.queue (length got) (length rest)) p v.pushes in
      let longer : length (rest ++ x ∷ []) ≡ length rest + 1 = length-append rest (x ∷ []) in
      record {
        sent_is = ap (λ l. l ++ x ∷ []) v.sent_is ∙ append_assoc got rest (x ∷ []);
        received_is = v.received_is;
        front_is = v.front_is;
        back_is =
            ap (λ b. add_size b 1) v.back_is
            ∙ mod-add_size (length got + length rest) 1
            ∙ ap (λ n. n % size_limit) (omega (arith, longer));
        room = v.room;
        small = omega (arith, longer, put.0);
        slots = λ k h. elim (ℕ_discrete k (length rest)) [
          | yes e ↦ rw e (put.1 ∙ ap some (sym (get_elem?-append_end rest x (length rest) refl)))
          | no ne ↦
              v.slots k (omega (arith, longer))
              ∙ ap some (sym (get_elem?-append_left rest (x ∷ []) k (omega (arith, longer))))
        ];
        pushes = tt;
        pops = Pops-append rest x s.consumer v.pops;
      }

  pub pop_from-Ordered :
      (s : System A) (got rest : List A)
      → s.consumer ≡ outside
      → Ordered capacity rounds divides s got rest
      → Ordered capacity rounds divides (pop_from capacity s) got rest
  unfolding pop_from
  pop_from-Ordered s got rest p v = elim (Bool-cases (nothing_there capacity s.queue)) [
    | inl e ↦ rw e v
    | inr e ↦
        let some_wait : (length rest == 0) ≡ false =
          sym (nothing_there-Ordered capacity rounds divides s got rest v) ∙ e in
        rw e (record {
          sent_is = v.sent_is;
          received_is = v.received_is;
          front_is = v.front_is;
          back_is = v.back_is;
          room = v.room;
          small = v.small;
          slots = v.slots;
          pushes = v.pushes;
          pops = ground (arith, some_wait);
        })
  ]

  pub load_value-Ordered :
      (s : System A) (got rest : List A)
      → s.consumer ≡ allowed
      → Ordered capacity rounds divides s got rest
      → Ordered capacity rounds divides (load_value capacity s) got rest
  load_value-Ordered s got rest p v =
      let waits : 0 < length rest = subst (Pops capacity rounds divides rest) p v.pops in
      let place : s.queue.front % capacity ≡ (length got + 0) % capacity =
        ap (λ i. i % capacity) v.front_is
        ∙ mod-wrapped capacity rounds divides (length got)
        ∙ ap (λ n. n % capacity) (omega arith) in
      record {
        sent_is = v.sent_is;
        received_is = v.received_is;
        front_is = v.front_is;
        back_is = v.back_is;
        room = v.room;
        small = v.small;
        slots = v.slots;
        pushes = v.pushes;
        pops = (
          waits,
          ap (slot s.queue.storage) place
              ∙ slot-found s.queue.storage ((length got + 0) % capacity) (get_elem? rest 0)
                  (v.slots 0 waits),
        );
      }

  Pushes-shift :
      (q : Shared A) (f n d : ℕ) (p : Producer A)
      → Pushes capacity rounds divides q n (suc d) p
      → Pushes capacity rounds divides (record q { front = f }) (n + 1) d p
  Pushes-shift q f n d resting v = v
  Pushes-shift q f n d (admitted x) v = omega arith
  Pushes-shift q f n d (written x) v =
      (omega (arith, v.0), ap (λ m. get_elem? q.storage (m % capacity)) (shift n d) ∙ v.1)
    where
      shift : (n d : ℕ) → n + 1 + d ≡ n + suc d
      shift n d = omega arith

  pub pop_done-Ordered :
      (o : Option A) (s : System A) (got : List A) (y : A) (rest : List A)
      → s.consumer ≡ loaded o
      → Ordered capacity rounds divides s got (y ∷ rest)
      → Ordered capacity rounds divides (pop_done capacity o s) (got ++ y ∷ []) rest
  pop_done-Ordered o s got y rest p v =
      let read_it = subst (Pops capacity rounds divides (y ∷ rest)) p v.pops in
      let longer : length (got ++ y ∷ []) ≡ length got + 1 = length-append got (y ∷ []) in
      record {
        sent_is = v.sent_is ∙ sym (append_assoc got (y ∷ []) rest);
        received_is =
            ap (λ l. l ++ o ∷ []) v.received_is
            ∙ ap (λ x. map some got ++ x ∷ []) read_it.1
            ∙ sym (map-snoc got y);
        front_is =
            ap (λ f. add_size f 1) v.front_is
            ∙ mod-add_size (length got) 1
            ∙ ap (λ n. n % size_limit) (sym longer);
        back_is = v.back_is ∙ ap (λ n. n % size_limit) (omega (arith, longer));
        room = v.room;
        small = omega (arith, v.small);
        slots = λ k h.
            ap (λ n. get_elem? s.queue.storage (n % capacity)) (next_slot k longer)
            ∙ v.slots (suc k) (omega arith);
        pushes = rw longer (
            Pushes-shift s.queue (add_size s.queue.front 1) (length got) (length rest) s.producer
              v.pushes);
        pops = tt;
      }
    where
      next_slot :
          (k : ℕ)
          → length (got ++ y ∷ []) ≡ length got + 1
          → length (got ++ y ∷ []) + k ≡ length got + suc k
      next_slot k longer = omega (arith, longer)
