-- ===== src/Libduck/AtomicCircularQueue/Interleaved.antt =====
-- The two threads of libraries/libduck/AtomicCircularQueue.h, through any sequence of actions.
use duck_os.Prelude.{
  ℕ, ◌+◌, ◌*◌, ◌<◌, ◌≡◌, refl, subst, Option, none, some, List, [], ◌∷◌, ◌++◌, arith, length,
  length-replicate, ◌==◌,
}
use mathlib.Core.List.{map}
use duck_os.Prelude.Words.{size_limit}
use duck_os.Libduck.AtomicCircularQueue.{
  Producer, resting, admitted, written, Consumer, outside, allowed, loaded, System, Action,
  try_push, write, count_push, try_pop, load, count_pop, empty_system, is_full, nothing_there,
  pop_done, produce, consume, act, run_actions,
}
use duck_os.Libduck.AtomicCircularQueue.Order.{
  Pops, Ordered, Reached, full-Ordered, nothing_there-Ordered,
}
use duck_os.Libduck.AtomicCircularQueue.Steps.{
  push_from-Ordered, write_value-Ordered, push_done-Ordered, pop_from-Ordered, load_value-Ordered,
  pop_done-Ordered,
}

module _ {A : Type 0} (capacity rounds : ℕ)
    (divides : capacity * rounds + capacity ≡ size_limit) where
  produce-Ordered :
      (a : Action A) (s : System A) (p : Producer A)
      → s.producer ≡ p
      → Reached capacity rounds divides s
      → Reached capacity rounds divides (produce capacity a p s)
  unfolding produce
  produce-Ordered (try_push x) s resting e (got, rest, v) =
      (got, rest, push_from-Ordered capacity rounds divides x s got rest e v)
  produce-Ordered (try_push x) s (admitted y) e v = v
  produce-Ordered (try_push x) s (written y) e v = v
  produce-Ordered write s resting e v = v
  produce-Ordered write s (admitted y) e (got, rest, v) =
      (got, rest, write_value-Ordered capacity rounds divides y s got rest e v)
  produce-Ordered write s (written y) e v = v
  produce-Ordered count_push s resting e v = v
  produce-Ordered count_push s (admitted y) e v = v
  produce-Ordered count_push s (written y) e (got, rest, v) =
      (got, rest ++ y ∷ [], push_done-Ordered capacity rounds divides y s got rest e v)
  produce-Ordered try_pop s resting e v = v
  produce-Ordered try_pop s (admitted y) e v = v
  produce-Ordered try_pop s (written y) e v = v
  produce-Ordered load s resting e v = v
  produce-Ordered load s (admitted y) e v = v
  produce-Ordered load s (written y) e v = v
  produce-Ordered count_pop s resting e v = v
  produce-Ordered count_pop s (admitted y) e v = v
  produce-Ordered count_pop s (written y) e v = v

  -- A value is given only where one waits.
  pop_done-Reached :
      (o : Option A) (s : System A) (got rest : List A)
      → s.consumer ≡ loaded o
      → Ordered capacity rounds divides s got rest
      → Reached capacity rounds divides (pop_done capacity o s)
  pop_done-Reached o s got [] e v =
      let waits = subst (Pops capacity rounds divides []) e v.pops in
      absurd (omega (arith, waits.0))
  pop_done-Reached o s got (y ∷ rest) e v =
      (got ++ y ∷ [], rest, pop_done-Ordered capacity rounds divides o s got y rest e v)

  consume-Ordered :
      (a : Action A) (s : System A) (c : Consumer A)
      → s.consumer ≡ c
      → Reached capacity rounds divides s
      → Reached capacity rounds divides (consume capacity a c s)
  unfolding consume
  consume-Ordered try_pop s outside e (got, rest, v) =
      (got, rest, pop_from-Ordered capacity rounds divides s got rest e v)
  consume-Ordered try_pop s allowed e v = v
  consume-Ordered try_pop s (loaded o) e v = v
  consume-Ordered load s outside e v = v
  consume-Ordered load s allowed e (got, rest, v) =
      (got, rest, load_value-Ordered capacity rounds divides s got rest e v)
  consume-Ordered load s (loaded o) e v = v
  consume-Ordered count_pop s outside e v = v
  consume-Ordered count_pop s allowed e v = v
  consume-Ordered count_pop s (loaded o) e (got, rest, v) = pop_done-Reached o s got rest e v
  consume-Ordered (try_push x) s outside e v = v
  consume-Ordered (try_push x) s allowed e v = v
  consume-Ordered (try_push x) s (loaded o) e v = v
  consume-Ordered write s outside e v = v
  consume-Ordered write s allowed e v = v
  consume-Ordered write s (loaded o) e v = v
  consume-Ordered count_push s outside e v = v
  consume-Ordered count_push s allowed e v = v
  consume-Ordered count_push s (loaded o) e v = v

  act-Reached :
      (a : Action A) (s : System A)
      → Reached capacity rounds divides s
      → Reached capacity rounds divides (act capacity a s)
  unfolding act
  act-Reached (try_push x) s v = produce-Ordered (try_push x) s s.producer refl v
  act-Reached write s v = produce-Ordered write s s.producer refl v
  act-Reached count_push s v = produce-Ordered count_push s s.producer refl v
  act-Reached try_pop s v = consume-Ordered try_pop s s.consumer refl v
  act-Reached load s v = consume-Ordered load s s.consumer refl v
  act-Reached count_pop s v = consume-Ordered count_pop s s.consumer refl v

  run_actions-Reached :
      (actions : List (Action A)) (s : System A)
      → Reached capacity rounds divides s
      → Reached capacity rounds divides (run_actions capacity actions s)
  unfolding run_actions
  run_actions-Reached [] s v = v
  run_actions-Reached (a ∷ actions) s v =
      run_actions-Reached actions (act capacity a s) (act-Reached a s v)

  empty_system-Reached :
      0 < capacity → Reached {A = A} capacity rounds divides (empty_system capacity)
  unfolding empty_system
  empty_system-Reached h = (
    [],
    [],
    record {
      sent_is = refl;
      received_is = refl;
      front_is = refl;
      back_is = refl;
      room = length-replicate {A = Option A} capacity none;
      small = h;
      slots = λ k less. absurd (omega arith);
      pushes = tt;
      pops = tt;
    },
  )

-- What the two threads see of a queue: its reader has the values that were sent in their order, without
-- `waiting`, the ones that it has not got yet; the tests of `push` and `pop` tell whether one place less
-- than there are is taken, and whether nothing waits.
abbrev pub Fifo : {A : Type 0} → ℕ → System A → Type 0
Fifo {A = A} capacity s =
    (got : List A) × (waiting : List A) × (s.received ≡ map some got)
    × (s.sent ≡ got ++ waiting)
    × (length waiting < capacity)
    × (is_full capacity s.queue ≡ (length waiting + 1 == capacity))
    × (nothing_there capacity s.queue ≡ (length waiting == 0))

-- Whatever one pushing and one popping thread do, and however their actions interleave, the popped
-- values are the first pushed ones in their order, fewer values wait than there are slots, full is
-- true exactly when one slot only is free and empty exactly when no value waits; the size divides
-- 2^32.
pub run_actions-Fifo :
    {A : Type 0} (capacity rounds : ℕ) (actions : List (Action A))
    → capacity * rounds + capacity ≡ size_limit
    → 0 < capacity
    → Fifo capacity (run_actions capacity actions (empty_system capacity))
run_actions-Fifo capacity rounds actions divides h =
    let s = run_actions capacity actions (empty_system capacity) in
    let (got, rest, v) =
      run_actions-Reached capacity rounds divides actions (empty_system capacity)
        (empty_system-Reached capacity rounds divides h) in
    (
      got,
      rest,
      v.received_is,
      v.sent_is,
      v.small,
      full-Ordered capacity rounds divides s got rest v,
      nothing_there-Ordered capacity rounds divides s got rest v,
    )
