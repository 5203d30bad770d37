-- ===== src/Tasking/Mutex/Ownership.antt =====
-- Who has the mutex of kernel/tasking/Mutex.cpp, over the steps of its threads.
use duck_os.Prelude.{
  ℕ, ◌+◌, ◌<◌, ◌≡◌, ◌≢◌, refl, sym, subst, ◌∙◌, ◌⊎◌, inl, inr, true, false, none, some, arith, ◌==◌,
  if◌then◌else◌,
}
use native.Mathlib.Decide.{ℕ_discrete}
use duck_os.Prelude.Words.{size_limit}
use duck_os.Tasking.Mutex.{
  Mutex, new_mutex, AcquireMode, normal, try_once, on_contest, granted, attempt, count_up, release,
}
use duck_os.Tasking.Mutex.Threads.{
  Phase, outside, looping, uncounted, Thread, World, started, put, phase_after, calling, attempting,
  counting, releasing, Reached, at_start, calls, attempts, counts, releases,
}

-- A thread that has no part in the mutex.
pub record Apart (th : Thread) : Type 0 where
  pub shallow : th.depth ≡ 0
  pub counted : th.phase ≢ uncounted

-- The thread that has the mutex.
pub record Owner (tid : ℕ) (w : World) : Type 0 where
  pub holding : w.mutex.holding_thread ≡ some tid
  pub times : w.mutex.times_locked ≡ (w.threads tid).depth
  pub inside : (0 < (w.threads tid).depth) ⊎ ((w.threads tid).phase ≡ uncounted)
  pub small : (w.threads tid).depth < size_limit
  pub others : (t : ℕ) → t ≢ tid → Apart (w.threads t)

-- A mutex that no thread has, or one.
pub data Owned (w : World) : Type 0 where
  unowned :
      w.mutex.holding_thread ≡ none
      → w.mutex.times_locked ≡ 0
      → ((t : ℕ) → Apart (w.threads t))
      → Owned w
  owned : (tid : ℕ) → Owner tid w → Owned w

-- A property of thread `t` after thread `tid` has become `th`.
put-cases :
    (P : Thread → Type 0) (tid t : ℕ) (th : Thread) (threads : ℕ → Thread)
    → (t ≡ tid → P th)
    → (t ≢ tid → P (threads t))
    → P (put tid th threads t)
put-cases P tid t th threads f g = elim (ℕ_discrete t tid) [
  | yes e ↦ let same : (t == tid) ≡ true = ground arith in rw same (f e)
  | no ne ↦ let other : (t == tid) ≡ false = ground arith in rw other (g ne)
]

put-Owner :
    (tid : ℕ) (th : Thread) (m : Mutex) (w : World)
    → m.holding_thread ≡ some tid
    → m.times_locked ≡ th.depth
    → (0 < th.depth) ⊎ (th.phase ≡ uncounted)
    → th.depth < size_limit
    → ((t : ℕ) → t ≢ tid → Apart (w.threads t))
    → Owned (record { mutex = m; threads = put tid th w.threads })
put-Owner tid th m w a b c d e =
    let here : put tid th w.threads tid ≡ th =
      put-cases (λ out. out ≡ th) tid tid th w.threads (λ same. refl) (λ ne. absurd (ne refl)) in
    owned tid (record {
      holding = a;
      times = subst (λ out. m.times_locked ≡ out.depth) (sym here) b;
      inside = subst (λ out. (0 < out.depth) ⊎ (out.phase ≡ uncounted)) (sym here) c;
      small = subst (λ out. out.depth < size_limit) (sym here) d;
      others = λ t away.
          put-cases Apart tid t th w.threads (λ same. absurd (away same)) (λ other. e t away);
    })

-- A step of thread `tid` that leaves depths as they are, and does not make or end an acquisition.
put-Owned :
    (tid : ℕ) (phase : Phase) (w : World)
    → (w.threads tid).phase ≢ uncounted
    → phase ≢ uncounted
    → Owned w
    → Owned (record w {
      threads = put tid (record { phase = phase; depth = (w.threads tid).depth }) w.threads;
    })
put-Owned tid phase w p q (unowned a b c) = unowned a b (λ t.
    put-cases Apart tid t _ w.threads (λ e. record { shallow = (c tid).shallow; counted = q })
      (λ ne. c t))
put-Owned tid phase w p q (owned u v) = elim (ℕ_discrete u tid) [
  | yes same ↦
      let o : Owner tid w = subst (λ k. Owner k w) same v in
      put-Owner tid _ w.mutex w o.holding o.times
        (elim o.inside [ inl deeper ↦ inl deeper | inr now ↦ absurd (p now) ]) o.small o.others
  | no ne ↦ owned u (record {
    holding = v.holding;
    times =
        put-cases (λ th. w.mutex.times_locked ≡ th.depth) tid u _ w.threads (λ e. absurd (ne e))
          (λ other. v.times);
    inside =
        put-cases (λ th. (0 < th.depth) ⊎ (th.phase ≡ uncounted)) tid u _ w.threads
          (λ e. absurd (ne e)) (λ other. v.inside);
    small =
        put-cases (λ th. th.depth < size_limit) tid u _ w.threads (λ e. absurd (ne e))
          (λ other. v.small);
    others = λ t away.
        put-cases Apart tid t _ w.threads
          (λ e. record { shallow = (v.others tid (λ f. ne (sym f))).shallow; counted = q })
          (λ other. v.others t away);
  })
]

on_contest-counted : (mode : AcquireMode) → phase_after (on_contest mode) ≢ uncounted
on_contest-counted normal = λ e. cc
on_contest-counted try_once = λ e. cc

looping-counted : (p : Phase) → p ≡ looping → p ≢ uncounted
looping-counted p e f = cc

outside-counted : (p : Phase) → p ≡ outside → p ≢ uncounted
outside-counted p e f = cc

pub attempt-free :
    (mode : AcquireMode) (tid : ℕ) (m : Mutex)
    → m.holding_thread ≡ none
    → attempt mode tid m ≡ (granted, record m { holding_thread = some tid })
unfolding attempt
attempt-free mode tid m a = rw a refl

attempt-held :
    (mode : AcquireMode) (tid u : ℕ) (m : Mutex)
    → m.holding_thread ≡ some u
    → attempt mode tid m ≡ (if u == tid then granted else on_contest mode, m)
unfolding attempt
attempt-held mode tid u m a = rw a refl

calling-Owned :
    (tid : ℕ) (w : World) → (w.threads tid).phase ≡ outside → Owned w → Owned (calling tid w)
calling-Owned tid w p v = put-Owned tid looping w (outside-counted _ p) (λ e. cc) v

attempting-Owned :
    (mode : AcquireMode) (tid : ℕ) (w : World)
    → (w.threads tid).phase ≡ looping
    → Owned w
    → Owned (attempting mode tid w)
attempting-Owned mode tid w p (unowned a b c) = rw (attempt-free mode tid w.mutex a) (
    put-Owner tid _ _ w refl (b ∙ sym (c tid).shallow) (inr refl) (omega (arith, (c tid).shallow))
      (λ t away. c t))
attempting-Owned mode tid w p (owned u v) = elim (ℕ_discrete u tid) [
  | yes same ↦
      let o : Owner tid w = subst (λ k. Owner k w) same v in
      let mine : (u == tid) ≡ true = ground arith in
      rw (attempt-held mode tid u w.mutex v.holding, mine)
        (put-Owner tid _ w.mutex w o.holding o.times (inr refl) o.small o.others)
  | no ne ↦
      let other : (u == tid) ≡ false = ground arith in
      rw (attempt-held mode tid u w.mutex v.holding, other)
        (put-Owned tid (phase_after (on_contest mode)) w (looping-counted _ p)
          (on_contest-counted mode) (owned u v))
]

counting-Owned :
    (tid : ℕ) (w : World)
    → (w.threads tid).phase ≡ uncounted
    → (w.threads tid).depth + 1 < size_limit
    → Owned w
    → Owned (counting tid w)
unfolding count_up
counting-Owned tid w p h (unowned a b c) = absurd ((c tid).counted p)
counting-Owned tid w p h (owned u v) = elim (ℕ_discrete u tid) [
  | yes same ↦
      let o : Owner tid w = subst (λ k. Owner k w) same v in
      put-Owner tid _ _ w o.holding (omega (arith, o.times)) (inl (omega arith)) h o.others
  | no ne ↦ absurd ((v.others tid (λ e. ne (sym e))).counted p)
]

released-Owned :
    (tid : ℕ) (w : World)
    → (w.threads tid).phase ≡ outside
    → 0 < (w.threads tid).depth
    → Owner tid w
    → Owned (releasing tid w)
unfolding release
released-Owned tid w p h o = elim (ℕ_discrete (w.threads tid).depth 1) [
  | yes last ↦
      let now : (w.mutex.times_locked == 1) ≡ true = ground (arith, o.times) in
      rw now (
        unowned refl (omega (arith, o.times)) (λ t.
          put-cases Apart tid t _ w.threads
            (λ same. record { shallow = omega arith; counted = λ e. cc })
            (λ away. o.others t away)))
  | no more ↦
      let not_now : (w.mutex.times_locked == 1) ≡ false = ground (arith, o.times) in
      rw not_now (
        put-Owner tid _ _ w o.holding (omega (arith, o.times, o.small)) (inl (omega arith))
          (omega (arith, o.small)) o.others)
]

releasing-Owned :
    (tid : ℕ) (w : World)
    → (w.threads tid).phase ≡ outside
    → 0 < (w.threads tid).depth
    → Owned w
    → Owned (releasing tid w)
unfolding release
releasing-Owned tid w p h (unowned a b c) = absurd (omega (arith, (c tid).shallow))
releasing-Owned tid w p h (owned u v) = elim (ℕ_discrete u tid) [
  | yes same ↦ released-Owned tid w p h (subst (λ k. Owner k w) same v)
  | no ne ↦ absurd (omega (arith, (v.others tid (λ e. ne (sym e))).shallow))
]

pub Reached-Owned : {w : World} → Reached w → Owned w
unfolding started new_mutex
Reached-Owned at_start = unowned refl refl (λ t. record { shallow = refl; counted = λ e. cc })
Reached-Owned (calls {w = w} tid p r) = calling-Owned tid w p (Reached-Owned r)
Reached-Owned (attempts {w = w} mode tid p r) = attempting-Owned mode tid w p (Reached-Owned r)
Reached-Owned (counts {w = w} tid p h r) = counting-Owned tid w p h (Reached-Owned r)
Reached-Owned (releases {w = w} tid p h r) = releasing-Owned tid w p h (Reached-Owned r)
