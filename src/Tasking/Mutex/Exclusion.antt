-- ===== src/Tasking/Mutex/Exclusion.antt =====
-- Mutual exclusion of the mutex of kernel/tasking/Mutex.cpp.
use duck_os.Prelude.{ℕ, ◌<◌, ◌≡◌, ◌≢◌, refl, sym, subst, ◌∙◌, inl, inr, none, some, arith}
use native.Mathlib.Decide.{ℕ_discrete}
use duck_os.Tasking.Mutex.{AcquireMode, granted, attempt}
use duck_os.Tasking.Mutex.Threads.{World, Reached}
use duck_os.Tasking.Mutex.Ownership.{
  Apart, Owner, Owned, unowned, owned, attempt-free, Reached-Owned,
}

owner_of :
    (w : World) (u t : ℕ)
    → ((k : ℕ) → k ≢ u → Apart (w.threads k))
    → 0 < (w.threads t).depth
    → t ≡ u
owner_of w u t e p = elim (ℕ_discrete t u) [
  | yes same ↦ same
  | no ne ↦ absurd (omega (arith, (e t ne).shallow))
]

owner_alone :
    (w : World) (t u : ℕ) → Owned w → 0 < (w.threads t).depth → 0 < (w.threads u).depth → t ≡ u
owner_alone w t u (unowned a b c) p q = absurd (omega (arith, (c t).shallow))
owner_alone w t u (owned k v) p q = owner_of w k t v.others p ∙ sym (owner_of w k u v.others q)

-- In every world that is reached by atomic steps of any threads, in any order, that call, go round
-- the acquire loop, count and release, where a thread releases only what it has acquired and never
-- holds the mutex 2^32 times over, two threads that are inside the mutex are the same thread.
pub mutual_exclusion :
    (w : World) (t u : ℕ) → Reached w → 0 < (w.threads t).depth → 0 < (w.threads u).depth → t ≡ u
mutual_exclusion w t u r p q = owner_alone w t u (Reached-Owned r) p q

owner-holds :
    (w : World) (t : ℕ)
    → Owned w
    → 0 < (w.threads t).depth
    → (w.mutex.holding_thread ≡ some t) × (w.mutex.times_locked ≡ (w.threads t).depth)
owner-holds w t (unowned a b c) p = absurd (omega (arith, (c t).shallow))
owner-holds w t (owned k v) p =
    let o : Owner t w = subst (λ i. Owner i w) (sym (owner_of w k t v.others p)) v in
    (o.holding, o.times)

-- In every world that such steps reach, when a thread is inside the mutex, it is the holding
-- thread, and m_times_locked, read as 32 bits without a sign, is the number of times that it has
-- acquired the mutex and not released it.
pub holding_thread-counts :
    (w : World) (t : ℕ)
    → Reached w
    → 0 < (w.threads t).depth
    → (w.mutex.holding_thread ≡ some t) × (w.mutex.times_locked ≡ (w.threads t).depth)
holding_thread-counts w t r p = owner-holds w t (Reached-Owned r) p

Apart-free : (w : World) → Owned w → ((t : ℕ) → Apart (w.threads t)) → w.mutex.holding_thread ≡ none
Apart-free w (unowned a b c) h = a
Apart-free w (owned u v) h = elim v.inside [
  | inl deep ↦ absurd (omega (arith, (h u).shallow))
  | inr now ↦ absurd ((h u).counted now)
]

-- In every world that such steps reach in which no thread is inside the mutex or between its
-- exchange and its count, the next round of any thread, in either mode, gets the mutex: releases
-- never leave it held.
pub attempt-unheld :
    (w : World) (mode : AcquireMode) (tid : ℕ)
    → Reached w
    → ((t : ℕ) → Apart (w.threads t))
    → (attempt mode tid w.mutex).0 ≡ granted
attempt-unheld w mode tid r h =
    rw (attempt-free mode tid w.mutex (Apart-free w (Reached-Owned r) h)) refl
