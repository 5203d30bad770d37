-- ===== src/Kstd/Ring/Holds.antt =====
-- When a ring (kernel/kstd/circular_queue.hpp, kernel/kstd/queue.hpp) holds a list of objects.
use duck_os.Prelude.{
  ℕ, zero, suc, ◌+◌, ◌-◌, ◌%◌, ◌≤◌, ◌<◌, ◌≡◌, ◌≢◌, refl, subst, ◌∙◌, ◌⊎◌, inl, inr, some, List, [],
  ◌∷◌, ◌++◌, arith, length, get_elem?, set, ltb, if◌then◌else◌, Bool-cases, length-set,
  get_elem?-set_self, get_elem?-set_ne, length-append,
}
use native.Mathlib.Decide.{ℕ_discrete}
use native.Mathlib.Nat.{mod-eq_of_lt, mod-eq-sub-mod}
use duck_os.Prelude.Words.{size_limit, add_size}
use duck_os.Kstd.Ring.{Ring, append_back}

-- The index `k` steps on from `h`, round a storage of `cap` slots.
abbrev pub around : ℕ → ℕ → ℕ → ℕ
around cap h k = if ltb (h + k) cap then h + k else h + k - cap

pub mod-around : (cap h k : ℕ) → h < cap → k ≤ cap → (h + k) % cap ≡ around cap h k
mod-around cap h k p q = elim (Bool-cases (ltb (h + k) cap)) [
  | inl t ↦ rw t (mod-eq_of_lt (ground arith))
  | inr t ↦ rw t (
      mod-eq-sub-mod {n = h + k} {m = cap} (ground arith)
      ∙ mod-eq_of_lt {n = h + k - cap} {m = cap} (ground arith))
]

module _ {A : Type 0} where
  pub record Holds (r : Ring A) (xs : List A) : Type 0 where
    pub sized : r.size ≡ length xs
    pub fits : r.size ≤ r.capacity
    pub room : length r.storage ≡ r.capacity
    pub small : r.capacity < size_limit
    pub front_in : (r.front < r.capacity) ⊎ (r.size ≡ 0)
    pub back_at : (r.size ≡ 0) ⊎ (r.back ≡ around r.capacity r.front (r.size - 1))
    pub slots :
        (k : ℕ)
        → k < r.size
        → get_elem? r.storage (around r.capacity r.front k) ≡ some (get_elem? xs k)

  pub nil_of_length : (xs : List A) → length xs ≡ 0 → [] ≡ xs
  nil_of_length [] h = refl
  nil_of_length (x ∷ xs) h = absurd (omega arith)

  pub get_elem?-append_left :
      (xs ys : List A) (k : ℕ) → k < length xs → get_elem? (xs ++ ys) k ≡ get_elem? xs k
  get_elem?-append_left [] ys k h = elim h [ ]
  get_elem?-append_left (x ∷ xs) ys zero h = refl
  get_elem?-append_left (x ∷ xs) ys (suc k) h = get_elem?-append_left xs ys k (omega arith)

  pub get_elem?-append_end :
      (xs : List A) (x : A) (k : ℕ) → k ≡ length xs → get_elem? (xs ++ x ∷ []) k ≡ some x
  get_elem?-append_end [] x zero h = refl
  get_elem?-append_end [] x (suc k) h = absurd (omega arith)
  get_elem?-append_end (y ∷ xs) x zero h = absurd (omega arith)
  get_elem?-append_end (y ∷ xs) x (suc k) h = get_elem?-append_end xs x k (omega arith)

  append_back-empty :
      (x : A) (r : Ring A)
      → r.size ≡ 0
      → append_back x r
        ≡ record r { storage = set r.storage 0 (some x); size = 1; front = 0; back = 0 }
  unfolding append_back
  append_back-empty x r z = ground arith

  append_back-more :
      (x : A) (r : Ring A) (xs : List A)
      → Holds r xs
      → r.size < r.capacity
      → r.size ≢ 0
      → append_back x r ≡ record r {
        storage = set r.storage (around r.capacity r.front r.size) (some x);
        size = r.size + 1;
        back = around r.capacity r.front r.size;
      }
  unfolding append_back
  append_back-more x r xs v h nz =
      let b : add_size r.back 1 % r.capacity ≡ around r.capacity r.front r.size =
        ground (arith, mod-around r.capacity r.back 1) in
      ground (arith, b)

  Holds-first :
      (x : A) (r : Ring A)
      → 0 < r.capacity
      → r.capacity < size_limit
      → length r.storage ≡ r.capacity
      → Holds
          (record r { storage = set r.storage 0 (some x); size = 1; front = 0; back = 0 })
          (x ∷ [])
  Holds-first x r p q l = record {
    sized = refl;
    fits = omega arith;
    room = length-set r.storage 0 (some x) ∙ l;
    small = q;
    front_in = inl p;
    back_at = inr (ground arith);
    slots = λ k h. ground (arith, get_elem?-set_self r.storage 0 (some x));
  }

  Holds-more :
      (x : A) (r : Ring A) (xs : List A)
      → Holds r xs
      → r.size < r.capacity
      → r.size ≢ 0
      → Holds
          (record r {
            storage = set r.storage (around r.capacity r.front r.size) (some x);
            size = r.size + 1;
            back = around r.capacity r.front r.size;
          })
          (xs ++ x ∷ [])
  Holds-more x r xs v h nz =
      let end : ℕ = around r.capacity r.front r.size in
      record {
        sized = omega (arith, v, length-append xs (x ∷ []));
        fits = omega arith;
        room = length-set r.storage end (some x) ∙ v.room;
        small = v.small;
        front_in = ground (arith, v.front_in);
        back_at = inr (ground arith);
        slots = λ k p. elim (ℕ_discrete k r.size) [
          | yes e ↦ ground (
            arith,
            v.front_in,
            get_elem?-set_self r.storage end (some x),
            get_elem?-append_end xs x k,
          )
          | no ne ↦ ground (
            arith,
            v.front_in,
            get_elem?-set_ne r.storage end (around r.capacity r.front k) (some x),
            get_elem?-append_left xs (x ∷ []) k,
            v.slots k,
          )
        ];
      }

  -- Where there is room, `append_back` adds its object at the end.
  pub append_back-Holds :
      (x : A) (r : Ring A) (xs : List A)
      → Holds r xs
      → r.size < r.capacity
      → Holds (append_back x r) (xs ++ x ∷ [])
  append_back-Holds x r xs v h = elim (ℕ_discrete r.size 0) [
    | yes z ↦ rw (append_back-empty x r z) (
        subst
          (λ ys.
            Holds (record r { storage = set r.storage 0 (some x); size = 1; front = 0; back = 0 })
              (ys ++ x ∷ []))
          (nil_of_length xs (omega (arith, v))) (Holds-first x r (omega arith) v.small v.room))
    | no nz ↦ rw (append_back-more x r xs v h nz) (Holds-more x r xs v h nz)
  ]
