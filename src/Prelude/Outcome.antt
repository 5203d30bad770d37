-- ===== src/Prelude/Outcome.antt =====
-- What a kernel function leaves: `Result` and `ResultRet` of kernel/Result.hpp, with one more case
-- for a run that a failed `ASSERT` or a bad pointer stops.
use mathlib.Core.Path.{◌≡◌, refl, sym, ap, subst, ◌∙◌}
use mathlib.Core.Bool.{Bool, true, false}

-- The error codes of kernel/api/errno.h that the modelled functions return.
pub data Errno : Type 0 where
  enoent enomem einval : Errno

pub data Outcome {ℓ} (A : Type ℓ) : Type ℓ where
  ok : A → Outcome A
  err : Errno → Outcome A
  fault : Outcome A

-- `TRY(e)`: whatever stops the call stops its caller too.
infixl 5 ◌>>=◌
abbrev pub ◌>>=◌ {ℓ κ} : {V : Type ℓ} {W : Type κ} → Outcome V → (V → Outcome W) → Outcome W
fault >>= next = fault
err code >>= next = err code
ok v >>= next = next v

infixl 5 ◌>>◌
abbrev pub ◌>>◌ {ℓ} : {W : Type ℓ} → Outcome (Unit {0}) → Outcome W → Outcome W
check >> rest = check >>= λ _. rest

-- `ASSERT(cond)`
abbrev pub assert : Bool → Outcome (Unit {0})
assert true = ok tt
assert false = fault

-- `if(!cond) return Result(e);`
abbrev pub require : Bool → Errno → Outcome (Unit {0})
require true e = ok tt
require false e = err e

-- What stood between the two calls of a chain that succeeds.
pub >>=-eq-ok {ℓ κ} :
    {V : Type ℓ} {W : Type κ} (call : Outcome V) (next : V → Outcome W) {w : W}
    → (call >>= next) ≡ ok w
    → (v : V) × (call ≡ ok v) × (next v ≡ ok w)
>>=-eq-ok fault next e = cc
>>=-eq-ok (err code) next e = cc
>>=-eq-ok (ok v) next e = (v, refl, e)

pub require-eq-ok : (b : Bool) (e : Errno) {u : Unit {0}} → require b e ≡ ok u → b ≡ true
require-eq-ok true e h = refl
require-eq-ok false e h = cc

pub ok-injective {ℓ} : {A : Type ℓ} {a b : A} → ok a ≡ ok b → a ≡ b
ok-injective {a = a} e = ap (λ o. elim o [ ok x ↦ x | err code ↦ a | fault ↦ a ]) e

pub assert-eq-ok : (b : Bool) {u : Unit {0}} → assert b ≡ ok u → b ≡ true
assert-eq-ok true h = refl
assert-eq-ok false h = cc

-- A statement about the value of a call, moved along an equation of calls.
abbrev pub Ensures {ℓ κ} : {A : Type ℓ} → (A → Type κ) → Outcome A → Type κ
Ensures P (ok a) = P a
Ensures P (err e) = Unit
Ensures P fault = Unit

pub Ensures-ok {ℓ κ} :
    {A : Type ℓ} (P : A → Type κ) (m : Outcome A) {a b : A} → m ≡ ok a → m ≡ ok b → P a → P b
Ensures-ok P m e f h = subst (Ensures P) (sym e ∙ f) h

pub Ensures->>= {ℓ κ μ} :
    {A : Type ℓ} {B : Type κ} (P : B → Type μ) (m : Outcome A) (f : A → Outcome B)
    → ((a : A) → m ≡ ok a → Ensures P (f a))
    → Ensures P (m >>= f)
Ensures->>= P (ok a) f h = h a refl
Ensures->>= P (err e) f h = tt
Ensures->>= P fault f h = tt

pub Ensures-self {ℓ κ} :
    {A : Type ℓ} (P : A → Type κ) (m : Outcome A) → ((a : A) → m ≡ ok a → P a) → Ensures P m
Ensures-self P (ok a) h = h a refl
Ensures-self P (err e) h = tt
Ensures-self P fault h = tt

pub Ensures-at {ℓ κ} :
    {A : Type ℓ} (P : A → Type κ) (m : Outcome A) {a : A} → m ≡ ok a → Ensures P m → P a
Ensures-at P m e h = subst (Ensures P) e h
