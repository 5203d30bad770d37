-- ===== src/Memory/VmSpace/Invariant.antt =====
-- What holds of the regions of an address space (kernel/memory/VMSpace.cpp) between two calls.
use duck_os.Prelude.{
  ℕ, zero, suc, ◌+◌, ◌≤◌, ◌<◌, ◌≡◌, refl, subst, ◌⊎◌, Bool, true, false, not, ◌&&◌, Option, none,
  some, get_elem?, ltb, leb, if◌then◌else◌, List, [], ◌∷◌, arith,
}
use duck_os.Prelude.Words.{size_limit}
use duck_os.Memory.VmSpace.{SpaceRegion, contains}

-- A free region has no `VMRegion`.
abbrev pub IsClean : SpaceRegion → Type 0
IsClean r = (r.used ≡ true) ⊎ (r.vm_region ≡ none)

-- The regions cover the addresses from `a` to `e` in order, none is empty, no two free ones stand
-- side by side, and a free one is clean. The first argument says whether the region before is free.
abbrev pub Chain : Bool → ℕ → List SpaceRegion → ℕ → Type 0
Chain free a [] e = a ≡ e
Chain free a (r ∷ rs) e =
    (r.start ≡ a)
    × (0 < r.size)
    × ((free && not r.used) ≡ false)
    × IsClean r
    × Chain (not r.used) (a + r.size) rs e

-- The sum that `m_used` holds.
unfoldable pub used_total : List SpaceRegion → ℕ
used_total [] = 0
used_total (r ∷ rs) = elim r.used [ true ↦ r.size + used_total rs | false ↦ used_total rs ]

pub Chain-le : (free : Bool) (a e : ℕ) (rs : List SpaceRegion) → Chain free a rs e → a ≤ e
Chain-le free a e [] c = omega arith
Chain-le free a e (r ∷ rs) c = omega (arith, Chain-le (not r.used) (a + r.size) e rs (c.4))

pub Chain-bounds :
    (free : Bool) (a e i : ℕ) (r : SpaceRegion) (rs : List SpaceRegion)
    → Chain free a rs e
    → get_elem? rs i ≡ some r
    → (a ≤ r.start) × (r.start + r.size ≤ e) × (0 < r.size)
Chain-bounds free a e i r [] c g = cc
Chain-bounds free a e zero r (s ∷ rs) c g =
    ground (arith, Chain-le (not s.used) (a + s.size) e rs c.4)
Chain-bounds free a e (suc i) r (s ∷ rs) c g =
    ground (arith, Chain-bounds (not s.used) (a + s.size) e i r rs c.4 g)

-- After a region in use anything may stand.
pub Chain-weaken :
    (free : Bool) (a e : ℕ) (rs : List SpaceRegion) → Chain free a rs e → Chain false a rs e
Chain-weaken free a e [] c = c
Chain-weaken free a e (r ∷ rs) c = (c.0, c.1, refl, c.3, c.4)

-- A statement about the regions and the position that an allocation gives, if it succeeds.
abbrev pub Gives : (List SpaceRegion → ℕ → Type 0) → Option (List SpaceRegion × ℕ) → Type 0
Gives P none = Unit {0}
Gives P (some (rs, i)) = P rs i

-- The start of the region at a position.
abbrev pub start_at : List SpaceRegion → ℕ → ℕ
start_at [] i = 0
start_at (r ∷ rs) zero = r.start
start_at (r ∷ rs) (suc i) = start_at rs i

-- Whether an address lies in a region in use: the abstract view of the space.
unfoldable pub used_at : List SpaceRegion → ℕ → Bool
used_at [] x = false
used_at (r ∷ rs) x = if contains r x then r.used else used_at rs x

abbrev pub in_range : ℕ → ℕ → ℕ → Bool
in_range lo n x = leb lo x && ltb x (lo + n)

-- In a region whose end does not wrap, `contains` is the plain test.
pub contains-in_range :
    (r : SpaceRegion) (x : ℕ)
    → r.start + r.size < size_limit
    → contains r x ≡ in_range r.start r.size x
unfolding contains
contains-in_range r x h = ground arith

-- A region as an allocation leaves it, before its `VMRegion` is set.
abbrev pub granted : ℕ → ℕ → SpaceRegion
granted start size = record { start = start; size = size; used = true; vm_region = none }

pub Gives-some :
    (P : List SpaceRegion → ℕ → Type 0) (o : Option (List SpaceRegion × ℕ)) {rs : List SpaceRegion}
    {i : ℕ}
    → Gives P o
    → o ≡ some (rs, i)
    → P rs i
Gives-some P o g e = subst (Gives P) e g

pub used_total-le :
    (free : Bool) (a e : ℕ) (rs : List SpaceRegion) → Chain free a rs e → used_total rs + a ≤ e
unfolding used_total
used_total-le free a e [] c = omega arith
used_total-le free a e (r ∷ rs) c = ground (arith, used_total-le (not r.used) (a + r.size) e rs c.4)
