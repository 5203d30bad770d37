-- ===== src/Memory/VmSpace/Attach.antt =====
-- Setting the `VMRegion` of a granted region (kernel/memory/VMSpace.cpp).
use duck_os.Prelude.{
  ℕ, zero, suc, ◌+◌, ◌<◌, ◌≡◌, refl, ap, Bool, true, not, some, List, [], ◌∷◌, arith, get_elem?,
}
use duck_os.Prelude.Words.{size_limit}
use duck_os.Prelude.Outcome.{Outcome, ok, err, fault}
use duck_os.Memory.VmSpace.{SpaceRegion, VmRegion, contains}
use duck_os.Memory.VmSpace.Invariant.{
  Chain, Chain-le, Chain-bounds, used_total, used_at, in_range, contains-in_range,
}
use duck_os.Memory.VmSpace.Fresh.{free_in-set_vm_region}
use duck_os.Memory.VmSpace.Space.{Space, set_vm_region, find_region, free_region}

-- Setting the `VMRegion` of a region in use leaves the rest of the invariant alone.
pub set_vm_region-Chain :
    (free : Bool) (a e i : ℕ) (v : VmRegion) (r : SpaceRegion) (rs : List SpaceRegion)
    → Chain free a rs e
    → get_elem? rs i ≡ some r
    → r.used ≡ true
    → Chain free a (set_vm_region rs i v) e
unfolding set_vm_region
set_vm_region-Chain free a e i v r [] c g u = cc
set_vm_region-Chain free a e zero v r (s ∷ rs) c g u = ground arith
set_vm_region-Chain free a e (suc i) v r (s ∷ rs) c g u =
    ground (arith, set_vm_region-Chain (not s.used) (a + s.size) e i v r rs c.4 g u)

pub set_vm_region-used_total :
    (i : ℕ) (v : VmRegion) (rs : List SpaceRegion)
    → used_total (set_vm_region rs i v) ≡ used_total rs
unfolding set_vm_region used_total
set_vm_region-used_total i v [] = refl
set_vm_region-used_total zero v (r ∷ rs) = refl
set_vm_region-used_total (suc i) v (r ∷ rs) = ground (arith, set_vm_region-used_total i v rs)

pub set_vm_region-used_at :
    (i x : ℕ) (v : VmRegion) (rs : List SpaceRegion)
    → used_at (set_vm_region rs i v) x ≡ used_at rs x
unfolding set_vm_region used_at contains
set_vm_region-used_at i x v [] = refl
set_vm_region-used_at zero x v (r ∷ rs) = refl
set_vm_region-used_at (suc i) x v (r ∷ rs) = ground (arith, set_vm_region-used_at i x v rs)

-- The region that contains an address of the range of region `i` is region `i`.
pub find_region-contains :
    (free : Bool) (a e i x : ℕ) (v : VmRegion) (r : SpaceRegion) (rs : List SpaceRegion)
    → e < size_limit
    → Chain free a rs e
    → get_elem? rs i ≡ some r
    → in_range r.start r.size x ≡ true
    → find_region (λ s. contains s x) (set_vm_region rs i v)
      ≡ some (i, record r { vm_region = some v })
unfolding set_vm_region find_region
find_region-contains free a e i x v r [] h c g m = cc
find_region-contains free a e zero x v r (s ∷ rs) h c g m = ground (
  arith,
  contains-in_range (record s { vm_region = some v }) x,
  Chain-le (not s.used) (a + s.size) e rs c.4,
)
find_region-contains free a e (suc i) x v r (s ∷ rs) h c g m = ground (
  arith,
  contains-in_range s x,
  Chain-bounds (not s.used) (a + s.size) e i r rs c.4 g,
  find_region-contains (not s.used) (a + s.size) e i x v r rs h c.4 g m,
)

pub get_elem?-set_vm_region :
    (i : ℕ) (v : VmRegion) (r : SpaceRegion) (rs : List SpaceRegion)
    → get_elem? rs i ≡ some r
    → get_elem? (set_vm_region rs i v) i ≡ some (record r { vm_region = some v })
unfolding set_vm_region
get_elem?-set_vm_region i v r [] g = cc
get_elem?-set_vm_region zero v r (s ∷ rs) g = ground arith
get_elem?-set_vm_region (suc i) v r (s ∷ rs) g = get_elem?-set_vm_region i v r rs g

-- A free does not read what else the space holds.
pub free_region-frame :
    {D : Type 0} (i n : ℕ) (v : VmRegion) (r : SpaceRegion) (p : D) (s t : Space D)
    → get_elem? t.regions i ≡ some r
    → free_region i t ≡ ok s
    → free_region i
        (record t { regions = set_vm_region t.regions i v; page_directory = p; next_id = n })
      ≡ ok (record s { page_directory = p; next_id = n })
unfolding free_region
free_region-frame i n v r p s t g h =
    rw (get_elem?-set_vm_region i v r t.regions g, free_in-set_vm_region i v t.regions)
      (ap (framed p n) (rw g at h))
  where
    framed : {E : Type 0} → E → ℕ → Outcome (Space E) → Outcome (Space E)
    framed p n (ok s) = ok (record s { page_directory = p; next_id = n })
    framed p n (err e) = err e
    framed p n fault = fault

pub free_region-keeps :
    {D : Type 0} (i : ℕ) (r : SpaceRegion) (s t : Space D)
    → get_elem? t.regions i ≡ some r
    → free_region i t ≡ ok s
    → (t.page_directory ≡ s.page_directory) × (t.next_id ≡ s.next_id)
unfolding free_region
free_region-keeps i r s t g h = ground arith
