-- ===== src/Libterm/Screen/Loops.antt =====
-- What the in-place loops of libraries/libterm/Terminal.cpp leave in each element.
use duck_os.Prelude.{
  ℕ, zero, suc, ◌+◌, ◌-◌, ◌≤◌, ◌<◌, ◌≡◌, refl, ap, ◌∙◌, ◌⊎◌, some, List, [], ◌∷◌, ◌++◌, arith,
  length, get_elem?, set, replicate, take, drop, length-set, get_elem?-set_self, get_elem?-set_ne,
}
use native.Mathlib.Decide.{ℕ_discrete}
use duck_os.Libterm.Types.{Character}
use duck_os.Libterm.Screen.{Row, Rows, for_cells, for_rows}

module _ {A : Type 0} where
  -- Lists with the same elements are the same.
  pub list_ext :
      (xs ys : List A)
      → length xs ≡ length ys
      → ((i : ℕ) → i < length xs → get_elem? xs i ≡ get_elem? ys i)
      → xs ≡ ys
  list_ext [] [] e h = refl
  list_ext [] (y ∷ ys) e h = absurd (omega arith)
  list_ext (x ∷ xs) [] e h = absurd (omega arith)
  list_ext (x ∷ xs) (y ∷ ys) e h =
      let rest = list_ext xs ys (omega arith) (λ i p. h (suc i) (omega arith)) in
      let first : x ≡ y = cc (h 0 (omega arith)) in cc

  pub get_elem?-inside : (xs : List A) (k : ℕ) → k < length xs → (x : A) × (get_elem? xs k ≡ some x)
  get_elem?-inside [] k h = absurd (omega arith)
  get_elem?-inside (x ∷ xs) zero h = (x, refl)
  get_elem?-inside (x ∷ xs) (suc k) h = get_elem?-inside xs k (omega arith)

  pub get_elem?-drop : (n i : ℕ) (xs : List A) → get_elem? (drop n xs) i ≡ get_elem? xs (n + i)
  get_elem?-drop zero i xs = let e : i ≡ 0 + i = omega arith in ap (get_elem? xs) e
  get_elem?-drop (suc n) i [] = refl
  get_elem?-drop (suc n) i (x ∷ xs) =
      let e : suc (n + i) ≡ suc n + i = omega arith in
      get_elem?-drop n i xs ∙ ap (get_elem? (x ∷ xs)) e

  pub get_elem?-take : (n i : ℕ) (xs : List A) → i < n → get_elem? (take n xs) i ≡ get_elem? xs i
  get_elem?-take zero i xs h = absurd (omega arith)
  get_elem?-take (suc n) i [] h = refl
  get_elem?-take (suc n) zero (x ∷ xs) h = refl
  get_elem?-take (suc n) (suc i) (x ∷ xs) h = get_elem?-take n i xs (omega arith)

  pub get_elem?-replicate : (n i : ℕ) (x : A) → i < n → get_elem? (replicate n x) i ≡ some x
  get_elem?-replicate zero i x h = absurd (omega arith)
  get_elem?-replicate (suc n) zero x h = refl
  get_elem?-replicate (suc n) (suc i) x h = get_elem?-replicate n i x (omega arith)

  pub length-drop : (n : ℕ) (xs : List A) → length (drop n xs) ≡ length xs - n
  length-drop zero xs = omega arith
  length-drop (suc n) [] = omega arith
  length-drop (suc n) (x ∷ xs) = omega (arith, length-drop n xs)

  pub length-take : (n : ℕ) (xs : List A) → n ≤ length xs → length (take n xs) ≡ n
  length-take zero xs h = refl
  length-take (suc n) [] h = absurd (omega arith)
  length-take (suc n) (x ∷ xs) h = ap suc (length-take n xs (omega arith))

  pub get_elem?-left :
      (xs ys : List A) (i : ℕ) → i < length xs → get_elem? (xs ++ ys) i ≡ get_elem? xs i
  get_elem?-left [] ys i h = absurd (omega arith)
  get_elem?-left (x ∷ xs) ys zero h = refl
  get_elem?-left (x ∷ xs) ys (suc i) h = get_elem?-left xs ys i (omega arith)

  pub get_elem?-right :
      (xs ys : List A) (i : ℕ)
      → length xs ≤ i
      → get_elem? (xs ++ ys) i ≡ get_elem? ys (i - length xs)
  get_elem?-right [] ys i h = let e : i ≡ i - 0 = omega arith in ap (get_elem? ys) e
  get_elem?-right (x ∷ xs) ys zero h = absurd (omega arith)
  get_elem?-right (x ∷ xs) ys (suc i) h =
      let e : i - length xs ≡ suc i - suc (length xs) = omega arith in
      get_elem?-right xs ys i (omega arith) ∙ ap (get_elem? ys) e

pub length-for_cells :
    (value : ℕ → Character) (n x : ℕ) (row : Row) → length (for_cells value n x row) ≡ length row
unfolding for_cells
length-for_cells value zero x row = refl
length-for_cells value (suc n) x row =
    length-for_cells value n (x + 1) (set row x (value x)) ∙ length-set row x (value x)

for_cells-before :
    (value : ℕ → Character) (n x j : ℕ) (row : Row)
    → j < x
    → get_elem? (for_cells value n x row) j ≡ get_elem? row j
unfolding for_cells
for_cells-before value zero x j row h = refl
for_cells-before value (suc n) x j row h =
    for_cells-before value n (x + 1) j (set row x (value x)) (omega arith)
    ∙ get_elem?-set_ne row x j (value x) (omega arith)

pub for_cells-at :
    (value : ℕ → Character) (n x j : ℕ) (row : Row)
    → x ≤ j
    → j < x + n
    → j < length row
    → get_elem? (for_cells value n x row) j ≡ some (value j)
unfolding for_cells
for_cells-at value zero x j row lo hi h = absurd (omega arith)
for_cells-at value (suc n) x j row lo hi h = elim (ℕ_discrete x j) [
  | yes e ↦ rw (← e) (
      for_cells-before value n (x + 1) x (set row x (value x)) (omega arith)
      ∙ get_elem?-set_self row x (value x) (omega arith))
  | no ne ↦
      for_cells-at value n (x + 1) j (set row x (value x)) (omega arith) (omega arith)
        (omega (arith, length-set row x (value x)))
]

pub length-for_rows :
    (value : ℕ → Rows → Row) (n y : ℕ) (rows : Rows)
    → length (for_rows value n y rows) ≡ length rows
unfolding for_rows
length-for_rows value zero y rows = refl
length-for_rows value (suc n) y rows =
    length-for_rows value n (y + 1) (set rows y (value y rows)) ∙ length-set rows y (value y rows)

pub for_rows-outside :
    (value : ℕ → Rows → Row) (n y j : ℕ) (rows : Rows)
    → (j < y) ⊎ (y + n ≤ j)
    → get_elem? (for_rows value n y rows) j ≡ get_elem? rows j
unfolding for_rows
for_rows-outside value zero y j rows h = refl
for_rows-outside value (suc n) y j rows h =
    for_rows-outside value n (y + 1) j (set rows y (value y rows)) (omega arith)
    ∙ get_elem?-set_ne rows y j (value y rows) (omega arith)

-- The value of a row that looks at its own row and those behind it only.
abbrev pub LooksAhead : (ℕ → Rows → Row) → Type 0
LooksAhead value =
    (j : ℕ) (rows rows' : Rows)
    → ((i : ℕ) → j ≤ i → get_elem? rows i ≡ get_elem? rows' i)
    → value j rows ≡ value j rows'

-- Such a loop gives each row its value in the rows that there were before.
pub for_rows-at :
    (value : ℕ → Rows → Row) (n y j : ℕ) (rows : Rows)
    → LooksAhead value
    → y ≤ j
    → j < y + n
    → j < length rows
    → get_elem? (for_rows value n y rows) j ≡ some (value j rows)
unfolding for_rows
for_rows-at value zero y j rows ahead lo hi h = absurd (omega arith)
for_rows-at value (suc n) y j rows ahead lo hi h =
    let next : Rows = set rows y (value y rows) in
    elim (ℕ_discrete y j) [
      | yes e ↦ rw (← e) (
          for_rows-outside value n (y + 1) y next (omega arith)
          ∙ get_elem?-set_self rows y (value y rows) (omega arith))
      | no ne ↦
          for_rows-at value n (y + 1) j next ahead (omega arith) (omega arith)
            (omega (arith, length-set rows y (value y rows)))
          ∙ ap some
              (ahead j next rows (λ i p. get_elem?-set_ne rows y i (value y rows) (omega arith)))
    ]
