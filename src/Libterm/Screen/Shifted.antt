-- ===== src/Libterm/Screen/Shifted.antt =====
-- The row loops of libraries/libterm/Terminal.cpp as list operations.
use duck_os.Prelude.{
  ℕ, zero, suc, ◌+◌, ◌-◌, ◌≤◌, ◌<◌, ◌≡◌, refl, sym, ap, subst, ◌∙◌, inl, inr, false, none, some,
  List, [], ◌∷◌, ◌++◌, append-nil, arith, length, get_elem?, replicate, take, drop,
  length-replicate, length-append, ltb, leb, if◌then◌else◌, Bool-cases,
}
use mathlib.Core.List.{map}
use duck_os.Libterm.Types.{Character}
use duck_os.Libterm.Screen.{
  Row, Rows, row_at, cell_at, for_cells, for_rows, blank_row, scrolled_row, scroll_rows, clear_rows,
  resize, resize_row, resize_rows,
}
use duck_os.Libterm.Screen.Loops.{
  list_ext, get_elem?-inside, get_elem?-drop, get_elem?-take, get_elem?-replicate, length-drop,
  length-take, get_elem?-left, get_elem?-right, length-for_cells, for_cells-at, length-for_rows,
  for_rows-at, LooksAhead,
}

-- Every row is `cols` wide.
pub record Wide (cols : ℕ) (rows : Rows) : Type 0 where
  pub width : (y : ℕ) → y < length rows → length (row_at rows y) ≡ cols

pub row_at-get :
    (rows : Rows) (y : ℕ) {row : Row} → get_elem? rows y ≡ some row → row_at rows y ≡ row
row_at-get rows y e = ground (arith, e)

row_at-same :
    (rows rows' : Rows) (y : ℕ)
    → get_elem? rows y ≡ get_elem? rows' y
    → row_at rows y ≡ row_at rows' y
row_at-same rows rows' y e = ap (λ o. elim o as (λ x. Row) [ none ↦ [] | some row ↦ row ]) e

get-row_at : (rows : Rows) (y : ℕ) → y < length rows → get_elem? rows y ≡ some (row_at rows y)
get-row_at rows y h =
    let (row, e) = get_elem?-inside rows y h in e ∙ ap some (sym (row_at-get rows y e))

get-cell_at : (row : Row) (x : ℕ) → x < length row → get_elem? row x ≡ some (cell_at row x)
get-cell_at row x h = let (c, e) = get_elem?-inside row x h in ground (arith, e)

-- A loop over all cells of a row.
all_cells :
    (value : ℕ → Character) (row out : Row)
    → length out ≡ length row
    → ((x : ℕ) → x < length out → some (value x) ≡ get_elem? out x)
    → for_cells value (length out) 0 row ≡ out
all_cells value row out e h =
    let same_length : length (for_cells value (length out) 0 row) ≡ length out =
      length-for_cells value (length out) 0 row ∙ sym e in
    list_ext _ out same_length (λ x p.
      for_cells-at value (length out) 0 x row (omega arith) (omega arith) (omega arith)
      ∙ h x (omega arith))

pub blank_row-eq :
    (cols : ℕ) (blank : Character) (row : Row)
    → length row ≡ cols
    → blank_row cols blank row ≡ replicate cols blank
unfolding blank_row
blank_row-eq cols blank row e =
    let l : length (replicate cols blank) ≡ cols = length-replicate cols blank in
    subst (λ k. for_cells (λ x. blank) k 0 row ≡ replicate cols blank) l
      (all_cells (λ x. blank) row (replicate cols blank) (l ∙ sym e)
        (λ x p. sym (get_elem?-replicate cols x blank (omega arith))))

copied_row :
    (from row : Row)
    → length from ≡ length row
    → for_cells (λ x. cell_at from x) (length from) 0 row ≡ from
copied_row from row e =
    all_cells (λ x. cell_at from x) row from e (λ x p. sym (get-cell_at from x p))

scrolled_row-LooksAhead :
    (cols lines n : ℕ) (blank : Character) → LooksAhead (scrolled_row cols lines n blank)
unfolding scrolled_row
scrolled_row-LooksAhead cols lines n blank j rows rows' h =
    rw
      (
        row_at-same rows rows' j (h j (omega arith)),
        row_at-same rows rows' (j + n) (h (j + n) (omega arith)),
      )
      refl

-- A loop over all rows.
all_rows :
    (value : ℕ → Rows → Row) (rows out : Rows)
    → LooksAhead value
    → length out ≡ length rows
    → ((y : ℕ) → y < length out → some (value y rows) ≡ get_elem? out y)
    → for_rows value (length out) 0 rows ≡ out
all_rows value rows out ahead e h =
    let same_length : length (for_rows value (length out) 0 rows) ≡ length out =
      length-for_rows value (length out) 0 rows ∙ sym e in
    list_ext _ out same_length (λ y p.
      for_rows-at value (length out) 0 y rows ahead (omega arith) (omega arith) (omega arith)
      ∙ h y (omega arith))

abbrev pub shifted : ℕ → ℕ → Character → Rows → Rows
shifted cols n blank rows = drop n rows ++ replicate n (replicate cols blank)

scrolled_row-eq :
    (cols n : ℕ) (blank : Character) (rows : Rows) (y : ℕ)
    → Wide cols rows
    → n ≤ length rows
    → y < length rows
    → some (scrolled_row cols (length rows) n blank y rows)
      ≡ get_elem? (shifted cols n blank rows) y
unfolding scrolled_row
scrolled_row-eq cols n blank rows y w h p =
    let bottom : Rows = replicate n (replicate cols blank) in
    let top_length : length (drop n rows) ≡ length rows - n = length-drop n rows in
    elim (Bool-cases (leb (length rows - n) y)) [
      | inl low ↦
          let kept : get_elem? (shifted cols n blank rows) y
              ≡ get_elem? bottom (y - length (drop n rows)) =
            get_elem?-right (drop n rows) bottom y (ground arith) in
          let below : y - length (drop n rows) < n = ground arith in
          rw (low, kept, blank_row-eq cols blank (row_at rows y) (w.width y p))
            (sym (get_elem?-replicate n (y - length (drop n rows)) (replicate cols blank) below))
      | inr high ↦
          let from : Row = row_at rows (y + n) in
          let inside : y + n < length rows = ground arith in
          let same : length from ≡ cols = w.width (y + n) inside in
          let order : n + y ≡ y + n = omega arith in
          let kept : get_elem? (shifted cols n blank rows) y ≡ some from =
            get_elem?-left (drop n rows) bottom y (ground arith)
            ∙ get_elem?-drop n y rows
            ∙ ap (get_elem? rows) order
            ∙ get-row_at rows (y + n) inside in
          let copied : for_cells (λ x. cell_at from x) cols 0 (row_at rows y) ≡ from =
            subst (λ k. for_cells (λ x. cell_at from x) k 0 (row_at rows y) ≡ from) same
              (copied_row from (row_at rows y) (same ∙ sym (w.width y p))) in
          rw (high, kept, copied) refl
    ]

-- On a screen whose rows are all equally wide, the in-place loops of scroll, by no more lines than
-- there are, drop the first lines and add as many blank ones at the end.
pub scroll_rows-shifted :
    (cols n : ℕ) (blank : Character) (rows : Rows)
    → Wide cols rows
    → n ≤ length rows
    → scroll_rows cols (length rows) n blank rows ≡ shifted cols n blank rows
unfolding scroll_rows
scroll_rows-shifted cols n blank rows w h =
    let l : length (shifted cols n blank rows) ≡ length rows = omega (
      arith,
      length-append (drop n rows) (replicate n (replicate cols blank)),
      length-drop n rows,
      length-replicate n (replicate cols blank),
    ) in
    subst
      (λ k. for_rows (scrolled_row cols (length rows) n blank) k 0 rows ≡ shifted cols n blank rows)
      l
      (all_rows (scrolled_row cols (length rows) n blank) rows (shifted cols n blank rows)
        (scrolled_row-LooksAhead cols (length rows) n blank) l
        (λ y p. scrolled_row-eq cols n blank rows y w h (omega arith)))

pub clear_rows-eq :
    (cols : ℕ) (blank : Character) (rows : Rows)
    → Wide cols rows
    → clear_rows cols (length rows) blank rows ≡ replicate (length rows) (replicate cols blank)
unfolding clear_rows
clear_rows-eq cols blank rows w =
    let value : ℕ → Rows → Row = λ y rows'. blank_row cols blank (row_at rows' y) in
    let out : Rows = replicate (length rows) (replicate cols blank) in
    let l : length out ≡ length rows = length-replicate (length rows) (replicate cols blank) in
    subst (λ k. for_rows value k 0 rows ≡ out) l
      (all_rows value rows out
        (λ j rs rs' h. ap (blank_row cols blank) (row_at-same rs rs' j (h j (omega arith)))) l
        (λ y p.
          ap some (blank_row-eq cols blank (row_at rows y) (w.width y (omega arith)))
          ∙ sym (get_elem?-replicate (length rows) y (replicate cols blank) (omega arith))))

moved_rows :
    (lines d : ℕ) (rows : Rows)
    → lines + d ≡ length rows
    → take lines (for_rows (λ y rows'. row_at rows' (y + d)) lines 0 rows) ≡ drop d rows
moved_rows lines d rows e =
    let value : ℕ → Rows → Row = λ y rows'. row_at rows' (y + d) in
    let moved : Rows = for_rows value lines 0 rows in
    let l : length moved ≡ length rows = length-for_rows value lines 0 rows in
    let taken : length (take lines moved) ≡ lines = length-take lines moved (omega arith) in
    list_ext (take lines moved) (drop d rows) (omega (arith, length-drop d rows)) (λ y p.
      let order : y + d ≡ d + y = omega arith in
      get_elem?-take lines y moved (omega arith)
      ∙ for_rows-at value lines 0 y rows
          (λ j rs rs' h. row_at-same rs rs' (j + d) (h (j + d) (omega arith))) (omega arith)
          (omega arith) (omega arith)
      ∙ sym (get-row_at rows (y + d) (omega arith))
      ∙ ap (get_elem? rows) order
      ∙ sym (get_elem?-drop d y rows))

take-all : (n : ℕ) (rows : Rows) → n ≡ length rows → take n rows ≡ rows
take-all zero [] h = refl
take-all zero (x ∷ xs) h = absurd (omega arith)
take-all (suc n) [] h = absurd (omega arith)
take-all (suc n) (x ∷ xs) h = ap (◌∷◌ x) (take-all n xs (omega arith))

-- The rows that `set_dimensions` keeps, before it resizes each.
abbrev pub kept_rows {ℓ} : {A : Type ℓ} → ℕ → ℕ → List (List A) → List (List A)
kept_rows old_lines lines rows =
    if ltb lines old_lines
    then drop (old_lines - lines) rows
    else rows ++ replicate (lines - old_lines) []

pub resize_rows-kept :
    (old_lines lines cols : ℕ) (rows : Rows)
    → length rows ≡ old_lines
    → resize_rows old_lines lines cols rows ≡ map (resize_row cols) (kept_rows old_lines lines rows)
unfolding resize_rows resize
resize_rows-kept old_lines lines cols rows e =
    let value : ℕ → Rows → Row = λ y rows'. row_at rows' (y + (old_lines - lines)) in
    let l : length (for_rows value lines 0 rows) ≡ length rows =
      length-for_rows value lines 0 rows in
    ap (map (resize_row cols)) (elim (Bool-cases (ltb lines old_lines)) [
      | inl fewer ↦
          let enough : ltb (length (for_rows value lines 0 rows)) lines ≡ false = ground arith in
          rw (fewer, enough) (moved_rows lines (old_lines - lines) rows (ground arith))
      | inr more ↦ elim (Bool-cases (ltb (length rows) lines)) [
        | inl grows ↦ rw (more, grows, e) refl
        | inr stays ↦
            let none_new : lines - old_lines ≡ 0 = ground arith in
            rw (more, stays, none_new, append-nil) (take-all lines rows (ground arith))
      ]
    ])
