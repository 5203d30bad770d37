-- ===== src/Libterm/Screen.antt =====
-- The rows of a screen, `Vector<Line>` of libraries/libterm/Terminal.h, and the loops of Terminal.cpp
-- over them, which write in place.
pub mod Loops
pub mod Shifted
pub mod Width
pub mod Text
use duck_os.Prelude.{
  ℕ, zero, suc, ◌+◌, ◌-◌, Option, none, some, List, [], ◌∷◌, ◌++◌, length, get_elem?, set,
  replicate, take, ltb, leb, if◌then◌else◌,
}
use mathlib.Core.List.{map}
use duck_os.Libterm.Types.{Character, default_character}

abbrev pub Row : Type 0
Row = List Character

abbrev pub Rows : Type 0
Rows = List Row

-- `screen[y]` and `line[x]`.
abbrev pub row_at : Rows → ℕ → Row
row_at rows y = elim (get_elem? rows y) [ none ↦ [] | some row ↦ row ]

abbrev pub cell_at : Row → ℕ → Character
cell_at row x = elim (get_elem? row x) [ none ↦ default_character | some c ↦ c ]

-- `for(x = x; n more times; x++) line[x] = value(x);`
unfoldable pub for_cells : (ℕ → Character) → ℕ → ℕ → Row → Row
for_cells value zero x row = row
for_cells value (suc n) x row = for_cells value n (x + 1) (set row x (value x))

-- `for(y = y; n more times; y++) screen[y] = value(y, screen);`
unfoldable pub for_rows : (ℕ → Rows → Row) → ℕ → ℕ → Rows → Rows
for_rows value zero y rows = rows
for_rows value (suc n) y rows = for_rows value n (y + 1) (set rows y (value y rows))

-- `line[x] = blank`, for all columns.
unfoldable pub blank_row : ℕ → Character → Row → Row
unfolding for_cells
blank_row cols blank row = for_cells (λ x. blank) cols 0 row

-- The rows of `scroll`: from `clear_start_line` on they are cleared, before that copied from below.
unfoldable pub scrolled_row : ℕ → ℕ → ℕ → Character → ℕ → Rows → Row
unfolding blank_row
scrolled_row cols lines n blank y rows =
    if leb (lines - n) y
    then blank_row cols blank (row_at rows y)
    else for_cells (λ x. cell_at (row_at rows (y + n)) x) cols 0 (row_at rows y)

unfoldable pub scroll_rows : ℕ → ℕ → ℕ → Character → Rows → Rows
unfolding for_rows scrolled_row
scroll_rows cols lines n blank rows = for_rows (scrolled_row cols lines n blank) lines 0 rows

unfoldable pub clear_rows : ℕ → ℕ → Character → Rows → Rows
unfolding for_rows blank_row
clear_rows cols lines blank rows =
    for_rows (λ y rows'. blank_row cols blank (row_at rows' y)) lines 0 rows

-- `resize` of a vector, with what new elements are.
unfoldable pub resize {ℓ} : {A : Type ℓ} → A → ℕ → List A → List A
resize fresh n xs = if ltb (length xs) n then xs ++ replicate (n - length xs) fresh else take n xs

-- `Line::resize`: new cells are empty, in the colours of the last one.
unfoldable pub resize_row : ℕ → Row → Row
unfolding resize
resize_row cols row =
    resize (record { codepoint = 0; attr = (cell_at row (length row - 1)).attr }) cols row

-- `set_dimensions`: the last lines move up if there are fewer now, and then every vector is resized.
unfoldable pub resize_rows : ℕ → ℕ → ℕ → Rows → Rows
unfolding for_rows resize resize_row
resize_rows old_lines lines cols rows =
    let moved : Rows =
      if ltb lines old_lines
      then for_rows (λ y rows'. row_at rows' (y + (old_lines - lines))) lines 0 rows
      else rows in
    map (resize_row cols) (resize [] lines moved)
