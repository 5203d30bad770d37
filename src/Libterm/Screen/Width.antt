-- ===== src/Libterm/Screen/Width.antt =====
-- Screens of libraries/libterm/Terminal.cpp whose rows are equally wide.
use duck_os.Prelude.{
  ℕ, zero, suc, ◌+◌, ◌-◌, ◌<◌, ◌≡◌, refl, ap, inl, inr, List, [], ◌∷◌, ◌++◌, arith, length, set,
  replicate, drop, length-replicate, length-append, ltb, Bool-cases,
}
use mathlib.Core.List.{map}
use duck_os.Libterm.Screen.{Row, Rows, row_at, resize, resize_row}
use duck_os.Libterm.Screen.Loops.{length-take, length-drop}
use duck_os.Libterm.Screen.Shifted.{Wide, kept_rows}

abbrev pub AllWide : ℕ → Rows → Type 0
AllWide cols [] = Unit {0}
AllWide cols (row ∷ rows) = (length row ≡ cols) × AllWide cols rows

AllWide-width :
    (cols : ℕ) (rows : Rows)
    → AllWide cols rows
    → (y : ℕ) → y < length rows
    → length (row_at rows y) ≡ cols
AllWide-width cols [] w y h = absurd (omega arith)
AllWide-width cols (row ∷ rows) w zero h = w.0
AllWide-width cols (row ∷ rows) w (suc y) h = AllWide-width cols rows w.1 y (omega arith)

pub AllWide-Wide : (cols : ℕ) (rows : Rows) → AllWide cols rows → Wide cols rows
AllWide-Wide cols rows w = record { width = AllWide-width cols rows w }

pub AllWide-drop : (cols n : ℕ) (rows : Rows) → AllWide cols rows → AllWide cols (drop n rows)
AllWide-drop cols zero rows w = w
AllWide-drop cols (suc n) [] w = tt
AllWide-drop cols (suc n) (row ∷ rows) w = AllWide-drop cols n rows w.1

pub AllWide-append :
    (cols : ℕ) (top bottom : Rows)
    → AllWide cols top
    → AllWide cols bottom
    → AllWide cols (top ++ bottom)
AllWide-append cols [] bottom v w = w
AllWide-append cols (row ∷ top) bottom v w = (v.0, AllWide-append cols top bottom v.1 w)

pub AllWide-replicate :
    (cols n : ℕ) (row : Row) → length row ≡ cols → AllWide cols (replicate n row)
AllWide-replicate cols zero row e = tt
AllWide-replicate cols (suc n) row e = (e, AllWide-replicate cols n row e)

pub AllWide-set :
    (cols y : ℕ) (rows : Rows) (row : Row)
    → length row ≡ cols
    → AllWide cols rows
    → AllWide cols (set rows y row)
AllWide-set cols y [] row e w = tt
AllWide-set cols zero (r ∷ rows) row e w = (e, w.1)
AllWide-set cols (suc y) (r ∷ rows) row e w = (w.0, AllWide-set cols y rows row e w.1)

pub length-resize : {A : Type 0} (fresh : A) (n : ℕ) (xs : List A) → length (resize fresh n xs) ≡ n
unfolding resize
length-resize fresh n xs = elim (Bool-cases (ltb (length xs) n)) [
  | inl grows ↦ rw grows (
      let e : length (xs ++ replicate (n - length xs) fresh)
          ≡ length xs + length (replicate (n - length xs) fresh) =
        length-append xs (replicate (n - length xs) fresh) in
      let f : length (replicate (n - length xs) fresh) ≡ n - length xs =
        length-replicate (n - length xs) fresh in
      ground arith)
  | inr shrinks ↦ rw shrinks (length-take n xs (ground arith))
]

pub AllWide-resized : (cols : ℕ) (rows : Rows) → AllWide cols (map (resize_row cols) rows)
unfolding resize_row
AllWide-resized cols [] = tt
AllWide-resized cols (row ∷ rows) = (length-resize _ cols row, AllWide-resized cols rows)

pub length-map : {A B : Type 0} (f : A → B) (xs : List A) → length (map f xs) ≡ length xs
length-map f [] = refl
length-map f (x ∷ xs) = ap suc (length-map f xs)

pub length-kept_rows :
    {A : Type 0} (old_lines lines : ℕ) (rows : List (List A))
    → length rows ≡ old_lines
    → length (kept_rows old_lines lines rows) ≡ lines
length-kept_rows {A} old_lines lines rows e = elim (Bool-cases (ltb lines old_lines)) [
  | inl fewer ↦ let l = length-drop (old_lines - lines) rows in rw fewer (ground arith)
  | inr more ↦
      let l = length-append rows (replicate (lines - old_lines) []) in
      let r : length (replicate {A = List A} (lines - old_lines) []) ≡ lines - old_lines =
        length-replicate (lines - old_lines) [] in
      rw more (ground arith)
]
