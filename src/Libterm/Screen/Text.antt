-- ===== src/Libterm/Screen/Text.antt =====
-- The codepoints of a screen, and the copy of them that a listener can keep from what it is told
-- (libraries/libterm/Listener.h).
use duck_os.Prelude.{
  ℕ, zero, suc, ◌-◌, ◌≡◌, refl, ap, ◌∙◌, inl, inr, none, some, List, [], ◌∷◌, ◌++◌, length,
  get_elem?, set, replicate, take, drop, ltb, Bool-cases,
}
use mathlib.Core.List.{map, map-append}
use duck_os.Libterm.Types.{
  Character, Event, on_character_change, on_cursor_change, on_backspace, on_clear, on_clear_line,
  on_scroll, on_resize, emit,
}
use duck_os.Libterm.Screen.{Row, Rows, row_at, resize, resize_row}
use duck_os.Libterm.Screen.Shifted.{kept_rows}
use duck_os.Libterm.Screen.Width.{length-map}

abbrev pub Grid : Type 0
Grid = List (List ℕ)

abbrev pub code : Character → ℕ
code c = c.codepoint

abbrev pub row_text : Row → List ℕ
row_text row = map code row

abbrev pub text : Rows → Grid
text rows = map row_text rows

abbrev pub line_at : Grid → ℕ → List ℕ
line_at grid y = elim (get_elem? grid y) [ none ↦ [] | some line ↦ line ]

-- A line of zeros as wide as the first line.
abbrev pub blank_line : Grid → List ℕ
blank_line grid = replicate (length (line_at grid 0)) 0

-- What a listener does to its copy.
abbrev pub shows : Event → Grid → Grid
shows (on_character_change p c) grid = set grid p.line (set (line_at grid p.line) p.col c.codepoint)
shows (on_cursor_change p) grid = grid
shows (on_backspace p) grid = grid
shows on_clear grid = replicate (length grid) (blank_line grid)
shows (on_clear_line line) grid = set grid line (blank_line grid)
shows (on_scroll n) grid = drop n grid ++ replicate n (blank_line grid)
shows (on_resize old new) grid = map (resize 0 new.cols) (kept_rows old.lines new.lines grid)
shows (emit bytes) grid = grid

-- The copy after all calls, of which the last comes first.
abbrev pub shown : List Event → Grid → Grid
shown [] grid = grid
shown (e ∷ es) grid = shows e (shown es grid)

module _ {A B : Type 0} (f : A → B) where
  pub map-set : (xs : List A) (i : ℕ) (x : A) → map f (set xs i x) ≡ set (map f xs) i (f x)
  map-set [] i x = refl
  map-set (y ∷ xs) zero x = refl
  map-set (y ∷ xs) (suc i) x = ap (◌∷◌ (f y)) (map-set xs i x)

  pub map-drop : (n : ℕ) (xs : List A) → map f (drop n xs) ≡ drop n (map f xs)
  map-drop zero xs = refl
  map-drop (suc n) [] = refl
  map-drop (suc n) (x ∷ xs) = map-drop n xs

  pub map-take : (n : ℕ) (xs : List A) → map f (take n xs) ≡ take n (map f xs)
  map-take zero xs = refl
  map-take (suc n) [] = refl
  map-take (suc n) (x ∷ xs) = ap (◌∷◌ (f x)) (map-take n xs)

  pub map-replicate : (n : ℕ) (x : A) → map f (replicate n x) ≡ replicate n (f x)
  map-replicate zero x = refl
  map-replicate (suc n) x = ap (◌∷◌ (f x)) (map-replicate n x)

  pub map-resize :
      (fresh : A) (n : ℕ) (xs : List A) → map f (resize fresh n xs) ≡ resize (f fresh) n (map f xs)
  unfolding resize
  map-resize fresh n xs = elim (Bool-cases (ltb (length xs) n)) [
    | inl grows ↦
        rw (length-map f xs, grows)
          (map-append f xs (replicate (n - length xs) fresh)
            ∙ ap (λ ys. map f xs ++ ys) (map-replicate (n - length xs) fresh))
    | inr shrinks ↦ rw (length-map f xs, shrinks) (map-take n xs)
  ]

pub line_at-text : (rows : Rows) (y : ℕ) → line_at (text rows) y ≡ row_text (row_at rows y)
line_at-text [] y = refl
line_at-text (row ∷ rows) zero = refl
line_at-text (row ∷ rows) (suc y) = line_at-text rows y

text-resized :
    (cols : ℕ) (rows : Rows) → text (map (resize_row cols) rows) ≡ map (resize 0 cols) (text rows)
unfolding resize_row
text-resized cols [] = refl
text-resized cols (row ∷ rows) =
    let first = map-resize code (record { codepoint = 0; attr = _ }) cols row in
    ap (λ line. line ∷ text (map (resize_row cols) rows)) first
    ∙ ap (◌∷◌ (resize 0 cols (row_text row))) (text-resized cols rows)

text-kept_rows :
    (old_lines lines : ℕ) (rows : Rows)
    → text (kept_rows old_lines lines rows) ≡ kept_rows old_lines lines (text rows)
text-kept_rows old_lines lines rows = elim (Bool-cases (ltb lines old_lines)) [
  | inl fewer ↦ rw fewer (map-drop row_text (old_lines - lines) rows)
  | inr more ↦ rw more (
      map-append row_text rows (replicate (lines - old_lines) [])
      ∙ ap (λ ys. text rows ++ ys) (map-replicate row_text (lines - old_lines) []))
]

pub text-resize_rows :
    (old_lines lines cols : ℕ) (rows : Rows)
    → text (map (resize_row cols) (kept_rows old_lines lines rows))
      ≡ map (resize 0 cols) (kept_rows old_lines lines (text rows))
text-resize_rows old_lines lines cols rows =
    text-resized cols (kept_rows old_lines lines rows)
    ∙ ap (map (resize 0 cols)) (text-kept_rows old_lines lines rows)
