-- ===== src/Libterm/Terminal/Synced.antt =====
-- When the screen of a terminal has its shape, and a listener's copy of the text is right
-- (libraries/libterm/Terminal.cpp).
use duck_os.Prelude.{
  ℕ, ◌<◌, ◌≡◌, sym, ap, subst, ◌∙◌, List, ◌∷◌, ◌++◌, arith, length, set, replicate, drop,
  length-set, length-replicate, length-append,
}
use mathlib.Core.List.{map-append}
use duck_os.Libterm.Types.{
  Attribute, Character, Position, Size, Event, on_character_change, on_clear, on_clear_line,
  on_scroll, on_resize,
}
use duck_os.Libterm.Screen.{
  Rows, row_at, blank_row, scroll_rows, clear_rows, resize_row, resize_rows,
}
use duck_os.Libterm.Screen.Loops.{length-drop}
use duck_os.Libterm.Screen.Shifted.{
  blank_row-eq, scroll_rows-shifted, shifted, clear_rows-eq, kept_rows, resize_rows-kept,
}
use duck_os.Libterm.Screen.Width.{
  AllWide, AllWide-Wide, AllWide-drop, AllWide-append, AllWide-replicate, AllWide-set,
  AllWide-resized, length-map, length-kept_rows,
}
use duck_os.Libterm.Screen.Text.{
  Grid, code, row_text, text, line_at, blank_line, shows, shown, map-set, map-drop, map-replicate,
  line_at-text, text-resize_rows,
}

pub record Synced (start : Grid) (size : Size) (rows : Rows) (sent : List Event) : Type 0 where
  pub some_cols : 0 < size.cols
  pub some_lines : 0 < size.lines
  pub filled : length rows ≡ size.lines
  pub wide : AllWide size.cols rows
  pub in_sync : shown sent start ≡ text rows

module _ {start : Grid} {size : Size} {rows : Rows} {sent : List Event}
    (v : Synced start size rows sent) where
  row-width : (y : ℕ) → y < size.lines → length (row_at rows y) ≡ size.cols
  row-width y h = (AllWide-Wide size.cols rows v.wide).width y (omega (arith, v.filled))

  -- What the listener takes for a blank line.
  blank_line-cols : blank_line (shown sent start) ≡ replicate size.cols 0
  blank_line-cols =
      let e : length (line_at (shown sent start) 0) ≡ size.cols =
        ap (λ grid. length (line_at grid 0)) v.in_sync
        ∙ ap length (line_at-text rows 0)
        ∙ length-map code (row_at rows 0)
        ∙ row-width 0 v.some_lines in
      ap (λ n. replicate n 0) e

  pub set_character-Synced :
      (p : Position) (c : Character)
      → p.line < size.lines
      → Synced start size
          (set rows p.line (set (row_at rows p.line) p.col c))
          (on_character_change p c ∷ sent)
  set_character-Synced p c h = record {
    some_cols = v.some_cols;
    some_lines = v.some_lines;
    filled = length-set rows p.line (set (row_at rows p.line) p.col c) ∙ v.filled;
    wide =
        AllWide-set size.cols p.line rows (set (row_at rows p.line) p.col c)
          (length-set (row_at rows p.line) p.col c ∙ row-width p.line h) v.wide;
    in_sync =
        ap (λ grid. set grid p.line (set (line_at grid p.line) p.col c.codepoint)) v.in_sync
        ∙ ap (λ line. set (text rows) p.line (set line p.col c.codepoint))
            (line_at-text rows p.line)
        ∙ ap (set (text rows) p.line) (sym (map-set code (row_at rows p.line) p.col c))
        ∙ sym (map-set row_text rows p.line (set (row_at rows p.line) p.col c));
  }

  pub clear_line-Synced :
      (line : ℕ) (a : Attribute)
      → line < size.lines
      → Synced start size
          (set rows line
            (blank_row size.cols (record { codepoint = 0; attr = a }) (row_at rows line)))
          (on_clear_line line ∷ sent)
  clear_line-Synced line a h =
      let blank : Character = record { codepoint = 0; attr = a } in
      let e = blank_row-eq size.cols blank (row_at rows line) (row-width line h) in
      rw e (record {
        some_cols = v.some_cols;
        some_lines = v.some_lines;
        filled = length-set rows line (replicate size.cols blank) ∙ v.filled;
        wide =
            AllWide-set size.cols line rows (replicate size.cols blank)
              (length-replicate size.cols blank) v.wide;
        in_sync =
            ap (set (shown sent start) line) blank_line-cols
            ∙ ap (λ grid. set grid line (replicate size.cols 0)) v.in_sync
            ∙ ap (set (text rows) line) (sym (map-replicate code size.cols blank))
            ∙ sym (map-set row_text rows line (replicate size.cols blank));
      })

  blank_rows-text :
      (n : ℕ) (a : Attribute)
      → text (replicate n (replicate size.cols (record { codepoint = 0; attr = a })))
        ≡ replicate n (replicate size.cols 0)
  blank_rows-text n a =
      let blank : Character = record { codepoint = 0; attr = a } in
      map-replicate row_text n (replicate size.cols blank)
      ∙ ap (replicate n) (map-replicate code size.cols blank)

  pub clear-Synced :
      (a : Attribute)
      → Synced start size
          (clear_rows size.cols size.lines (record { codepoint = 0; attr = a }) rows)
          (on_clear ∷ sent)
  clear-Synced a =
      let blank : Character = record { codepoint = 0; attr = a } in
      let cleared : clear_rows size.cols size.lines blank rows
          ≡ replicate size.lines (replicate size.cols blank) =
        subst (λ n. clear_rows size.cols n blank rows ≡ replicate n (replicate size.cols blank))
          v.filled (clear_rows-eq size.cols blank rows (AllWide-Wide size.cols rows v.wide)) in
      let tall : length (shown sent start) ≡ size.lines =
        ap length v.in_sync ∙ length-map row_text rows ∙ v.filled in
      rw cleared (record {
        some_cols = v.some_cols;
        some_lines = v.some_lines;
        filled = length-replicate size.lines (replicate size.cols blank);
        wide =
            AllWide-replicate size.cols size.lines (replicate size.cols blank)
              (length-replicate size.cols blank);
        in_sync =
            ap (replicate (length (shown sent start))) blank_line-cols
            ∙ ap (λ n. replicate n (replicate size.cols 0)) tall
            ∙ sym (blank_rows-text size.lines a);
      })

  pub scroll-Synced :
      (n : ℕ) (a : Attribute)
      → n < size.lines
      → Synced start size
          (scroll_rows size.cols size.lines n (record { codepoint = 0; attr = a }) rows)
          (on_scroll n ∷ sent)
  scroll-Synced n a h =
      let blank : Character = record { codepoint = 0; attr = a } in
      let bottom : Rows = replicate n (replicate size.cols blank) in
      let moved : scroll_rows size.cols size.lines n blank rows ≡ shifted size.cols n blank rows =
        subst (λ k. scroll_rows size.cols k n blank rows ≡ shifted size.cols n blank rows) v.filled
          (scroll_rows-shifted size.cols n blank rows (AllWide-Wide size.cols rows v.wide)
            (omega (arith, v.filled))) in
      rw moved (record {
        some_cols = v.some_cols;
        some_lines = v.some_lines;
        filled = omega (
          arith,
          v.filled,
          length-append (drop n rows) bottom,
          length-drop n rows,
          length-replicate n (replicate size.cols blank),
        );
        wide =
            AllWide-append size.cols (drop n rows) bottom (AllWide-drop size.cols n rows v.wide) (
              AllWide-replicate size.cols n (replicate size.cols blank)
                (length-replicate size.cols blank));
        in_sync =
            ap (λ line. drop n (shown sent start) ++ replicate n line) blank_line-cols
            ∙ ap (λ grid. drop n grid ++ replicate n (replicate size.cols 0)) v.in_sync
            ∙ ap (λ grid. grid ++ replicate n (replicate size.cols 0))
                (sym (map-drop row_text n rows))
            ∙ ap (λ grid. text (drop n rows) ++ grid) (sym (blank_rows-text n a))
            ∙ sym (map-append row_text (drop n rows) bottom);
      })

  pub resize-Synced :
      (new : Size)
      → 0 < new.cols
      → 0 < new.lines
      → Synced start new
          (resize_rows size.lines new.lines new.cols rows)
          (on_resize size new ∷ sent)
  resize-Synced new c l =
      let kept : Rows = kept_rows size.lines new.lines rows in
      rw (resize_rows-kept size.lines new.lines new.cols rows v.filled) (record {
        some_cols = c;
        some_lines = l;
        filled =
            length-map (resize_row new.cols) kept
            ∙ length-kept_rows size.lines new.lines rows v.filled;
        wide = AllWide-resized new.cols kept;
        in_sync =
            ap (shows (on_resize size new)) v.in_sync
            ∙ sym (text-resize_rows size.lines new.lines new.cols rows);
      })
