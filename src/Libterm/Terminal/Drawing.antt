-- ===== src/Libterm/Terminal/Drawing.antt =====
-- Every drawing call of `Terminal` (libraries/libterm/Terminal.cpp) keeps the screen in shape, the
-- cursor on it, and a listener's copy right.
use duck_os.Prelude.{
  ℕ, zero, suc, ◌+◌, ◌-◌, ◌≤◌, ◌<◌, ◌≡◌, refl, sym, subst, ◌∙◌, inl, inr, Bool, true, false, ◌&&◌,
  ◌∷◌, arith, leb, ◌==◌, if◌then◌else◌, Bool-cases,
}
use duck_os.Libterm.Types.{Character, Position, Size, Event, on_cursor_change, on_backspace}
use duck_os.Libterm.Screen.Text.{Grid, shown, shows}
use duck_os.Libterm.Terminal.{
  Terminal, tell, on_screen, blank_of, set_cursor, clear, scroll, clear_line, set_character,
  advance_to, advance_cursor, regress_cursor, backspace,
}
use duck_os.Libterm.Terminal.Escapes.{clear_lines, blank_cells, repeat}
use duck_os.Libterm.Terminal.Writing.{come_to_rest, keep_on_screen, settle}
use duck_os.Libterm.Terminal.Synced.{
  Synced, set_character-Synced, clear_line-Synced, clear-Synced, scroll-Synced,
}

pub record Drawn (start : Grid) (t : Terminal) : Type 0 where
  pub synced : Synced start t.dimensions t.screen t.sent
  pub col_in : t.cursor.col < t.dimensions.cols
  pub line_in : t.cursor.line < t.dimensions.lines

-- A call that leaves a good screen of the same size, and does not enter or leave escape mode.
pub record Keeps (start : Grid) (t t' : Terminal) : Type 0 where
  pub drawn : Drawn start t'
  pub same_size : t'.dimensions ≡ t.dimensions
  pub same_mode : t'.escape_mode ≡ t.escape_mode

pub Keeps-self : {start : Grid} {t : Terminal} → Drawn start t → Keeps start t t
Keeps-self v = record { drawn = v; same_size = refl; same_mode = refl }

pub Keeps-then :
    {start : Grid} {t t' t'' : Terminal} → Keeps start t t' → Keeps start t' t'' → Keeps start t t''
Keeps-then k l = record {
  drawn = l.drawn;
  same_size = l.same_size ∙ k.same_size;
  same_mode = l.same_mode ∙ k.same_mode;
}

pub Keeps-either :
    {start : Grid} {t t' t'' : Terminal} (b : Bool)
    → Keeps start t t'
    → Keeps start t t''
    → Keeps start t (if b then t' else t'')
Keeps-either true k l = k
Keeps-either false k l = l

tell-Synced :
    {start : Grid} {size : Size} (t : Terminal) (e : Event)
    → ((grid : Grid) → shows e grid ≡ grid)
    → Synced start size t.screen t.sent
    → Synced start size t.screen (e ∷ t.sent)
tell-Synced {start = start} t e same v = record {
  some_cols = v.some_cols;
  some_lines = v.some_lines;
  filled = v.filled;
  wide = v.wide;
  in_sync = same (shown t.sent start) ∙ v.in_sync;
}

module _ {start : Grid} where
  pub tell-Keeps :
      (e : Event) (t : Terminal)
      → ((grid : Grid) → shows e grid ≡ grid)
      → Drawn start t
      → Keeps start t (tell e t)
  tell-Keeps e t same v = record {
    drawn = record {
      synced = tell-Synced t e same v.synced;
      col_in = v.col_in;
      line_in = v.line_in;
    };
    same_size = refl;
    same_mode = refl;
  }

  pub set_cursor-Keeps :
      (p : Position) (t : Terminal)
      → Drawn start t
      → p.col < t.dimensions.cols
      → p.line < t.dimensions.lines
      → Keeps start t (set_cursor p t)
  unfolding set_cursor
  set_cursor-Keeps p t v c l =
      let seen : on_screen t.cursor t.dimensions ≡ true = ground (arith, v.col_in, v.line_in) in
      rw seen (record {
        drawn = record {
          synced = tell-Synced t (on_cursor_change t.cursor) (λ grid. refl) v.synced;
          col_in = c;
          line_in = l;
        };
        same_size = refl;
        same_mode = refl;
      })

  pub clear-Keeps : (t : Terminal) → Drawn start t → Keeps start t (clear t)
  unfolding clear
  clear-Keeps t v =
      let seen : on_screen t.cursor t.dimensions ≡ true = ground (arith, v.col_in, v.line_in) in
      rw seen (record {
        drawn = record {
          synced =
              clear-Synced (tell-Synced t (on_cursor_change t.cursor) (λ grid. refl) v.synced)
                t.attribute;
          col_in = v.synced.some_cols;
          line_in = v.synced.some_lines;
        };
        same_size = refl;
        same_mode = refl;
      })

  pub scroll-Keeps : (n : ℕ) (t : Terminal) → Drawn start t → Keeps start t (scroll n t)
  unfolding scroll
  scroll-Keeps n t v = elim (Bool-cases (leb t.dimensions.lines n)) [
    | inl all ↦ rw all (clear-Keeps t v)
    | inr some_rows ↦ rw some_rows (record {
      drawn = record {
        synced = scroll-Synced v.synced n t.attribute (ground arith);
        col_in = v.col_in;
        line_in = v.line_in;
      };
      same_size = refl;
      same_mode = refl;
    })
  ]

  pub clear_line-Keeps :
      (line : ℕ) (t : Terminal) → Drawn start t → Keeps start t (clear_line line t)
  unfolding clear_line
  clear_line-Keeps line t v = elim (Bool-cases (leb t.dimensions.lines line)) [
    | inl out ↦ rw out (Keeps-self v)
    | inr inside ↦ rw inside (record {
      drawn = record {
        synced = clear_line-Synced v.synced line t.attribute (ground arith);
        col_in = v.col_in;
        line_in = v.line_in;
      };
      same_size = refl;
      same_mode = refl;
    })
  ]

  pub set_character-Keeps :
      (p : Position) (c : Character) (t : Terminal)
      → Drawn start t
      → Keeps start t (set_character p c t)
  unfolding set_character
  set_character-Keeps p c t v = elim (Bool-cases (on_screen p t.dimensions)) [
    | inl inside ↦ rw inside (record {
      drawn = record {
        synced = set_character-Synced v.synced p c (ground arith);
        col_in = v.col_in;
        line_in = v.line_in;
      };
      same_size = refl;
      same_mode = refl;
    })
    | inr out ↦ rw out (Keeps-self v)
  ]

  set_cursor-after :
      (p : Position) (t t' : Terminal)
      → Keeps start t t'
      → p.col < t.dimensions.cols
      → p.line < t.dimensions.lines
      → Keeps start t (set_cursor p t')
  set_cursor-after p t t' k c l = Keeps-then k (
      set_cursor-Keeps p t' k.drawn (subst (λ (s : Size). p.col < s.cols) (sym k.same_size) c)
        (subst (λ (s : Size). p.line < s.lines) (sym k.same_size) l))

  advance_to-Keeps :
      (p : Position) (t : Terminal)
      → Drawn start t
      → p.col < t.dimensions.cols
      → Keeps start t (advance_to p t)
  unfolding advance_to
  advance_to-Keeps p t v c = elim (Bool-cases (leb t.dimensions.lines p.line)) [
    | inl low ↦ rw low (
        set_cursor-after _ t _ (scroll-Keeps (p.line + 1 - t.dimensions.lines) t v) c
          (omega (arith, v.synced.some_lines)))
    | inr fine ↦ rw fine (set_cursor-Keeps p t v c (ground arith))
  ]

  pub advance_cursor-Keeps : (t : Terminal) → Drawn start t → Keeps start t (advance_cursor t)
  unfolding advance_cursor
  advance_cursor-Keeps t v = advance_to-Keeps _ t v (ground (arith, v.col_in))

  pub regress_cursor-Keeps : (t : Terminal) → Drawn start t → Keeps start t (regress_cursor t)
  unfolding regress_cursor
  regress_cursor-Keeps t v =
      set_cursor-Keeps _ t v (ground (arith, v.col_in)) (ground (arith, v.line_in))

  pub backspace-Keeps : (t : Terminal) → Drawn start t → Keeps start t (backspace t)
  unfolding backspace
  backspace-Keeps t v =
      let k = regress_cursor-Keeps t v in
      Keeps-then k (
        tell-Keeps (on_backspace (regress_cursor t).cursor) (regress_cursor t) (λ grid. refl)
          k.drawn)

  pub clear_lines-Keeps :
      (n line : ℕ) (t : Terminal) → Drawn start t → Keeps start t (clear_lines n line t)
  unfolding clear_lines
  clear_lines-Keeps zero line t v = Keeps-self v
  clear_lines-Keeps (suc n) line t v =
      let k = clear_line-Keeps line t v in
      Keeps-then k (clear_lines-Keeps n (line + 1) (clear_line line t) k.drawn)

  pub blank_cells-Keeps :
      (n x : ℕ) (t : Terminal) → Drawn start t → Keeps start t (blank_cells n x t)
  unfolding blank_cells
  blank_cells-Keeps zero x t v = Keeps-self v
  blank_cells-Keeps (suc n) x t v =
      let p : Position = record { col = x; line = t.cursor.line } in
      let k = set_character-Keeps p (blank_of t) t v in
      Keeps-then k (blank_cells-Keeps n (x + 1) (set_character p (blank_of t) t) k.drawn)

  pub repeat-Keeps :
      (n : ℕ) (f : Terminal → Terminal) (t : Terminal)
      → ((t' : Terminal) → Drawn start t' → Keeps start t' (f t'))
      → Drawn start t
      → Keeps start t (repeat n f t)
  unfolding repeat
  repeat-Keeps zero f t h v = Keeps-self v
  repeat-Keeps (suc n) f t h v = let k = h t v in Keeps-then k (repeat-Keeps n f (f t) h k.drawn)

  come_to_rest-after :
      (p : Position) (t t' : Terminal)
      → Keeps start t t'
      → p.col < t.dimensions.cols
      → p.line < t.dimensions.lines
      → Keeps start t (come_to_rest p t')
  unfolding come_to_rest
  come_to_rest-after p t t' k c l =
      elim (Bool-cases ((p.col == t'.cursor.col) && (p.line == t'.cursor.line))) [
        | inl same ↦ rw same k
        | inr moved ↦ rw moved (set_cursor-after p t t' k c l)
      ]

  keep_on_screen-Keeps :
      (p : Position) (t : Terminal)
      → Drawn start t
      → p.col < t.dimensions.cols
      → Keeps start t (keep_on_screen p t)
  unfolding keep_on_screen
  keep_on_screen-Keeps p t v c = elim (Bool-cases (leb t.dimensions.lines p.line)) [
    | inl low ↦ rw low (
        come_to_rest-after _ t _
          (Keeps-either t.prevent_scroll (Keeps-self v)
            (scroll-Keeps (p.line + 1 - t.dimensions.lines) t v))
          c (omega (arith, v.synced.some_lines)))
    | inr fine ↦ rw fine (come_to_rest-after p t t (Keeps-self v) c (ground arith))
  ]

  pub settle-Keeps :
      (p : Position) (t : Terminal)
      → Drawn start t
      → p.col ≤ t.dimensions.cols
      → Keeps start t (settle p t)
  unfolding settle
  settle-Keeps p t v h = keep_on_screen-Keeps _ t v (ground (arith, v.synced.some_cols))
