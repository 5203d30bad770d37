-- ===== src/Libterm/Terminal/Invariant.antt =====
-- Everything that is written to a `Terminal` (libraries/libterm/Terminal.cpp) keeps its invariant.
use duck_os.Prelude.{
  ℕ, zero, suc, ◌+◌, ◌-◌, ◌≤◌, ◌<◌, ◌≡◌, refl, sym, subst, ◌∙◌, ◌⊎◌, inl, inr, Bool, true, false,
  ◌||◌, List, [], ◌∷◌, arith, ◌==◌, if◌then◌else◌,
}
use duck_os.Libterm.Types.{Attribute, Position, Size, emit}
use duck_os.Libterm.Screen.Text.{Grid, text}
use duck_os.Libterm.Terminal.{
  Terminal, EscapeStatus, beginning, value, set_dimensions, advance_cursor, regress_cursor,
}
use duck_os.Libterm.Terminal.Escapes.{
  atoi, graphics_modes, evaluate_graphics_mode_escape, evaluate_clear_escape,
  evaluate_clear_line_escape, evaluate_cursor_escape, evaluate_value, evaluate_status,
  evaluate_escape_codepoint, leave_escape, rounds, parameter, between,
}
use duck_os.Libterm.Terminal.Writing.{
  next_tab, write_drawn, write_codepoint, Key, up, down, right, left, other, emit_str, emit_key,
  handle_keypress,
}
use duck_os.Libterm.Terminal.Synced.{resize-Synced}
use duck_os.Libterm.Terminal.Drawing.{
  Drawn, Keeps, Keeps-self, Keeps-then, Keeps-either, tell-Keeps, clear-Keeps, clear_line-Keeps,
  set_character-Keeps, advance_cursor-Keeps, regress_cursor-Keeps, backspace-Keeps,
  clear_lines-Keeps, blank_cells-Keeps, repeat-Keeps, settle-Keeps,
}

-- While a parameter is read, both indices are inside of the ten texts of ten.
abbrev pub Escaping : Terminal → Type 0
Escaping t =
    (t.escape_mode ≡ false)
    ⊎ (t.escape_status ≡ beginning)
    ⊎ ((t.parameter_index < 10) × (t.char_index < 9))

pub record Good (start : Grid) (t : Terminal) : Type 0 where
  pub drawn : Drawn start t
  pub escaping : Escaping t

next_tab-le : (cols : ℕ) (p : Position) → 0 < cols → (next_tab cols p).col ≤ cols
unfolding next_tab
next_tab-le cols p h = ground arith

module _ {start : Grid} where
  -- Outside of escape mode, drawing is all there is to look at.
  Keeps-Good : {t t' : Terminal} → t.escape_mode ≡ false → Keeps start t t' → Good start t'
  Keeps-Good e k = record { drawn = k.drawn; escaping = inl (k.same_mode ∙ e) }

  leave_escape-Drawn : (t : Terminal) → Drawn start t → Drawn start (leave_escape t)
  leave_escape-Drawn t v = record { synced = v.synced; col_in = v.col_in; line_in = v.line_in }

  attribute-Keeps :
      (a : Attribute) (t : Terminal) → Drawn start t → Keeps start t (record t { attribute = a })
  attribute-Keeps a t v = record {
    drawn = record { synced = v.synced; col_in = v.col_in; line_in = v.line_in };
    same_size = refl;
    same_mode = refl;
  }

  graphics_modes-Keeps :
      (n i : ℕ) (t : Terminal) → Drawn start t → Keeps start t (graphics_modes n i t)
  unfolding graphics_modes
  graphics_modes-Keeps zero i t v = attribute-Keeps _ t v
  graphics_modes-Keeps (suc n) i t v =
      let k = attribute-Keeps _ t v in Keeps-then k (graphics_modes-Keeps n (i + 1) _ k.drawn)

  evaluate_clear_escape-Keeps :
      (t : Terminal) → Drawn start t → Keeps start t (evaluate_clear_escape t)
  unfolding evaluate_clear_escape
  evaluate_clear_escape-Keeps t v =
      let val : ℕ = atoi 0 (parameter 0 t) in
      Keeps-either (val == 0)
        (clear_lines-Keeps (t.dimensions.lines - t.cursor.line) t.cursor.line t v)
        (Keeps-either (val == 1) (clear_lines-Keeps (t.cursor.line + 1) 0 t v)
          (Keeps-either (val == 2) (clear-Keeps t v) (Keeps-self v)))

  evaluate_clear_line_escape-Keeps :
      (t : Terminal) → Drawn start t → Keeps start t (evaluate_clear_line_escape t)
  unfolding evaluate_clear_line_escape
  evaluate_clear_line_escape-Keeps t v =
      let val : ℕ = atoi 0 (parameter 0 t) in
      Keeps-either (val == 0)
        (blank_cells-Keeps (t.dimensions.cols - t.cursor.col) t.cursor.col t v)
        (Keeps-either (val == 1) (blank_cells-Keeps (t.cursor.col + 1) 0 t v)
          (Keeps-either (val == 2) (clear_line-Keeps t.cursor.line t v) (Keeps-self v)))

  evaluate_cursor_escape-Keeps :
      (t : Terminal) → Drawn start t → Keeps start t (evaluate_cursor_escape t)
  unfolding evaluate_cursor_escape
  evaluate_cursor_escape-Keeps t v =
      let amount : ℕ = rounds (atoi 0 (parameter 0 t)) in
      Keeps-either (t.escape_codepoint == b'C')
        (repeat-Keeps amount advance_cursor t advance_cursor-Keeps v)
        (Keeps-either (t.escape_codepoint == b'D')
          (repeat-Keeps amount regress_cursor t regress_cursor-Keeps v) (Keeps-self v))

  Good-either :
      {t t' : Terminal} (b : Bool)
      → (b ≡ true → Good start t)
      → (b ≡ false → Good start t')
      → Good start (if b then t else t')
  Good-either true k l = k refl
  Good-either false k l = l refl

  evaluate_value-Good :
      (codepoint : ℕ) (t : Terminal)
      → Drawn start t
      → t.parameter_index < 10
      → t.char_index < 9
      → Good start (evaluate_value codepoint t)
  unfolding evaluate_value evaluate_graphics_mode_escape
  evaluate_value-Good codepoint t v i c =
      let out : Drawn start (leave_escape t) = leave_escape-Drawn t v in
      Good-either (codepoint == b';')
        (λ e. record {
          drawn = record { synced = v.synced; col_in = v.col_in; line_in = v.line_in };
          escaping = ground arith;
        })
        (λ e.
          Good-either (codepoint == b'm')
            (λ e. Keeps-Good refl (graphics_modes-Keeps t.parameter_index 0 (leave_escape t) out))
            (λ e.
              Good-either (codepoint == b'K')
                (λ e. Keeps-Good refl (evaluate_clear_line_escape-Keeps (leave_escape t) out))
                (λ e.
                  Good-either (codepoint == b'J')
                    (λ e.
                      let k = evaluate_clear_escape-Keeps (leave_escape t) out in
                      Keeps-Good refl (Keeps-then k (evaluate_cursor_escape-Keeps _ k.drawn)))
                    (λ e.
                      Good-either (between b'A' (b'D' + 1) codepoint)
                        (λ e. Keeps-Good refl (evaluate_cursor_escape-Keeps (leave_escape t) out))
                        (λ e. record {
                          drawn = record {
                            synced = v.synced;
                            col_in = v.col_in;
                            line_in = v.line_in;
                          };
                          escaping = ground arith;
                        })))))

  evaluate_status-Good :
      (status : EscapeStatus) (codepoint : ℕ) (t : Terminal)
      → t.escape_mode ≡ true
      → t.escape_status ≡ status
      → Good start t
      → Good start (evaluate_status status codepoint t)
  unfolding evaluate_status
  evaluate_status-Good beginning codepoint t m s g =
      let v : Drawn start t = g.drawn in
      Good-either (codepoint == b'[')
        (λ e. record {
          drawn = record { synced = v.synced; col_in = v.col_in; line_in = v.line_in };
          escaping = inr (inr (omega arith));
        })
        (λ e. record { drawn = leave_escape-Drawn t v; escaping = inl refl })
  evaluate_status-Good value codepoint t m s g = elim g.escaping [
    | inl off ↦ absurd (cc)
    | inr (inl early) ↦ absurd (cc)
    | inr (inr (i, c)) ↦ evaluate_value-Good codepoint t g.drawn i c
  ]

  evaluate_escape_codepoint-Good :
      (codepoint : ℕ) (t : Terminal)
      → t.escape_mode ≡ true
      → Good start t
      → Good start (evaluate_escape_codepoint codepoint t)
  unfolding evaluate_escape_codepoint
  evaluate_escape_codepoint-Good codepoint t m g =
      let v : Drawn start t = g.drawn in
      evaluate_status-Good t.escape_status codepoint (record t { escape_codepoint = codepoint }) m
        refl
        (record {
          drawn = record { synced = v.synced; col_in = v.col_in; line_in = v.line_in };
          escaping = g.escaping;
        })

  -- A codepoint that is drawn, outside of escape mode.
  write_drawn-Good :
      (codepoint : ℕ) (t : Terminal)
      → t.escape_mode ≡ false
      → Good start t
      → Good start (write_drawn codepoint t)
  unfolding write_drawn
  write_drawn-Good codepoint t m g =
      let v : Drawn start t = g.drawn in
      let p : Position = t.cursor in
      let cols : ℕ = t.dimensions.cols in
      Good-either (codepoint == 10) (λ e. Keeps-Good m (settle-Keeps _ t v (omega arith)))
        (λ e.
          Good-either (codepoint == 13) (λ e. Keeps-Good m (settle-Keeps _ t v (omega arith)))
            (λ e.
              Good-either (codepoint == 8) (λ e. Keeps-Good m (backspace-Keeps t v))
                (λ e.
                  Good-either (codepoint == 9)
                    (λ e.
                      Keeps-Good m (
                        settle-Keeps (next_tab cols p) t v (next_tab-le cols p v.synced.some_cols)))
                    (λ e.
                      Good-either (codepoint == 27)
                        (λ e. record {
                          drawn = record {
                            synced = v.synced;
                            col_in = v.col_in;
                            line_in = v.line_in;
                          };
                          escaping = inr (inl refl);
                        })
                        (λ e. Keeps-Good m (
                          let k =
                            set_character-Keeps p
                              (record { codepoint = codepoint; attr = t.attribute }) t v in
                          Keeps-then k (
                            settle-Keeps _ _ k.drawn (
                              subst (λ (s : Size). p.col + 1 ≤ s.cols) (sym k.same_size)
                                (omega (arith, v.col_in))))))))))

  pub write_codepoint-Good :
      (codepoint : ℕ) (t : Terminal) → Good start t → Good start (write_codepoint codepoint t)
  unfolding write_codepoint
  write_codepoint-Good codepoint t g =
      Good-either t.escape_mode (λ m. evaluate_escape_codepoint-Good codepoint t m g)
        (λ m. write_drawn-Good codepoint t m g)

  pub set_dimensions-Good :
      (size : Size) (t : Terminal) → Good start t → Good start (set_dimensions size t)
  unfolding set_dimensions
  set_dimensions-Good size t g =
      Good-either ((size.lines == 0) || (size.cols == 0)) (λ e. g)
        (λ e. record {
          drawn = record {
            synced = resize-Synced g.drawn.synced size (ground arith) (ground arith);
            col_in = ground arith;
            line_in = ground arith;
          };
          escaping = g.escaping;
        })

  emit-Good : (text : List ℕ) (t : Terminal) → Good start t → Good start (emit_str text t)
  unfolding emit_str
  emit-Good text t g = record {
    drawn = (tell-Keeps (emit text) t (λ grid. refl) g.drawn).drawn;
    escaping = g.escaping;
  }

  emit_key-Good :
      (alt : Bool) (codepoint : ℕ) (t : Terminal)
      → Good start t
      → Good start (emit_key alt codepoint t)
  unfolding emit_key
  emit_key-Good alt codepoint t g =
      let g' : Good start (if alt then emit_str (27 ∷ []) t else t) =
        Good-either alt (λ e. emit-Good (27 ∷ []) t g) (λ e. g) in
      Good-either (codepoint == 0) (λ e. g') (λ e. emit-Good _ _ g')

  pub handle_keypress-Good :
      (key : Key) (codepoint : ℕ) (ctrl alt : Bool) (t : Terminal)
      → Good start t
      → Good start (handle_keypress key codepoint ctrl alt t)
  unfolding handle_keypress
  handle_keypress-Good up codepoint ctrl alt t g = emit-Good _ t g
  handle_keypress-Good down codepoint ctrl alt t g = emit-Good _ t g
  handle_keypress-Good right codepoint ctrl alt t g = emit-Good _ t g
  handle_keypress-Good left codepoint ctrl alt t g = emit-Good _ t g
  handle_keypress-Good other codepoint ctrl alt t g = emit_key-Good alt _ t g
