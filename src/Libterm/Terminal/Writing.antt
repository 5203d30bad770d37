-- ===== src/Libterm/Terminal/Writing.antt =====
-- What goes into a terminal and what a key press sends out of it (libraries/libterm/Terminal.cpp).
use duck_os.Prelude.{ℕ, ◌+◌, ◌-◌, ◌%◌, Bool, true, ◌&&◌, List, [], ◌∷◌, leb, ◌==◌, if◌then◌else◌}
use duck_os.Libterm.Types.{Position, emit}
use duck_os.Libterm.Terminal.{
  Terminal, beginning, tell, wrapped, set_cursor, set_character, scroll, backspace,
}
use duck_os.Libterm.Terminal.Escapes.{evaluate_escape_codepoint, between}

-- The end of `write_codepoint`: tell of the cursor if it has moved, ...
unfoldable pub come_to_rest : Position → Terminal → Terminal
unfolding set_cursor
come_to_rest p t =
    if (p.col == t.cursor.col) && (p.line == t.cursor.line) then t else set_cursor p t

-- ... after scrolling, ...
unfoldable pub keep_on_screen : Position → Terminal → Terminal
unfolding come_to_rest scroll
keep_on_screen p t =
    if leb t.dimensions.lines p.line
    then come_to_rest (record { col = p.col; line = t.dimensions.lines - 1 })
        (if t.prevent_scroll then t else scroll (p.line + 1 - t.dimensions.lines) t)
    else come_to_rest p t

-- ... after wrapping.
unfoldable pub settle : Position → Terminal → Terminal
unfolding keep_on_screen
settle p t = keep_on_screen (wrapped t.dimensions.cols p) t

-- Where a tabulator leads, from a position.
unfoldable pub next_tab : ℕ → Position → Position
next_tab cols p =
    let next : ℕ = p.col + (8 - p.col % 8) in
    if leb cols next
    then record { col = 0; line = p.line + 1 }
    else record { col = next; line = p.line }

-- The switch of `write_codepoint`, outside of escape mode.
unfoldable pub write_drawn : ℕ → Terminal → Terminal
unfolding settle next_tab backspace set_character
write_drawn codepoint t =
    let p : Position = t.cursor in
    if codepoint == 10
    then settle (record { col = 0; line = p.line + 1 }) t
    else if codepoint == 13
    then settle (record { col = 0; line = p.line }) t
    else if codepoint == 8
    then backspace t
    else if codepoint == 9
    then settle (next_tab t.dimensions.cols p) t
    else if codepoint == 27
    then record t { escape_mode = true; escape_status = beginning }
    else settle (record { col = p.col + 1; line = p.line })
        (set_character p (record { codepoint = codepoint; attr = t.attribute }) t)

unfoldable pub write_codepoint : ℕ → Terminal → Terminal
unfolding write_drawn evaluate_escape_codepoint
write_codepoint codepoint t =
    if t.escape_mode then evaluate_escape_codepoint codepoint t else write_drawn codepoint t

unfoldable pub write_codepoints : List ℕ → Terminal → Terminal
unfolding write_codepoint
write_codepoints [] t = t
write_codepoints (c ∷ cs) t = write_codepoints cs (write_codepoint c t)

pub data Key : Type 0 where
  up down right left other : Key

-- `emit_str` sends the text up to its first zero.
unfoldable pub emit_str : List ℕ → Terminal → Terminal
emit_str text t = tell (emit text) t

abbrev pub emit_csi : ℕ → Terminal → Terminal
emit_csi esc t = emit_str (27 ∷ b'[' ∷ esc ∷ []) t

-- A key that is no arrow: an escape first if Alt is down, then the codepoint as one `char`.
unfoldable pub emit_key : Bool → ℕ → Terminal → Terminal
unfolding emit_str
emit_key alt codepoint t =
    let t' : Terminal = if alt then emit_str (27 ∷ []) t else t in
    if codepoint == 0
    then t'
    else emit_str (if codepoint % 256 == 0 then [] else codepoint % 256 ∷ []) t'

unfoldable pub handle_keypress : Key → ℕ → Bool → Bool → Terminal → Terminal
unfolding emit_str emit_key
handle_keypress up codepoint ctrl alt t = emit_csi b'A' t
handle_keypress down codepoint ctrl alt t = emit_csi b'B' t
handle_keypress right codepoint ctrl alt t = emit_csi b'C' t
handle_keypress left codepoint ctrl alt t = emit_csi b'D' t
handle_keypress other codepoint ctrl alt t =
    emit_key alt
      (if ctrl && between b'a' (b'z' + 1) codepoint then codepoint - (b'a' - 1) else codepoint) t
