-- ===== src/Libterm/Terminal/Session.antt =====
-- Whole sessions of a `Terminal` (libraries/libterm/Terminal.cpp).
use duck_os.Prelude.{ℕ, Bool, List, [], ◌∷◌}
use duck_os.Libterm.Types.{Attribute, Size}
use duck_os.Libterm.Terminal.{Terminal, set_dimensions, clear, scroll}
use duck_os.Libterm.Terminal.Writing.{write_codepoint, Key, handle_keypress}

-- The calls of a client. A write of many codepoints is as many of these; a client that moves the
-- cursor itself is not modelled.
pub data Call : Type 0 where
  codepoint : ℕ → Call
  resized : Size → Call
  pressed : Key → ℕ → Bool → Bool → Call
  coloured : Attribute → Call
  fixed : Bool → Call
  scrolled : ℕ → Call
  cleared : Call

unfoldable pub perform : Call → Terminal → Terminal
unfolding write_codepoint set_dimensions handle_keypress scroll clear
perform (codepoint c) t = write_codepoint c t
perform (resized size) t = set_dimensions size t
perform (pressed key c ctrl alt) t = handle_keypress key c ctrl alt t
perform (coloured a) t = record t { attribute = a }
perform (fixed b) t = record t { prevent_scroll = b }
perform (scrolled n) t = scroll n t
perform cleared t = clear t

unfoldable pub session : List Call → Terminal → Terminal
unfolding perform
session [] t = t
session (c ∷ cs) t = session cs (perform c t)
