-- ===== src/Libterm/Terminal/Examples.antt =====
-- A small `Terminal` (libraries/libterm/Terminal.cpp), and the theorems at it.
use duck_os.Prelude.{ℕ, ◌≡◌, refl, List, [], ◌∷◌, arith}
use duck_os.Libterm.Types.{Size, Character, default_character}
use duck_os.Libterm.Screen.{Rows, scroll_rows}
use duck_os.Libterm.Screen.Shifted.{shifted, scroll_rows-shifted}
use duck_os.Libterm.Screen.Text.{text}
use duck_os.Libterm.Screen.Width.{AllWide-Wide}
use duck_os.Libterm.Terminal.{Terminal, new_terminal}
use duck_os.Libterm.Terminal.Session.{Call, codepoint, resized, cleared, session}

abbrev two_lines : Size
two_lines = record { cols = 3; lines = 2 }

abbrev calls : List Call
calls = codepoint 97 ∷ codepoint 10 ∷ codepoint 98 ∷ codepoint 10 ∷ codepoint 99 ∷ []

-- The first line has scrolled off.
scrolled_off :
    text (session calls (new_terminal two_lines)).screen
    ≡ (98 ∷ 0 ∷ 0 ∷ []) ∷ (99 ∷ 0 ∷ 0 ∷ []) ∷ []
unfolding session new_terminal
scrolled_off = refl

abbrev escape_calls : List Call
escape_calls = codepoint 27 ∷ codepoint 91 ∷ codepoint 51 ∷ resized two_lines ∷ cleared ∷ []

abbrev letter : ℕ → Character
letter c = record default_character { codepoint = c }

abbrev two_rows : Rows
two_rows = (letter 97 ∷ letter 98 ∷ []) ∷ (letter 99 ∷ letter 100 ∷ []) ∷ []

scroll_rows-shifted_example :
    scroll_rows 2 2 1 default_character two_rows ≡ shifted 2 1 default_character two_rows
scroll_rows-shifted_example =
    scroll_rows-shifted 2 1 default_character two_rows (AllWide-Wide 2 two_rows (refl, (refl, tt)))
      (omega arith)
