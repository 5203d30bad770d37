-- ===== src/Libterm/Terminal.antt =====
-- `Terminal` of libraries/libterm/Terminal.h and Terminal.cpp, as the kernel builds it.
pub mod Escapes
pub mod Writing
pub mod Synced
pub mod Drawing
pub mod Invariant
pub mod Session
mod Examples
use duck_os.Prelude.{
  ℕ, zero, suc, ◌+◌, ◌-◌, ◌*◌, ◌%◌, Bool, true, false, ◌&&◌, ◌||◌, List, [], ◌∷◌, replicate, set,
  get_elem?, ltb, leb, ◌==◌, if◌then◌else◌,
}
use duck_os.Libterm.Types.{
  Attribute, default_attribute, Character, default_character, Position, Size, Event,
  on_character_change, on_cursor_change, on_backspace, on_clear, on_clear_line, on_scroll,
  on_resize, emit,
}
use duck_os.Libterm.Screen.{Rows, row_at, cell_at, blank_row, scroll_rows, clear_rows, resize_rows}

pub data EscapeStatus : Type 0 where
  beginning value : EscapeStatus

-- `sent` is what the listener has been told, the last call first. `current_escape_parameter` points
-- to the row `parameter_index` of the parameters whenever it is used. The source leaves the parameters
-- unset until an escape sequence begins, and reads none before.
pub record Terminal : Type 0 where
  pub attribute : Attribute
  pub cursor : Position
  pub dimensions : Size
  pub screen : Rows
  pub escape_mode : Bool
  pub escape_status : EscapeStatus
  pub parameters : List (List ℕ)
  pub parameter_index : ℕ
  pub char_index : ℕ
  pub escape_codepoint : ℕ
  pub prevent_scroll : Bool
  pub sent : List Event

abbrev pub blank_parameters : List (List ℕ)
blank_parameters = replicate 10 (replicate 10 0)

unfoldable pub new_terminal : Size → Terminal
new_terminal dimensions = record {
  attribute = default_attribute;
  cursor = record { col = 0; line = 0 };
  dimensions = dimensions;
  screen = replicate dimensions.lines (replicate dimensions.cols default_character);
  escape_mode = false;
  escape_status = beginning;
  parameters = blank_parameters;
  parameter_index = 0;
  char_index = 0;
  escape_codepoint = 0;
  prevent_scroll = false;
  sent = [];
}

abbrev pub tell : Event → Terminal → Terminal
tell e t = record t { sent = e ∷ t.sent }

-- Whether a position is on the screen.
abbrev pub on_screen : Position → Size → Bool
on_screen p size = ltb p.col size.cols && ltb p.line size.lines

abbrev pub blank_of : Terminal → Character
blank_of t = record { codepoint = 0; attr = t.attribute }

unfoldable pub set_cursor : Position → Terminal → Terminal
set_cursor p t =
    if on_screen t.cursor t.dimensions
    then tell (on_cursor_change t.cursor) (record t { cursor = p })
    else record t { cursor = p }

unfoldable pub clear : Terminal → Terminal
unfolding set_cursor clear_rows
clear t =
    let home : Terminal = set_cursor (record { col = 0; line = 0 }) t in
    tell on_clear (record home {
      screen = clear_rows t.dimensions.cols t.dimensions.lines (blank_of t) t.screen;
    })

unfoldable pub scroll : ℕ → Terminal → Terminal
unfolding clear scroll_rows
scroll n t =
    if leb t.dimensions.lines n
    then clear t
    else tell (on_scroll n) (record t {
      screen = scroll_rows t.dimensions.cols t.dimensions.lines n (blank_of t) t.screen;
    })

unfoldable pub clear_line : ℕ → Terminal → Terminal
unfolding blank_row
clear_line line t =
    if leb t.dimensions.lines line
    then t
    else tell (on_clear_line line) (record t {
      screen = set t.screen line (blank_row t.dimensions.cols (blank_of t) (row_at t.screen line));
    })

unfoldable pub get_character : Position → Terminal → Character
get_character p t =
    if on_screen p t.dimensions then cell_at (row_at t.screen p.line) p.col else default_character

unfoldable pub set_character : Position → Character → Terminal → Terminal
set_character p c t =
    if on_screen p t.dimensions
    then tell (on_character_change p c)
        (record t { screen = set t.screen p.line (set (row_at t.screen p.line) p.col c) })
    else t

-- The cursor that a smaller screen leaves.
abbrev pub clamp : Position → Size → Position
clamp p size = record {
  col = if leb size.cols p.col then size.cols - 1 else p.col;
  line = if leb size.lines p.line then size.lines - 1 else p.line;
}

unfoldable pub set_dimensions : Size → Terminal → Terminal
unfolding resize_rows
set_dimensions size t =
    if size.lines == 0 || size.cols == 0
    then t
    else tell (on_resize t.dimensions size) (record t {
      screen = resize_rows t.dimensions.lines size.lines size.cols t.screen;
      cursor = clamp t.cursor size;
      dimensions = size;
    })

-- The position behind one, on the next line after the last column.
abbrev pub wrapped : ℕ → Position → Position
wrapped cols p = if p.col == cols then record { col = 0; line = p.line + 1 } else p

-- The end of `advance_cursor`, from the next position.
unfoldable pub advance_to : Position → Terminal → Terminal
unfolding scroll set_cursor
advance_to next t =
    if leb t.dimensions.lines next.line
    then set_cursor (record { col = next.col; line = t.dimensions.lines - 1 })
        (scroll (next.line + 1 - t.dimensions.lines) t)
    else set_cursor next t

unfoldable pub advance_cursor : Terminal → Terminal
unfolding advance_to
advance_cursor t =
    advance_to (wrapped t.dimensions.cols (record { col = t.cursor.col + 1; line = t.cursor.line }))
      t

-- One step back, to the end of the line before at the first column; the first line stays.
unfoldable pub regress_cursor : Terminal → Terminal
unfolding set_cursor
regress_cursor t =
    set_cursor
      (if t.cursor.col == 0
        then record {
          col = t.dimensions.cols - 1;
          line = if t.cursor.line == 0 then 0 else t.cursor.line - 1;
        }
        else record { col = t.cursor.col - 1; line = t.cursor.line })
      t

unfoldable pub backspace : Terminal → Terminal
unfolding regress_cursor
backspace t = let back : Terminal = regress_cursor t in tell (on_backspace back.cursor) back
