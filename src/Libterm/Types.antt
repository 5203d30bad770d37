-- ===== src/Libterm/Types.antt =====
-- libraries/libterm/types.h and Listener.h. A position is two natural numbers: no call of the class
-- `Terminal` makes a negative one.
use duck_os.Prelude.{ℕ, List}

pub record Attribute : Type 0 where
  pub fg : ℕ
  pub bg : ℕ

abbrev pub default_attribute : Attribute
default_attribute = record { fg = 7; bg = 0 }

pub record Character : Type 0 where
  pub codepoint : ℕ
  pub attr : Attribute

abbrev pub default_character : Character
default_character = record { codepoint = 0; attr = default_attribute }

pub record Position : Type 0 where
  pub col : ℕ
  pub line : ℕ

pub record Size : Type 0 where
  pub cols : ℕ
  pub lines : ℕ

-- The calls of a `Listener`.
pub data Event : Type 0 where
  on_character_change : Position → Character → Event
  on_cursor_change : Position → Event
  on_backspace : Position → Event
  on_clear : Event
  on_clear_line : ℕ → Event
  on_scroll : ℕ → Event
  on_resize : Size → Size → Event
  emit : List ℕ → Event
