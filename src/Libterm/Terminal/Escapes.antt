-- ===== src/Libterm/Terminal/Escapes.antt =====
-- The escape sequences of `Terminal` (libraries/libterm/Terminal.cpp), with `atoi` of
-- kernel/kstd/kstdlib.cpp.
use duck_os.Prelude.{
  ℕ, zero, suc, ◌+◌, ◌-◌, ◌*◌, ◌%◌, ◌^◌, Bool, false, ◌&&◌, List, [], ◌∷◌, none, some, set,
  get_elem?, ltb, leb, ◌==◌, if◌then◌else◌,
}
use duck_os.Prelude.Words.{size_limit}
use duck_os.Libterm.Types.{Attribute, default_attribute}
use duck_os.Libterm.Terminal.{
  Terminal, EscapeStatus, beginning, value, blank_parameters, blank_of, clear, clear_line,
  set_character, advance_cursor, regress_cursor,
}

-- A `char` as the 32-bit pattern of the `int` that it is widened to.
abbrev pub char_word : ℕ → ℕ
char_word c = if ltb c 128 then c else c + (size_limit - 256)

-- `ret * 10 + (str[i] - '0')` up to the end of the text, wrapping like `int`.
unfoldable pub atoi : ℕ → List ℕ → ℕ
atoi ret [] = ret
atoi ret (c ∷ cs) =
    let rest = atoi ((ret * 10 + char_word c + (size_limit - b'0')) % size_limit) cs in
    if c == 0 then ret else rest

abbrev pub parameter : ℕ → Terminal → List ℕ
parameter i t = elim (get_elem? t.parameters i) [ none ↦ [] | some text ↦ text ]

abbrev pub between : ℕ → ℕ → ℕ → Bool
between lo hi n = leb lo n && ltb n hi

-- One number of `ESC [ .. m`. The case 39 runs on into the next, which resets the background.
unfoldable pub graphics_mode : ℕ → Attribute → Attribute
graphics_mode n a =
    if between 30 38 n
    then record a { fg = n - 30 }
    else if between 40 48 n
    then record a { bg = n - 40 }
    else if between 90 98 n
    then record a { fg = n - 82 }
    else if between 100 108 n
    then record a { bg = n - 92 }
    else if n == 39
    then default_attribute
    else a

-- Parameter `i` and `n` more.
unfoldable pub graphics_modes : ℕ → ℕ → Terminal → Terminal
unfolding graphics_mode atoi
graphics_modes zero i t = record t {
  attribute = graphics_mode (atoi 0 (parameter i t)) t.attribute;
}
graphics_modes (suc n) i t =
    graphics_modes n (i + 1)
      (record t { attribute = graphics_mode (atoi 0 (parameter i t)) t.attribute })

unfoldable pub evaluate_graphics_mode_escape : Terminal → Terminal
unfolding graphics_modes
evaluate_graphics_mode_escape t = graphics_modes t.parameter_index 0 t

-- `for(line = line; n more times; line++) clear_line(line);`
unfoldable pub clear_lines : ℕ → ℕ → Terminal → Terminal
unfolding clear_line
clear_lines zero line t = t
clear_lines (suc n) line t = clear_lines n (line + 1) (clear_line line t)

-- The array that the source tests is never null.
unfoldable pub evaluate_clear_escape : Terminal → Terminal
unfolding clear clear_lines atoi
evaluate_clear_escape t =
    let val : ℕ = atoi 0 (parameter 0 t) in
    if val == 0
    then clear_lines (t.dimensions.lines - t.cursor.line) t.cursor.line t
    else if val == 1
    then clear_lines (t.cursor.line + 1) 0 t
    else if val == 2
    then clear t
    else t

-- `for(x = x; n more times; x++)` over the cursor's line.
unfoldable pub blank_cells : ℕ → ℕ → Terminal → Terminal
unfolding set_character
blank_cells zero x t = t
blank_cells (suc n) x t =
    blank_cells n (x + 1) (set_character (record { col = x; line = t.cursor.line }) (blank_of t) t)

unfoldable pub evaluate_clear_line_escape : Terminal → Terminal
unfolding clear_line blank_cells atoi
evaluate_clear_line_escape t =
    let val : ℕ = atoi 0 (parameter 0 t) in
    if val == 0
    then blank_cells (t.dimensions.cols - t.cursor.col) t.cursor.col t
    else if val == 1
    then blank_cells (t.cursor.col + 1) 0 t
    else if val == 2
    then clear_line t.cursor.line t
    else t

unfoldable pub repeat {ℓ} : {A : Type ℓ} → ℕ → (A → A) → A → A
repeat zero f a = a
repeat (suc n) f a = repeat n f (f a)

-- `while(amount-- > 0)` runs no round for a negative `int`.
abbrev pub rounds : ℕ → ℕ
rounds amount = if ltb amount (2 ^ 31) then amount else 0

unfoldable pub evaluate_cursor_escape : Terminal → Terminal
unfolding repeat advance_cursor regress_cursor atoi
evaluate_cursor_escape t =
    let amount : ℕ = rounds (atoi 0 (parameter 0 t)) in
    if t.escape_codepoint == b'C'
    then repeat amount advance_cursor t
    else if t.escape_codepoint == b'D'
    then repeat amount regress_cursor t
    else t

-- `*current_escape_parameter[char_index++] = codepoint`, kept as a `char`.
abbrev pub put_parameter : ℕ → Terminal → List (List ℕ)
put_parameter codepoint t =
    set t.parameters t.parameter_index
      (set (parameter t.parameter_index t) t.char_index (codepoint % 256))

abbrev pub leave_escape : Terminal → Terminal
leave_escape t = record t { escape_mode = false }

-- In the state `Value`. A clear runs on into the cursor escapes.
unfoldable pub evaluate_value : ℕ → Terminal → Terminal
unfolding evaluate_graphics_mode_escape evaluate_clear_line_escape evaluate_clear_escape
    evaluate_cursor_escape
evaluate_value codepoint t =
    if codepoint == b';'
    then record t {
      char_index = 0;
      parameter_index = t.parameter_index + 1;
      escape_mode = ltb (t.parameter_index + 1) 10 && t.escape_mode;
    }
    else if codepoint == b'm'
    then evaluate_graphics_mode_escape (leave_escape t)
    else if codepoint == b'K'
    then evaluate_clear_line_escape (leave_escape t)
    else if codepoint == b'J'
    then evaluate_cursor_escape (evaluate_clear_escape (leave_escape t))
    else if between b'A' (b'D' + 1) codepoint
    then evaluate_cursor_escape (leave_escape t)
    else record t {
      parameters = put_parameter codepoint t;
      char_index = t.char_index + 1;
      escape_mode = ltb (t.char_index + 1) 9 && t.escape_mode;
    }

-- The switch over the status, once the codepoint is noted.
unfoldable pub evaluate_status : EscapeStatus → ℕ → Terminal → Terminal
unfolding evaluate_value
evaluate_status beginning codepoint t =
    if codepoint == b'['
    then record t {
      escape_status = value;
      parameters = blank_parameters;
      parameter_index = 0;
      char_index = 0;
    }
    else leave_escape t
evaluate_status value codepoint t = evaluate_value codepoint t

unfoldable pub evaluate_escape_codepoint : ℕ → Terminal → Terminal
unfolding evaluate_status
evaluate_escape_codepoint codepoint t =
    evaluate_status t.escape_status codepoint (record t { escape_codepoint = codepoint })
