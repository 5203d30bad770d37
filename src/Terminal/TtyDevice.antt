-- ===== src/Terminal/TtyDevice.antt =====
-- kernel/terminal/TTYDevice.h and TTYDevice.cpp: the line discipline between a keyboard and readers.
pub mod Lines
pub mod Typing
pub mod EndOfFile
mod Examples
use duck_os.Prelude.{
  ℕ, zero, suc, ◌-◌, Bool, true, false, not, ◌&&◌, ◌||◌, Option, none, some, List, [], ◌∷◌, ltb,
  ◌==◌, if◌then◌else◌,
}
use duck_os.Prelude.Words.{add_size, sub_size}
use duck_os.Kstd.Ring.{Ring}
use duck_os.Kstd.CircularQueue
use duck_os.Kstd.CircularQueue.{push_back, pop_front, pop_back, is_empty, back}

-- The flags and the control characters of `_termios` that the line discipline reads.
pub record Termios : Type 0 where
  pub isig : Bool
  pub icanon : Bool
  pub echo : Bool
  pub eof : ℕ
  pub eol : ℕ
  pub erase : ℕ
  pub intr : ℕ
  pub kill : ℕ
  pub quit : ℕ
  pub susp : ℕ
  pub werase : ℕ

-- The constructor's: the string that it copies has a zero at `VEOL`.
unfoldable pub default_termios : Termios
default_termios = record {
  isig = true;
  icanon = true;
  echo = true;
  eof = 4;
  eol = 0;
  erase = 8;
  intr = 3;
  kill = 21;
  quit = 28;
  susp = 26;
  werase = 23;
}

pub data Signal : Type 0 where
  sigint sigquit sigtstp : Signal

pub data Effect : Type 0 where
  echoed : ℕ → Effect
  signalled : ℕ → Signal → Effect

-- `sent` is what the device has echoed and which groups it has signalled, the last first.
pub record Tty : Type 0 where
  pub input : Ring ℕ
  pub ready : Bool
  pub group : ℕ
  pub termios : Termios
  pub lines : ℕ
  pub sent : List Effect

unfoldable pub new_tty : Tty
unfolding CircularQueue.init default_termios
new_tty = record {
  input = CircularQueue.init 1024;
  ready = false;
  group = sub_size 0 1;
  termios = default_termios;
  lines = 0;
  sent = [];
}

abbrev pub put_echo : ℕ → Tty → Tty
put_echo c t = record t { sent = echoed c ∷ t.sent }

unfoldable pub generate_signal : Signal → Tty → Tty
generate_signal s t = if t.group == 0 then t else record t { sent = signalled t.group s ∷ t.sent }

-- A `char` against a control character: a byte from 128 on is negative as a `char`.
abbrev pub is_char : ℕ → ℕ → Bool
is_char cc b = ltb b 128 && (b == cc)

-- Whether the last byte may be erased; a newline may.
unfoldable pub erasable : Tty → Bool
erasable t = elim (back t.input) [
  | none ↦ false
  | some b ↦ not (is_empty t.input) && not (b == 0) && not (is_char t.termios.eol b)
]

-- `erase`, and `backspace` with another character for the echo.
unfoldable pub erase_with : ℕ → Tty → Bool × Tty
unfolding erasable
erase_with c t =
    if erasable t
    then (true, put_echo c (put_echo 32 (put_echo c (record t { input = (pop_back t.input).1 }))))
    else (false, t)

unfoldable pub backspace : Tty → Bool × Tty
unfolding erase_with
backspace t = erase_with 8 t

unfoldable pub erase : Tty → Bool × Tty
unfolding erase_with
erase t = erase_with t.termios.erase t

-- `while(test(_input_buffer.back()) && erase());`, for as many rounds as there are bytes. An empty
-- buffer ends it at `erase`, whatever its `back` is.
unfoldable pub erase_while : (ℕ → Bool) → ℕ → Tty → Tty
unfolding erase
erase_while test zero t = t
erase_while test (suc n) t =
    let rest = erase_while test n (erase t).1 in
    elim (back t.input) [ none ↦ t | some b ↦ if test b && (erase t).0 then rest else t ]

-- `_buffer_blocker.set_ready(_lines && !_input_buffer.empty())`
abbrev pub update_ready : Tty → Tty
update_ready t = record t { ready = not (t.lines == 0) && not (is_empty t.input) }

unfoldable pub kill_line : Tty → Tty
unfolding erase_while
kill_line t = update_ready (erase_while (λ b. true) t.input.size t)

unfoldable pub erase_word : Tty → Tty
unfolding erase_while
erase_word t =
    let trimmed : Tty = erase_while (λ b. b == 32) t.input.size t in
    update_ready (erase_while (λ b. not (b == 32)) trimmed.input.size trimmed)

-- The end of `emit`.
unfoldable pub accept : ℕ → Tty → Tty
accept c t =
    let taken : Tty = record t {
      input = (push_back c t.input).0;
      ready = if t.termios.icanon then t.ready else true;
    } in
    if t.termios.echo then put_echo c taken else taken

-- A line more, which wakes a reader.
abbrev pub one_line : Tty → Tty
one_line t = record t { lines = add_size t.lines 1; ready = true }

-- The canonical part of `emit`, behind the end of file.
unfoldable pub edit : ℕ → Tty → Tty
unfolding backspace kill_line erase_word accept
edit c t =
    if c == t.termios.erase
    then (backspace t).1
    else if c == t.termios.kill
    then kill_line t
    else if c == t.termios.werase
    then erase_word t
    else accept c t

unfoldable pub emit_canonical : ℕ → Tty → Tty
unfolding edit
emit_canonical c t =
    if c == t.termios.eof
    then one_line (record t { input = (push_back 0 t.input).0 })
    else if (c == 10) || (c == t.termios.eol)
    then edit c (one_line t)
    else edit c t

unfoldable pub emit : ℕ → Tty → Tty
unfolding generate_signal emit_canonical accept
emit c t =
    if t.termios.isig && (c == t.termios.intr)
    then generate_signal sigint t
    else if t.termios.isig && (c == t.termios.quit)
    then generate_signal sigquit t
    else if t.termios.isig && (c == t.termios.susp)
    then generate_signal sigtstp t
    else if t.termios.icanon
    then emit_canonical c t
    else accept c t

-- The bytes that a reader's buffer is set to. Every byte that is read lives in the queue.
abbrev pub Bytes : Type 0
Bytes = List (Option ℕ)

abbrev pub is_byte : (ℕ → Bool) → Option ℕ → Bool
is_byte test none = false
is_byte test (some b) = test b

-- The loop of a canonical read: it ends at a line's end, which it delivers, or at an end of file.
unfoldable pub read_line : ℕ → Tty → Bytes × Tty
read_line zero t = ([], t)
read_line (suc n) t =
    let (c, q) = pop_front t.input in
    let popped : Tty = record t { input = q } in
    let ended : Tty = record popped { lines = sub_size t.lines 1 } in
    let rest = read_line n popped in
    if is_byte (λ b. (b == 10) || is_char t.termios.eol b) c
    then (c ∷ [], ended)
    else if is_byte (λ b. b == 0) c
    then ([], ended)
    else (c ∷ rest.0, rest.1)

unfoldable pub read_raw : ℕ → Tty → Bytes × Tty
read_raw zero t = ([], t)
read_raw (suc n) t =
    let (c, q) = pop_front t.input in
    let rest = read_raw n (record t { input = q }) in (c ∷ rest.0, rest.1)

-- What `read` does once the blocker is ready.
unfoldable pub read_ready : ℕ → Tty → Bytes × Tty
unfolding read_line read_raw
read_ready count t =
    let n : ℕ = if ltb count t.input.size then count else t.input.size in
    if t.termios.icanon then ((read_line n t).0, update_ready (read_line n t).1) else (
      (read_raw n t).0,
      record (read_raw n t).1 { ready = not (is_empty (read_raw n t).1.input) },
    )

pub data ReadResult : Type 0 where
  waiting interrupted : ReadResult
  delivered : Bytes → ReadResult

-- `wakes` are the times that the reader is woken: what the others have done to the device by then, and
-- whether a signal came.
unfoldable pub read : List ((Tty → Tty) × Bool) → ℕ → Tty → ReadResult × Tty
unfolding read_ready
read [] count t =
    if t.ready then (delivered (read_ready count t).0, (read_ready count t).1) else (waiting, t)
read ((others, signal) ∷ wakes) count t =
    let rest = read wakes count (others t) in
    if t.ready
    then (delivered (read_ready count t).0, (read_ready count t).1)
    else if signal
    then (interrupted, others t)
    else rest

-- The test of the second branch is the wrong way round in the source.
unfoldable pub can_read : Tty → Bool
can_read t = if t.termios.icanon then not (t.lines == 0) else is_empty t.input
