-- ===== src/Terminal/TtyDevice/Examples.antt =====
-- Runs of kernel/terminal/TTYDevice.cpp, and its theorems at them.
use duck_os.Prelude.{ℕ, ◌≡◌, refl, false, some, List, [], ◌∷◌, arith}
use duck_os.Kstd.Ring.{append_back, take_back, take_front}
use duck_os.Kstd.CircularQueue.{init, is_empty, push_back, back}
use duck_os.Kstd.CircularQueue.Refine.{init-Holds}
use duck_os.Terminal.TtyDevice.{Tty, default_termios, emit, read, delivered}
use duck_os.Terminal.TtyDevice.Typing.{Unbound, AllOrdinary, Typed, type_keys, read-type_keys}
use duck_os.Terminal.TtyDevice.EndOfFile.{read-end_of_file}

-- A terminal with sixteen bytes of buffer.
abbrev quiet : Tty
quiet = record {
  input = init 16;
  ready = false;
  group = 1;
  termios = default_termios;
  lines = 0;
  sent = [];
}

quiet-Typed : Typed quiet 16 default_termios 0 []
unfolding init
quiet-Typed = record {
  held = init-Holds 16 (omega arith);
  same_capacity = refl;
  same_termios = refl;
  same_lines = refl;
}

-- The keys `a`, `b`, backspace, `c`, Ctrl-C, a word, Ctrl-W and a newline.
abbrev keys : List ℕ
keys = 97 ∷ 98 ∷ 8 ∷ 99 ∷ 3 ∷ 32 ∷ 120 ∷ 121 ∷ 23 ∷ 10 ∷ []

edited_line :
    (read [] 9 (type_keys keys quiet)).0 ≡ delivered (some 97 ∷ some 99 ∷ some 32 ∷ some 10 ∷ [])
unfolding type_keys emit read init default_termios back push_back append_back is_empty take_back
    take_front
edited_line = refl

-- A newline that is erased leaves its line counted and a reader ready.
erased_newline :
    ((type_keys (10 ∷ 8 ∷ []) quiet).lines ≡ 1)
    × ((read [] 9 (type_keys (10 ∷ 8 ∷ []) quiet)).0 ≡ delivered [])
unfolding type_keys emit read init default_termios back push_back append_back is_empty take_back
    take_front
erased_newline = (refl, refl)

ab-Ordinary : AllOrdinary default_termios (97 ∷ 98 ∷ [])
unfolding default_termios
ab-Ordinary = ground arith

newline-Unbound : Unbound default_termios 10
unfolding default_termios
newline-Unbound = ground arith

read-type_keys_example :
    ((read [] 5 (emit 10 (type_keys (97 ∷ 98 ∷ []) quiet))).0
      ≡ delivered (some 97 ∷ some 98 ∷ some 10 ∷ []))
    × ((read [] 5 (emit 10 (type_keys (97 ∷ 98 ∷ []) quiet))).1.lines ≡ 0)
    × ((read [] 5 (emit 10 (type_keys (97 ∷ 98 ∷ []) quiet))).1.ready ≡ false)
unfolding default_termios
read-type_keys_example =
    read-type_keys (97 ∷ 98 ∷ []) [] 5 quiet refl quiet-Typed ab-Ordinary newline-Unbound
      (omega arith) (omega arith)

read-end_of_file_example : (read [] 5 (emit 4 quiet)).0 ≡ delivered (some 0 ∷ [])
unfolding default_termios
read-end_of_file_example =
    read-end_of_file [] 5 quiet refl quiet-Typed (omega arith) (omega arith) (omega arith)
      (omega arith) (omega arith)
