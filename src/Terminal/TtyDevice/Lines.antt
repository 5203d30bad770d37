-- ===== src/Terminal/TtyDevice/Lines.antt =====
-- Canonical reads of kernel/terminal/TTYDevice.cpp.
use duck_os.Prelude.{
  ℕ, zero, suc, ◌<◌, ◌≡◌, ◌≢◌, refl, ap, true, false, not, ◌&&◌, ◌||◌, some, List, [], ◌∷◌, ◌++◌,
  arith, length, length-append, ltb, ◌==◌, if◌then◌else◌,
}
use mathlib.Core.List.{map}
use duck_os.Prelude.Words.{sub_size}
use duck_os.Kstd.Ring.{take_front}
use duck_os.Kstd.Ring.Holds.{Holds}
use duck_os.Kstd.Ring.Takes.{take_front-Holds}
use duck_os.Kstd.CircularQueue.{is_empty}
use duck_os.Terminal.TtyDevice.{Termios, Tty, is_char, read_line, read_ready}

-- A byte at which a canonical read does not end.
abbrev pub Inner : Termios → ℕ → Type 0
Inner termios b = (b ≢ 10) × (b ≢ 0) × (is_char termios.eol b ≡ false)

abbrev pub AllInner : Termios → List ℕ → Type 0
AllInner termios [] = Unit {0}
AllInner termios (b ∷ bs) = Inner termios b × AllInner termios bs

-- A read that comes to the newline.
pub read_line-Holds :
    (n : ℕ) (line rest : List ℕ) (t : Tty)
    → Holds t.input (line ++ 10 ∷ rest)
    → AllInner t.termios line
    → length line < n
    → ((read_line n t).0 ≡ map some (line ++ 10 ∷ []))
      × Holds (read_line n t).1.input rest
      × ((read_line n t).1.lines ≡ sub_size t.lines 1)
      × ((read_line n t).1.termios ≡ t.termios)
unfolding read_line
read_line-Holds zero line rest t v i h = absurd (omega arith)
read_line-Holds (suc n) [] rest t v i h =
    let taken = take_front-Holds t.input 10 rest v in rw taken.0 (refl, taken.1, refl, refl)
read_line-Holds (suc n) (b ∷ line) rest t v i h =
    let taken = take_front-Holds t.input b (line ++ 10 ∷ rest) v in
    let popped : Tty = record t { input = (take_front t.input).1 } in
    let ih = read_line-Holds n line rest popped taken.1 i.1 (omega arith) in
    let not_end : ((b == 10) || is_char t.termios.eol b) ≡ false = ground (arith, i.0) in
    let not_eof : (b == 0) ≡ false = ground (arith, i.0) in
    rw (taken.0, not_end, not_eof) (ap (◌∷◌ (some b)) ih.0, ih.1, ih.2, ih.3)

-- A reader of a terminal in canonical mode gets one line of those that wait, and the others stay.
pub read_ready-line :
    (count : ℕ) (line rest : List ℕ) (t : Tty)
    → t.termios.icanon ≡ true
    → Holds t.input (line ++ 10 ∷ rest)
    → AllInner t.termios line
    → length line < count
    → ((read_ready count t).0 ≡ map some (line ++ 10 ∷ []))
      × Holds (read_ready count t).1.input rest
      × ((read_ready count t).1.lines ≡ sub_size t.lines 1)
      × ((read_ready count t).1.ready
          ≡ (not (sub_size t.lines 1 == 0) && not (is_empty (read_ready count t).1.input)))
unfolding read_ready
read_ready-line count line rest t canonical v i h =
    let n : ℕ = if ltb count t.input.size then count else t.input.size in
    let enough : length line < n = ground (arith, v.sized, length-append line (10 ∷ rest)) in
    let got = read_line-Holds n line rest t v i enough in
    let lines_left : (read_line n t).1.lines ≡ sub_size t.lines 1 = got.2 in
    simp canonical (
      got.0,
      got.1,
      lines_left,
      ap (λ k. not (k == 0) && not (is_empty (read_line n t).1.input)) lines_left,
    )
