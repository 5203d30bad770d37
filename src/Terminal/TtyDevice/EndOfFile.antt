-- ===== src/Terminal/TtyDevice/EndOfFile.antt =====
-- The end of file character in kernel/terminal/TTYDevice.cpp.
use duck_os.Prelude.{
  ℕ, zero, suc, ◌<◌, ◌≡◌, ◌≢◌, refl, ap, subst, ◌∙◌, Bool, Bool-cases, inl, inr, true, false, some,
  List, [], ◌∷◌, arith, ltb, ◌==◌, if◌then◌else◌,
}
use duck_os.Kstd.Ring.Holds.{Holds}
use duck_os.Kstd.Ring.Takes.{take_front-Holds}
use duck_os.Kstd.CircularQueue.{push_back}
use duck_os.Kstd.CircularQueue.Refine.{push_back-Holds}
use duck_os.Terminal.TtyDevice.{
  Termios, Tty, Bytes, read_line, read_ready, read, delivered, emit, emit_canonical, one_line,
}
use duck_os.Terminal.TtyDevice.Typing.{Typed, read-ready}

-- What a canonical reader gets at an end of file mark.
abbrev pub at_mark : Termios → Bytes
at_mark m = if m.eol == 0 then some 0 ∷ [] else []

read_line-mark :
    (n : ℕ) (rest : List ℕ) (t : Tty)
    → Holds t.input (0 ∷ rest)
    → 0 < n
    → ((read_line n t).0 ≡ at_mark t.termios) × Holds (read_line n t).1.input rest
unfolding read_line
read_line-mark zero rest t v h = absurd (omega arith)
read_line-mark (suc n) rest t v h =
    let taken = take_front-Holds t.input 0 rest v in
    elim (Bool-cases (t.termios.eol == 0)) [
      | inl e ↦
          let ends : (0 == t.termios.eol) ≡ true = ground (arith, e) in
          rw (taken.0, ends, e) (refl, taken.1)
      | inr e ↦
          let inner : (0 == t.termios.eol) ≡ false = ground (arith, e) in
          rw (taken.0, inner, e) (refl, taken.1)
    ]

read_ready-mark :
    (count : ℕ) (rest : List ℕ) (t : Tty)
    → t.termios.icanon ≡ true
    → Holds t.input (0 ∷ rest)
    → 0 < count
    → ((read_ready count t).0 ≡ at_mark t.termios) × Holds (read_ready count t).1.input rest
unfolding read_ready
read_ready-mark count rest t k v h =
    let n : ℕ = if ltb count t.input.size then count else t.input.size in
    let got = read_line-mark n rest t v (ground (arith, v.sized)) in simp k (got.0, got.1)

emit_eof :
    (t : Tty)
    → t.termios.icanon ≡ true
    → t.termios.eof ≢ t.termios.intr
    → t.termios.eof ≢ t.termios.quit
    → t.termios.eof ≢ t.termios.susp
    → emit t.termios.eof t ≡ one_line (record t { input = (push_back 0 t.input).0 })
unfolding emit emit_canonical
emit_eof t k i q s = ground (arith, k)

-- On a canonical terminal with nothing typed, the end of file key gives a reader an empty read
-- only where the end of line character is not zero; as long as it is zero the reader gets a zero
-- byte.
pub read-end_of_file :
    (wakes : List ((Tty → Tty) × Bool)) (count : ℕ) (t : Tty) {capacity : ℕ} {m : Termios}
    → m.icanon ≡ true
    → Typed t capacity m 0 []
    → m.eof ≢ m.intr
    → m.eof ≢ m.quit
    → m.eof ≢ m.susp
    → 0 < capacity
    → 0 < count
    → (read wakes count (emit m.eof t)).0 ≡ delivered (at_mark m)
read-end_of_file wakes count t {m = m} k v i q s room enough =
    let marked : Tty = one_line (record t { input = (push_back 0 t.input).0 }) in
    let held : Holds marked.input (0 ∷ []) = elim (push_back-Holds 0 t.input [] v.held) [
      | inl (fits, pushed, held) ↦ held
      | inr (full, same) ↦ absurd (omega (arith, v.same_capacity))
    ] in
    let canonical : t.termios.icanon ≡ true = rw v.same_termios k in
    let sent : emit m.eof t ≡ marked =
      subst
        (λ x.
          x.icanon ≡ true
          → x.eof ≢ x.intr
          → x.eof ≢ x.quit
          → x.eof ≢ x.susp
          → emit x.eof t ≡ marked)
        v.same_termios (emit_eof t) k i q s in
    let got = read_ready-mark count [] marked canonical held enough in
    rw (sent, read-ready wakes count marked refl) (ap delivered (got.0 ∙ ap at_mark v.same_termios))
