-- ===== src/Terminal/TtyDevice/Typing.antt =====
-- From the keys to a reader, through kernel/terminal/TTYDevice.cpp.
use duck_os.Prelude.{
  ℕ, ◌+◌, ◌≤◌, ◌<◌, ◌≡◌, ◌≢◌, refl, sym, ap, ◌∙◌, Bool, true, false, ◌||◌, some, List, [], ◌∷◌,
  ◌++◌, append-nil, append_assoc, arith, length, length-append, ◌==◌, Bool-cases, inl, inr,
}
use mathlib.Core.List.{map}
use duck_os.Prelude.Words.{add_size, sub_size}
use duck_os.Kstd.Ring.Holds.{Holds}
use duck_os.Kstd.CircularQueue.Refine.{push_back-Holds, capacity-push_back}
use duck_os.Terminal.TtyDevice.{
  Termios, Tty, is_char, accept, edit, emit_canonical, emit, one_line, read, delivered, read_ready,
}
use duck_os.Terminal.TtyDevice.Lines.{AllInner, read_ready-line}

-- A byte with no meaning of its own to the line discipline but for its value 10 or 0.
abbrev pub Unbound : Termios → ℕ → Type 0
Unbound m c =
    (c ≢ m.intr)
    × (c ≢ m.quit)
    × (c ≢ m.susp)
    × (c ≢ m.eof)
    × (c ≢ m.erase)
    × (c ≢ m.kill)
    × (c ≢ m.werase)

abbrev pub Ordinary : Termios → ℕ → Type 0
Ordinary m c = Unbound m c × (c ≢ 10) × (c ≢ 0) × (c ≢ m.eol)

abbrev pub AllOrdinary : Termios → List ℕ → Type 0
AllOrdinary m [] = Unit {0}
AllOrdinary m (c ∷ cs) = Ordinary m c × AllOrdinary m cs

unfoldable pub type_keys : List ℕ → Tty → Tty
unfolding emit
type_keys [] t = t
type_keys (c ∷ cs) t = type_keys cs (emit c t)

-- A canonical terminal whose buffer holds some bytes, with its capacity and what does not change.
pub record Typed (t : Tty) (capacity : ℕ) (m : Termios) (lines : ℕ) (xs : List ℕ) : Type 0 where
  pub held : Holds t.input xs
  pub same_capacity : t.input.capacity ≡ capacity
  pub same_termios : t.termios ≡ m
  pub same_lines : t.lines ≡ lines

accept-Typed :
    (c : ℕ) (t : Tty) {capacity : ℕ} {m : Termios} {lines : ℕ} {xs : List ℕ}
    → Typed t capacity m lines xs
    → length xs < capacity
    → Typed (accept c t) capacity m lines (xs ++ c ∷ [])
unfolding accept
accept-Typed c t v h = elim (push_back-Holds c t.input _ v.held) [
  | inl (room, pushed, held) ↦ elim (Bool-cases t.termios.echo) [
    | inl e ↦ simp e (record {
      held = held;
      same_capacity = capacity-push_back c t.input ∙ v.same_capacity;
      same_termios = v.same_termios;
      same_lines = v.same_lines;
    })
    | inr e ↦ simp e (record {
      held = held;
      same_capacity = capacity-push_back c t.input ∙ v.same_capacity;
      same_termios = v.same_termios;
      same_lines = v.same_lines;
    })
  ]
  | inr (full, same) ↦ absurd (omega (arith, v.same_capacity))
]

edit-Unbound : (c : ℕ) (t : Tty) → Unbound t.termios c → edit c t ≡ accept c t
unfolding edit
edit-Unbound c t u = ground (arith, u)

emit-Unbound :
    (c : ℕ) (t : Tty)
    → t.termios.icanon ≡ true
    → Unbound t.termios c
    → emit c t ≡ emit_canonical c t
unfolding emit
emit-Unbound c t k u = ground (arith, u)

emit-Ordinary :
    (c : ℕ) (t : Tty) → t.termios.icanon ≡ true → Ordinary t.termios c → emit c t ≡ accept c t
unfolding emit_canonical
emit-Ordinary c t k o =
    let not_eof : (c == t.termios.eof) ≡ false = ground (arith, o) in
    let not_end : ((c == 10) || (c == t.termios.eol)) ≡ false = ground (arith, o) in
    let step : emit_canonical c t ≡ edit c t = simp (not_eof, not_end) in
    emit-Unbound c t k o.0 ∙ step ∙ edit-Unbound c t o.0

emit_newline :
    (t : Tty) → t.termios.icanon ≡ true → Unbound t.termios 10 → emit 10 t ≡ accept 10 (one_line t)
unfolding emit_canonical
emit_newline t k u =
    let not_eof : (10 == t.termios.eof) ≡ false = ground (arith, u) in
    let step : emit_canonical 10 t ≡ edit 10 (one_line t) = simp not_eof in
    emit-Unbound 10 t k u ∙ step ∙ edit-Unbound 10 (one_line t) u

-- Keys without a meaning of their own come to the buffer in their order, while there is room.
pub type_keys-Typed :
    (cs : List ℕ) (t : Tty) {capacity : ℕ} {m : Termios} {lines : ℕ} {xs : List ℕ}
    → m.icanon ≡ true
    → Typed t capacity m lines xs
    → AllOrdinary m cs
    → length xs + length cs ≤ capacity
    → Typed (type_keys cs t) capacity m lines (xs ++ cs)
unfolding type_keys
type_keys-Typed [] t {xs = xs} k v o room = rw (append-nil xs) v
type_keys-Typed (c ∷ cs) t {capacity = capacity} {m = m} {lines = lines} {xs = xs} k v o room =
    let canonical : t.termios.icanon ≡ true = rw v.same_termios k in
    let ordinary : Ordinary t.termios c = rw v.same_termios o.0 in
    let taken = accept-Typed c t v (omega arith) in
    let fits : length (xs ++ c ∷ []) + length cs ≤ capacity =
      omega (arith, length-append xs (c ∷ [])) in
    let rest = type_keys-Typed cs (accept c t) k taken o.1 fits in
    rw (emit-Ordinary c t canonical ordinary, sym (append_assoc xs (c ∷ []) cs)) rest

AllOrdinary-AllInner : (m : Termios) (cs : List ℕ) → AllOrdinary m cs → AllInner m cs
AllOrdinary-AllInner m [] o = o
AllOrdinary-AllInner m (c ∷ cs) o =
    let not_end : is_char m.eol c ≡ false = ground (arith, o.0) in
    ((o.0.1, o.0.2, not_end), AllOrdinary-AllInner m cs o.1)

accept-ready : (c : ℕ) (t : Tty) → t.termios.icanon ≡ true → (accept c t).ready ≡ t.ready
unfolding accept
accept-ready c t k = elim (Bool-cases t.termios.echo) [ inl e ↦ simp (k, e) | inr e ↦ simp (k, e) ]

-- The newline behind a line: one line more, and a reader is woken.
line-Typed :
    (line : List ℕ) (t : Tty) {capacity : ℕ} {m : Termios}
    → m.icanon ≡ true
    → Typed t capacity m 0 []
    → AllOrdinary m line
    → Unbound m 10
    → length line < capacity
    → Typed (emit 10 (type_keys line t)) capacity m 1 (line ++ 10 ∷ [])
      × ((emit 10 (type_keys line t)).ready ≡ true)
line-Typed line t {capacity = capacity} {m = m} k v o u room =
    let typed = type_keys-Typed line t k v o (omega arith) in
    let before : Tty = type_keys line t in
    let canonical : before.termios.icanon ≡ true = rw typed.same_termios k in
    let unbound : Unbound before.termios 10 = rw typed.same_termios u in
    let woken : Typed (one_line before) capacity m 1 line = record {
      held = typed.held;
      same_capacity = typed.same_capacity;
      same_termios = typed.same_termios;
      same_lines = ap (λ n. add_size n 1) typed.same_lines;
    } in
    rw (emit_newline before canonical unbound)
      (accept-Typed 10 (one_line before) woken room, accept-ready 10 (one_line before) canonical)

-- A reader that finds the device ready does not wait, whatever would have happened meanwhile.
pub read-ready :
    (wakes : List ((Tty → Tty) × Bool)) (count : ℕ) (t : Tty)
    → t.ready ≡ true
    → read wakes count t ≡ (delivered (read_ready count t).0, (read_ready count t).1)
unfolding read
read-ready [] count t r = simp r
read-ready ((others, signal) ∷ wakes) count t r = simp r

-- On a canonical terminal with nothing typed, a line of ordinary keys and a newline that fit its
-- buffer reach a reader with room for them as that line, without a wait; then no line is left and
-- the next reader waits.
pub read-type_keys :
    (line : List ℕ) (wakes : List ((Tty → Tty) × Bool)) (count : ℕ) (t : Tty) {capacity : ℕ}
    {m : Termios}
    → m.icanon ≡ true
    → Typed t capacity m 0 []
    → AllOrdinary m line
    → Unbound m 10
    → length line < capacity
    → length line < count
    → let after = read wakes count (emit 10 (type_keys line t)) in
      (after.0 ≡ delivered (map some (line ++ 10 ∷ [])))
      × (after.1.lines ≡ 0)
      × (after.1.ready ≡ false)
read-type_keys line wakes count t {m = m} k v o u room enough =
    let sent = line-Typed line t k v o u room in
    let before : Tty = emit 10 (type_keys line t) in
    let canonical : before.termios.icanon ≡ true = rw sent.0.same_termios k in
    let inner : AllInner before.termios line =
      rw sent.0.same_termios (AllOrdinary-AllInner m line o) in
    let got = read_ready-line count line [] before canonical sent.0.held inner enough in
    let none_left : sub_size before.lines 1 ≡ 0 = ap (λ n. sub_size n 1) sent.0.same_lines in
    rw (read-ready wakes count before sent.1)
      (ap delivered got.0, got.2 ∙ none_left, got.3 ∙ rw none_left refl)
