-- ===== src/Libterm/Utf8.antt =====
-- The decoder of UTF-8 in `Terminal::write_char` (libraries/libterm/Terminal.cpp). Its state is static,
-- so all terminals share it.
pub mod Roundtrip
mod Examples
use duck_os.Prelude.{
  ℕ, ◌+◌, ◌-◌, ◌*◌, ◌/◌, ◌%◌, ◌^◌, Option, none, some, List, [], ◌∷◌, ◌++◌, ltb, ◌==◌,
  if◌then◌else◌,
}
use duck_os.Libterm.Terminal.{Terminal}
use duck_os.Libterm.Terminal.Escapes.{char_word}
use duck_os.Libterm.Terminal.Writing.{write_codepoint}

pub record Decoder : Type 0 where
  pub buffer : ℕ
  pub index : ℕ
  pub char_length : ℕ
  pub remaining_bits : ℕ

-- What a first byte sets: `n` bytes, and its low bits, shifted.
abbrev first_of : ℕ → ℕ → ℕ → Decoder → Decoder
first_of n bits remaining d = record d {
  char_length = n;
  buffer = bits * 2 ^ remaining;
  remaining_bits = remaining;
}

-- The tests of the first byte: `c & 0xF0 == 0xF0` is `c / 16 == 15` for a byte, and so on.
unfoldable pub begin_char : ℕ → Decoder → Decoder
begin_char c d =
    if (c / 16) == 15
    then first_of 4 (c % 8) 18 d
    else if (c / 32) == 7
    then first_of 3 (c % 16) 12 d
    else if (c / 64) == 3
    then first_of 2 (c % 32) 6 d
    else record d { char_length = 1 }

-- A byte goes into the buffer. The bits of `|=` are clear in it, so it is a sum.
unfoldable pub take_bits : ℕ → Decoder → Decoder
take_bits c d =
    if d.char_length == 1
    then record d { buffer = char_word c }
    else if d.index == 0
    then d
    else record d {
      remaining_bits = (d.remaining_bits + 256 - 6) % 256;
      buffer = d.buffer + c % 64 * 2 ^ ((d.remaining_bits + 256 - 6) % 256);
    }

-- The last byte of a character gives its codepoint.
unfoldable pub end_byte : Decoder → Option ℕ × Decoder
end_byte d =
    if (d.index + 1) == d.char_length
    then (some d.buffer, record d { index = 0; buffer = 0 })
    else (none, record d { index = d.index + 1 })

unfoldable pub decode : ℕ → Decoder → Option ℕ × Decoder
unfolding begin_char take_bits end_byte
decode c d = end_byte (take_bits c (if d.index == 0 then begin_char c d else d))

unfoldable pub write_char : ℕ → Decoder × Terminal → Decoder × Terminal
unfolding decode write_codepoint
write_char c (d, t) = elim (decode c d).0 [
  | none ↦ ((decode c d).1, t)
  | some codepoint ↦ ((decode c d).1, write_codepoint codepoint t)
]

unfoldable pub write_chars : List ℕ → Decoder × Terminal → Decoder × Terminal
unfolding write_char
write_chars [] s = s
write_chars (c ∷ cs) s = write_chars cs (write_char c s)

-- UTF-8, as RFC 3629 has it.
unfoldable pub encode : ℕ → List ℕ
encode n =
    if ltb n 0x80
    then n ∷ []
    else if ltb n 0x800
    then (0xc0 + n / 2 ^ 6) ∷ (0x80 + n % 2 ^ 6) ∷ []
    else if ltb n 0x1_0000
    then (0xe0 + n / 2 ^ 12) ∷ (0x80 + n / 2 ^ 6 % 2 ^ 6) ∷ (0x80 + n % 2 ^ 6) ∷ []
    else (0xf0 + n / 2 ^ 18)
      ∷ (0x80 + n / 2 ^ 12 % 2 ^ 6)
      ∷ (0x80 + n / 2 ^ 6 % 2 ^ 6)
      ∷ (0x80 + n % 2 ^ 6)
      ∷ []

unfoldable pub encode_all : List ℕ → List ℕ
unfolding encode
encode_all [] = []
encode_all (n ∷ ns) = encode n ++ encode_all ns
