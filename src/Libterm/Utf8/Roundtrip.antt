-- ===== src/Libterm/Utf8/Roundtrip.antt =====
-- UTF-8 that is written to a terminal (`write_chars` of libraries/libterm/Terminal.cpp) arrives as its
-- codepoints.
use duck_os.Prelude.{
  ℕ, ◌+◌, ◌*◌, ◌/◌, ◌%◌, ◌^◌, ◌≤◌, ◌<◌, ◌≡◌, refl, ap, ◌∙◌, Option, none, some, List, [], ◌∷◌, ◌++◌,
  arith, ltb, Bool-cases, inl, inr,
}
use duck_os.Libterm.Terminal.{Terminal}
use duck_os.Libterm.Terminal.Writing.{write_codepoint, write_codepoints}
use duck_os.Libterm.Utf8.{Decoder, decode, write_char, write_chars, encode, encode_all}

-- A decoder behind `index` of `char_length` bytes.
abbrev within : ℕ → ℕ → ℕ → ℕ → Decoder
within char_length index remaining_bits buffer = record {
  buffer = buffer;
  index = index;
  char_length = char_length;
  remaining_bits = remaining_bits;
}

module _ (c : ℕ) (d : Decoder) (fresh : d.index ≡ 0) where
  decode-one : c < 0x80 → decode c d ≡ (some c, record d { index = 0; buffer = 0; char_length = 1 })
  unfolding decode
  decode-one h = ground arith

  decode-two : 0xc0 ≤ c → c < 0xe0 → decode c d ≡ (none, within 2 1 6 (c % 32 * 2 ^ 6))
  unfolding decode
  decode-two h k = ground arith

  decode-three : 0xe0 ≤ c → c < 0xf0 → decode c d ≡ (none, within 3 1 12 (c % 16 * 2 ^ 12))
  unfolding decode
  decode-three h k = ground arith

  decode-four : 0xf0 ≤ c → c < 0x100 → decode c d ≡ (none, within 4 1 18 (c % 8 * 2 ^ 18))
  unfolding decode
  decode-four h k = ground arith

write_char-none :
    (c : ℕ) (d e : Decoder) (t : Terminal) → decode c d ≡ (none, e) → write_char c (d, t) ≡ (e, t)
unfolding write_char
write_char-none c d e t h = rw (write_char, h) (ap (λ (p : Option ℕ × Decoder). (p.1, t)) h)

write_char-some :
    (c n : ℕ) (d e : Decoder) (t : Terminal)
    → decode c d ≡ (some n, e)
    → write_char c (d, t) ≡ (e, write_codepoint n t)
unfolding write_char
write_char-some c n d e t h =
    rw (write_char, h) (ap (λ (p : Option ℕ × Decoder). (p.1, write_codepoint n t)) h)

-- What a codepoint leaves: a decoder at the start of a character, and a terminal.
abbrev Arrives : ℕ → Terminal → Decoder × Terminal → Type 0
Arrives n t s = (s.0.index ≡ 0) × (s.1 ≡ write_codepoint n t)

module _ (n : ℕ) (d : Decoder) (t : Terminal) (fresh : d.index ≡ 0) where
  one_byte : n < 0x80 → Arrives n t (write_chars (n ∷ []) (d, t))
  unfolding write_chars
  one_byte h = rw (write_char-some n n d _ t (decode-one n d fresh h)) (refl, refl)

  two_bytes :
      0x80 ≤ n
      → n < 0x800
      → Arrives n t (write_chars ((0xc0 + n / 2 ^ 6) ∷ (0x80 + n % 2 ^ 6) ∷ []) (d, t))
  unfolding write_chars decode
  two_bytes h k =
      let value : (0xc0 + n / 2 ^ 6) % 32 * 2 ^ 6 + (0x80 + n % 2 ^ 6) % 64 * 2 ^ 0 ≡ n =
        omega arith in
      let first = decode-two (0xc0 + n / 2 ^ 6) d fresh (omega arith) (omega arith) in
      rw (write_char-none _ d _ t first) (refl, ap (λ k. write_codepoint k t) value)

  three_bytes :
      0x800 ≤ n
      → n < 0x1_0000
      → Arrives n t (
          write_chars
            ((0xe0 + n / 2 ^ 12) ∷ (0x80 + n / 2 ^ 6 % 2 ^ 6) ∷ (0x80 + n % 2 ^ 6) ∷ [])
            (d, t))
  unfolding write_chars decode
  three_bytes h k =
      let value : (0xe0 + n / 2 ^ 12) % 16 * 2 ^ 12
            + (0x80 + n / 2 ^ 6 % 2 ^ 6) % 64 * 2 ^ 6
            + (0x80 + n % 2 ^ 6) % 64 * 2 ^ 0
          ≡ n =
        omega arith in
      let first = decode-three (0xe0 + n / 2 ^ 12) d fresh (omega arith) (omega arith) in
      rw (write_char-none _ d _ t first) (refl, ap (λ k. write_codepoint k t) value)

  four_bytes :
      0x1_0000 ≤ n
      → n < 0x11_0000
      → Arrives n t (
          write_chars
            ((0xf0 + n / 2 ^ 18)
              ∷ (0x80 + n / 2 ^ 12 % 2 ^ 6)
              ∷ (0x80 + n / 2 ^ 6 % 2 ^ 6)
              ∷ (0x80 + n % 2 ^ 6)
              ∷ [])
            (d, t))
  unfolding write_chars decode
  four_bytes h k =
      let value : (0xf0 + n / 2 ^ 18) % 8 * 2 ^ 18
            + (0x80 + n / 2 ^ 12 % 2 ^ 6) % 64 * 2 ^ 12
            + (0x80 + n / 2 ^ 6 % 2 ^ 6) % 64 * 2 ^ 6
            + (0x80 + n % 2 ^ 6) % 64 * 2 ^ 0
          ≡ n =
        omega arith in
      let first = decode-four (0xf0 + n / 2 ^ 18) d fresh (omega arith) (omega arith) in
      rw (write_char-none _ d _ t first) (refl, ap (λ k. write_codepoint k t) value)

  encode-Arrives : n < 0x11_0000 → Arrives n t (write_chars (encode n) (d, t))
  unfolding encode
  encode-Arrives h = elim (Bool-cases (ltb n 0x80)) [
    | inl one ↦ rw one (one_byte (ground arith))
    | inr more ↦ elim (Bool-cases (ltb n 0x800)) [
      | inl two ↦ rw (more, two) (two_bytes (ground arith) (ground arith))
      | inr many ↦ elim (Bool-cases (ltb n 0x1_0000)) [
        | inl three ↦ rw (more, many, three) (three_bytes (ground arith) (ground arith))
        | inr four ↦ rw (more, many, four) (four_bytes (ground arith) h)
      ]
    ]
  ]

write_chars-append :
    (cs cs' : List ℕ) (s : Decoder × Terminal)
    → write_chars (cs ++ cs') s ≡ write_chars cs' (write_chars cs s)
unfolding write_chars
write_chars-append [] cs' s = refl
write_chars-append (c ∷ cs) cs' s = write_chars-append cs cs' (write_char c s)

-- Codepoints of Unicode.
abbrev pub Valid : List ℕ → Type 0
Valid [] = Unit {0}
Valid (n ∷ ns) = (n < 0x11_0000) × Valid ns

-- Writing the UTF-8 bytes of any codepoints below 0x110000, with the decoder at the start of a
-- character, does to the terminal what writing these codepoints one by one does, and leaves the
-- decoder at the start of a character.
pub write_chars-encode_all :
    (ns : List ℕ) (d : Decoder) (t : Terminal)
    → Valid ns
    → d.index ≡ 0
    → ((write_chars (encode_all ns) (d, t)).1 ≡ write_codepoints ns t)
      × ((write_chars (encode_all ns) (d, t)).0.index ≡ 0)
unfolding encode_all write_codepoints write_chars
write_chars-encode_all [] d t v z = (refl, z)
write_chars-encode_all (n ∷ ns) d t v z =
    let s : Decoder × Terminal = write_chars (encode n) (d, t) in
    let first = encode-Arrives n d t z v.0 in
    let rest = write_chars-encode_all ns s.0 s.1 v.1 first.0 in
    let split = write_chars-append (encode n) (encode_all ns) (d, t) in
    (
      ap (λ (p : Decoder × Terminal). p.1) split ∙ rest.0 ∙ ap (write_codepoints ns) first.1,
      ap (λ (p : Decoder × Terminal). p.0.index) split ∙ rest.1,
    )
