-- ===== src/Libterm/Utf8/Examples.antt =====
-- A letter and a euro sign, written byte by byte (libraries/libterm/Terminal.cpp).
use duck_os.Prelude.{ℕ, ◌≡◌, refl, List, [], ◌∷◌, arith}
use duck_os.Libterm.Terminal.{Terminal, new_terminal}
use duck_os.Libterm.Terminal.Writing.{write_codepoints}
use duck_os.Libterm.Utf8.{Decoder, write_chars, encode_all}
use duck_os.Libterm.Utf8.Roundtrip.{write_chars-encode_all}

abbrev fresh : Decoder
fresh = record { buffer = 0; index = 0; char_length = 1; remaining_bits = 0 }

abbrev blank : Terminal
blank = new_terminal (record { cols = 4; lines = 2 })

abbrev price : List ℕ
price = 0x35 ∷ 0x20ac ∷ []

price_bytes : encode_all price ≡ 0x35 ∷ 0xe2 ∷ 0x82 ∷ 0xac ∷ []
unfolding encode_all
price_bytes = refl

write_chars-encode_all_example :
    ((write_chars (encode_all price) (fresh, blank)).1 ≡ write_codepoints price blank)
    × ((write_chars (encode_all price) (fresh, blank)).0.index ≡ 0)
write_chars-encode_all_example = write_chars-encode_all price fresh blank (omega arith) refl
