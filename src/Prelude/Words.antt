-- ===== src/Prelude/Words.antt =====
-- `size_t` of the i386 kernel: 32 bits, with the wrap-around written out.
use Prim.Native.Nat.{ℕ, ◌+◌, ◌-◌, ◌%◌, ◌^◌}

abbrev pub size_limit : ℕ
size_limit = 2 ^ 32

abbrev pub add_size : ℕ → ℕ → ℕ
add_size a b = (a + b) % size_limit

abbrev pub sub_size : ℕ → ℕ → ℕ
sub_size a b = (a + size_limit - b) % size_limit
