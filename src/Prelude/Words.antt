-- ===== src/Prelude/Words.antt =====
-- Machine integers as native numbers: `size_t` is 64 bits, `unsigned` and `int` 32, and an `int` is
-- its bit pattern (so -1 is 2 ^ 32 - 1).
use Prim.Native.Nat.{ℕ, ◌+◌, ◌-◌, ◌%◌, ◌^◌}
use mathlib.Core.Bool.{Bool}
use yuwibo_server.Prelude.Tests.{leb}

abbrev pub size_mod : ℕ
size_mod = 2 ^ 64

abbrev pub u32_mod : ℕ
u32_mod = 2 ^ 32

abbrev pub u16_mod : ℕ
u16_mod = 2 ^ 16

abbrev pub add_size : ℕ → ℕ → ℕ
add_size a b = (a + b) % size_mod

abbrev pub sub_size : ℕ → ℕ → ℕ
sub_size a b = (a + size_mod - b) % size_mod

-- The conversion of a `size_t` to `int`.
abbrev pub to_int : ℕ → ℕ
to_int n = n % u32_mod

abbrev pub minus_one : ℕ
minus_one = 2 ^ 32 - 1

-- Whether an `int` is negative.
abbrev pub is_negative : ℕ → Bool
is_negative w = leb (2 ^ 31) w
