-- ===== src/Common/Words.antt =====
-- Machine words as native numbers: the moduli of the C types, and the bits of a `u32`
-- (include/linux/walb/u32bits.h).
use Prim.Native.Nat.{ℕ, ◌+◌, ◌-◌, ◌*◌, ◌/◌, ◌%◌, ◌^◌}
use mathlib.Core.Bool.{Bool}
use walb_driver.Common.Tests.{◌==◌}

abbrev pub u16_mod : ℕ
u16_mod = 2 ^ 16

abbrev pub u32_mod : ℕ
u32_mod = 2 ^ 32

abbrev pub u64_mod : ℕ
u64_mod = 2 ^ 64

abbrev pub add_u32 : ℕ → ℕ → ℕ
add_u32 a b = (a + b) % u32_mod

abbrev pub add_u64 : ℕ → ℕ → ℕ
add_u64 a b = (a + b) % u64_mod

-- `-` on ℕ stops at 0, so the modulus is added first.
abbrev pub sub_u32 : ℕ → ℕ → ℕ
sub_u32 a b = (a + u32_mod - b) % u32_mod

abbrev pub sub_u64 : ℕ → ℕ → ℕ
sub_u64 a b = (a + u64_mod - b) % u64_mod

-- The digit of `x` at bit `nr`.
abbrev pub bit : ℕ → ℕ → ℕ
bit nr x = x / 2 ^ nr % 2

-- `(*addr & (u32)1 << nr) != 0`
abbrev pub test_bit_u32 : ℕ → ℕ → Bool
test_bit_u32 nr x = bit nr x == 1

-- `*addr |= (u32)1 << nr`, as a sum: the bit is added where it is not set.
abbrev pub set_bit_u32 : ℕ → ℕ → ℕ
set_bit_u32 nr x = x + (1 - bit nr x) * 2 ^ nr

-- `*addr &= ~((u32)1 << nr)`, as a difference: the bit is taken away where it is set.
abbrev pub clear_bit_u32 : ℕ → ℕ → ℕ
clear_bit_u32 nr x = x - bit nr x * 2 ^ nr
