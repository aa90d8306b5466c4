-- ===== src/Checksum.antt =====
-- include/linux/walb/checksum.h: the sum of the data as an array of `u32`, and its negation. Data is
-- a list of bytes. A word is read in the byte order of a little-endian machine.
pub mod Total
pub mod Detect
use walb_driver.Common.{ℕ, zero, suc, ◌+◌, ◌-◌, ◌*◌, ◌/◌, ◌%◌, List, [], ◌∷◌, u32_mod, add_u32}

-- memcpy(&buf, p, sizeof(u32))
abbrev pub le32 : ℕ → ℕ → ℕ → ℕ → ℕ
le32 b0 b1 b2 b3 = b0 + 256 * b1 + 65536 * b2 + 16777216 * b3

-- The loop of `checksum_partial`, with the `n - i` rounds left. A read past the data ends it.
abbrev pub sum_words : ℕ → ℕ → List ℕ → ℕ
sum_words zero sum p = sum
sum_words (suc n) sum (b0 ∷ b1 ∷ b2 ∷ b3 ∷ p) = sum_words n (add_u32 sum (le32 b0 b1 b2 b3)) p
sum_words (suc n) sum p = sum

unfoldable pub checksum_partial : ℕ → List ℕ → ℕ → ℕ
checksum_partial sum bytes size = sum_words (size / 4) sum bytes

-- `~sum + 1`
unfoldable pub checksum_finish : ℕ → ℕ
checksum_finish sum = add_u32 (u32_mod - 1 - sum) 1

unfoldable pub checksum : List ℕ → ℕ → ℕ → ℕ
unfolding checksum_partial checksum_finish
checksum bytes size salt = checksum_finish (checksum_partial salt bytes size)
