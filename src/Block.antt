-- ===== src/Block.antt =====
-- include/linux/walb/block_size.h: logical blocks of 512 bytes, physical blocks, and the
-- conversions between them. Sizes in bytes are `unsigned int`, addresses and capacities `u64`.
pub mod Convert
use walb_driver.Common.{
  ℕ, ◌+◌, ◌*◌, ◌/◌, ◌%◌, Bool, ◌&&◌, ltb, leb, ◌==◌, u64_mod, add_u64, sub_u64,
}

-- LOGICAL_BLOCK_SIZE
abbrev pub logical_block_size : ℕ
logical_block_size = 512

unfoldable pub is_valid_lbs_pbs : ℕ → ℕ → Bool
is_valid_lbs_pbs lbs pbs = ltb 0 lbs && (leb lbs pbs && pbs % lbs == 0)

unfoldable pub is_valid_pbs : ℕ → Bool
unfolding is_valid_lbs_pbs
is_valid_pbs pbs = is_valid_lbs_pbs logical_block_size pbs

-- Logical blocks in a physical block.
unfoldable pub n_lb_in_pb : ℕ → ℕ
n_lb_in_pb pbs = pbs / logical_block_size

-- Physical blocks that hold `capacity_lb` logical ones: the division rounds up.
unfoldable pub capacity_pb : ℕ → ℕ → ℕ
unfolding n_lb_in_pb
capacity_pb pbs lb = sub_u64 (add_u64 lb (n_lb_in_pb pbs)) 1 / n_lb_in_pb pbs

unfoldable pub addr_pb : ℕ → ℕ → ℕ
unfolding n_lb_in_pb
addr_pb pbs lb = lb / n_lb_in_pb pbs

unfoldable pub off_in_pb : ℕ → ℕ → ℕ
unfolding n_lb_in_pb
off_in_pb pbs lb = lb % n_lb_in_pb pbs

unfoldable pub addr_lb : ℕ → ℕ → ℕ
unfolding n_lb_in_pb
addr_lb pbs pb = pb * n_lb_in_pb pbs % u64_mod

unfoldable pub capacity_lb : ℕ → ℕ → ℕ
unfolding addr_lb
capacity_lb pbs pb = addr_lb pbs pb
