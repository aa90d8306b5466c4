-- ===== src/Block/Convert.antt =====
-- The conversions of block_size.h: bounds, and what survives a trip there and back.
use native.Mathlib.Nat.{mod-lt, div-add-mod', div-mul-le_self, lt-div-mul-add}
use walb_driver.Common.{
  ℕ, ◌+◌, ◌-◌, ◌*◌, ◌/◌, ◌%◌, ◌≤◌, ◌<◌, ◌≡◌, true, ap, arith, u64_mod, add_u64, sub_u64,
}
use walb_driver.Block.{
  is_valid_pbs, n_lb_in_pb, capacity_pb, addr_pb, off_in_pb, addr_lb, capacity_lb,
}

pub n_lb_in_pb_pos : (pbs : ℕ) → is_valid_pbs pbs ≡ true → 0 < n_lb_in_pb pbs
unfolding is_valid_pbs n_lb_in_pb
n_lb_in_pb_pos pbs v = ground arith

-- Dividing after rounding up: the quotient is the least that suffices.
pub ceil_bounds : (a n : ℕ) → 0 < n → (a ≤ (a + n - 1) / n * n) × ((a + n - 1) / n * n < a + n)
ceil_bounds a n h =
    omega (arith, div-mul-le_self (a + n - 1) n, lt-div-mul-add {a = a + n - 1} {b = n} h)

pub mul_cancel : (p q n : ℕ) → 0 < n → q * n < p * n + n → p * n ≤ q * n → q ≡ p
mul_cancel p q n h lo hi = grind arith

no_wrap : (a n : ℕ) → 0 < n → a + n < u64_mod → sub_u64 (add_u64 a n) 1 ≡ a + n - 1
no_wrap a n h k = omega arith

-- Without a wrap `capacity_pb` rounds the quotient up.
pub capacity_pb_lem :
    (pbs lb : ℕ)
    → 0 < n_lb_in_pb pbs
    → lb + n_lb_in_pb pbs < u64_mod
    → capacity_pb pbs lb ≡ (lb + n_lb_in_pb pbs - 1) / n_lb_in_pb pbs
unfolding capacity_pb
capacity_pb_lem pbs lb v h = ap (λ a. a / n_lb_in_pb pbs) (no_wrap lb (n_lb_in_pb pbs) v h)

-- With a valid physical block size, and no wrap of the sum, `capacity_pb` is the least number of
-- physical blocks that hold the given logical blocks: it suffices, and one less does not.
pub capacity_pb_least :
    (pbs lb : ℕ)
    → is_valid_pbs pbs ≡ true
    → lb + n_lb_in_pb pbs < u64_mod
    → (lb ≤ capacity_pb pbs lb * n_lb_in_pb pbs)
      × (capacity_pb pbs lb * n_lb_in_pb pbs < lb + n_lb_in_pb pbs)
capacity_pb_least pbs lb v h =
    let n_pos = n_lb_in_pb_pos pbs v in
    rw (capacity_pb_lem pbs lb n_pos h) (ceil_bounds lb (n_lb_in_pb pbs) n_pos)

rebuild : (a n : ℕ) → a < u64_mod → a / n * n % u64_mod + a % n ≡ a
rebuild a n h = omega (arith, div-mul-le_self a n, div-add-mod' a n)

-- An address is rebuilt from its physical block and the offset in that block, and the offset lies
-- inside the block, if the block size is valid and the address is a `u64`.
pub addr_lb-addr_pb :
    (pbs a : ℕ)
    → is_valid_pbs pbs ≡ true
    → a < u64_mod
    → (addr_lb pbs (addr_pb pbs a) + off_in_pb pbs a ≡ a) × (off_in_pb pbs a < n_lb_in_pb pbs)
unfolding addr_lb addr_pb off_in_pb
addr_lb-addr_pb pbs a v h = (rebuild a (n_lb_in_pb pbs) h, mod-lt a (n_lb_in_pb_pos pbs v))

-- A whole number of physical blocks survives the trip to logical blocks and back, if the number of
-- logical blocks and one physical block more fit in a `u64`.
pub capacity_pb-capacity_lb :
    (pbs p : ℕ)
    → is_valid_pbs pbs ≡ true
    → p * n_lb_in_pb pbs + n_lb_in_pb pbs < u64_mod
    → capacity_pb pbs (capacity_lb pbs p) ≡ p
unfolding capacity_lb
capacity_pb-capacity_lb pbs p v h =
    let n = n_lb_in_pb pbs in
    let n_pos = n_lb_in_pb_pos pbs v in
    let fits : p * n % u64_mod ≡ p * n = omega arith in
    let b = capacity_pb_least pbs (p * n) v h in
    rw fits (mul_cancel p (capacity_pb pbs (p * n)) n n_pos b.1 b.0)
