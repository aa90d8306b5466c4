-- ===== src/LogDevice/Ring.antt =====
-- The log of an lsid has its own block in the ring buffer, away from the super sectors
-- (include/linux/walb/log_device.h).
use native.Mathlib.Nat.{mod-lt, mod-le, mod-add-mod, mod-eq-sub-mod, mod-eq_of_lt}
use walb_driver.Common.{
  ℕ, ◌+◌, ◌-◌, ◌/◌, ◌%◌, ◌≤◌, ◌<◌, ◌≡◌, ◌≢◌, ◌∙◌, ap, inl, inr, true, Bool-cases, ltb, arith,
  u64_mod,
}
use walb_driver.LogDevice.{
  SuperSector, get_offset_of_lsid, get_super_sector0_offset, get_super_sector0_offset_2,
  get_super_sector1_offset_2, get_ring_buffer_offset_2, get_offset_of_lsid_2,
}

-- The remainders of two numbers less than the divisor apart.
mod-differ : (x d r : ℕ) → x < r → 0 < d → d < r → (x + d) % r ≡ x → ⊥
mod-differ x d r h l m e = elim (Bool-cases (ltb (x + d) r)) [
  | inl f ↦ ground (arith, mod-eq_of_lt (below f), e)
  | inr f ↦
      let g : r ≤ x + d = ground (arith, f) in
      omega (arith, g, mod-eq-sub-mod {n = x + d} {m = r} g, mod-le (x + d - r) r, e)
]
  where
    below : ltb (x + d) r ≡ true → x + d < r
    below f = ground (arith, f)

module _ (page_size : ℕ) (s : SuperSector) (ring : 0 < s.ring_buffer_size)
    (fits : page_size / s.physical_bs + s.metadata_size + 2 + s.ring_buffer_size < u64_mod) where
  offset_lem :
      (lsid : ℕ)
      → get_offset_of_lsid_2 page_size s lsid
        ≡ page_size / s.physical_bs + s.metadata_size + 2 + lsid % s.ring_buffer_size
  unfolding get_offset_of_lsid_2 get_offset_of_lsid get_ring_buffer_offset_2
      get_super_sector1_offset_2 get_super_sector0_offset
  offset_lem lsid = omega (arith, mod-lt lsid ring, fits)

  -- The log of an lsid lies in the ring buffer, which starts behind super sector 1; and between super
  -- sector 0 and super sector 1 are exactly the blocks of the metadata. The ring buffer is not empty, and
  -- the log device has less than 2 ^ 64 blocks.
  pub get_offset_of_lsid_2-in_ring :
      (lsid : ℕ)
      → (get_super_sector0_offset_2 page_size s + 1 + s.metadata_size
          ≡ get_super_sector1_offset_2 page_size s)
        × (get_super_sector0_offset_2 page_size s < get_super_sector1_offset_2 page_size s)
        × (get_super_sector1_offset_2 page_size s < get_offset_of_lsid_2 page_size s lsid)
        × (get_ring_buffer_offset_2 page_size s ≤ get_offset_of_lsid_2 page_size s lsid)
        × (get_offset_of_lsid_2 page_size s lsid
            < get_ring_buffer_offset_2 page_size s + s.ring_buffer_size)
  unfolding get_ring_buffer_offset_2 get_super_sector1_offset_2 get_super_sector0_offset
      get_super_sector0_offset_2
  get_offset_of_lsid_2-in_ring lsid = (
    omega (arith, fits),
    omega (arith, fits),
    omega (arith, offset_lem lsid, fits),
    omega (arith, offset_lem lsid, fits),
    omega (arith, offset_lem lsid, mod-lt lsid ring, fits),
  )

  -- Two lsids less than a ring buffer apart have different blocks.
  pub get_offset_of_lsid_2-differ :
      (a b : ℕ)
      → a < b
      → b < a + s.ring_buffer_size
      → get_offset_of_lsid_2 page_size s a ≢ get_offset_of_lsid_2 page_size s b
  get_offset_of_lsid_2-differ a b l m e =
      mod-differ (a % s.ring_buffer_size) (b - a) s.ring_buffer_size (mod-lt a ring) (omega arith)
        (omega arith)
        (mod-add-mod a s.ring_buffer_size (b - a)
          ∙ ap (λ x. x % s.ring_buffer_size) back
          ∙ omega (arith, e, offset_lem a, offset_lem b))
    where
      back : a + (b - a) ≡ b
      back = omega (arith, l)

  -- The log of several lsids in a row is in one piece if it does not cross the end of the ring buffer,
  -- which is what the padding records see to.
  pub get_offset_of_lsid_2-run :
      (lsid n i : ℕ)
      → lsid % s.ring_buffer_size + n ≤ s.ring_buffer_size
      → i < n
      → get_offset_of_lsid_2 page_size s (lsid + i) ≡ get_offset_of_lsid_2 page_size s lsid + i
  get_offset_of_lsid_2-run lsid n i h l = omega (
    arith,
    offset_lem lsid,
    offset_lem (lsid + i),
    mod-add-mod lsid s.ring_buffer_size i,
    mod-eq_of_lt (inside h l),
  )
    where
      inside :
          lsid % s.ring_buffer_size + n ≤ s.ring_buffer_size
          → i < n
          → lsid % s.ring_buffer_size + i < s.ring_buffer_size
      inside h l = omega arith
