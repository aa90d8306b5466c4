-- ===== src/Logpack/Steps.antt =====
-- One record more in a header, for a padding record and for the record of a bio (module/logpack.c).
use native.Mathlib.Nat.{mod-lt}
use walb_driver.Common.{
  ℕ, zero, suc, ◌+◌, ◌-◌, ◌*◌, ◌%◌, ◌≤◌, ◌<◌, ◌≡◌, refl, ◌∙◌, ap, ◌⊎◌, inr, true, u16_mod, arith,
  if◌then◌else◌, u32_mod,
}
use walb_driver.Block.{is_valid_pbs, n_lb_in_pb, capacity_pb}
use walb_driver.Block.Convert.{capacity_pb_least, n_lb_in_pb_pos}
use walb_driver.Bio.{Bio, bio_is_discard}
use walb_driver.Logpack.{LogpackHeader, max_total_io_size, max_n_log_record_in_sector}
use walb_driver.Logpack.Add.{
  padding_record, add_padding, bio_record, add_record, add_bio_fit, bio_pb_size,
}
use walb_driver.Logpack.Records.{
  padding_record-valid, bio_record-valid, physical_size-padding_record, physical_size-bio_record,
  lsid-padding_record, lsid-bio_record,
}
use walb_driver.Logpack.Fill.{
  filled-IsOpen, IsLegal, n_lb_small, product_facts, lap, crossing, add_padding-filled,
  add_record-filled,
}
use walb_driver.Logpack.Shape.{physical_size, IsOpen}

module _ {pbs ring : ℕ} {h : LogpackHeader} (o : IsOpen pbs ring h) where
  pub add_padding-IsOpen :
      {bio : Bio} (p : ℕ)
      → IsLegal pbs ring h bio
      → h.n_records < max_n_log_record_in_sector pbs
      → p ≡ ring - (h.logpack_lsid + 1 + h.total_io_size) % ring
      → h.total_io_size + p ≤ max_total_io_size
      → p * n_lb_in_pb pbs < u16_mod
      → IsOpen pbs ring (add_padding h pbs p)
        × ((h.logpack_lsid + 1 + (h.total_io_size + p)) % ring ≡ 0)
  add_padding-IsOpen p g free e fits words = (
    rw (add_padding-filled o p g.block_small fits) (
        filled-IsOpen o (padding_record h pbs p) (h.total_io_size + p) (suc h.n_padding) free
          (padding_record-valid o p below) at_end (rw size (omega (arith, rem))) (rw size) fits
          (omega (arith, o.paddings)) (inr (ap suc cross.0, cross.1))),
    rw e (
        ap (λ x. x % ring) (omega arith)
        ∙ lap (h.logpack_lsid + 1 + h.total_io_size) ring ring_pos),
  )
    where
      ring_pos : 0 < ring
      ring_pos = omega (arith, g.ring_large)

      rem : (h.logpack_lsid + 1 + h.total_io_size) % ring < ring
      rem = mod-lt (h.logpack_lsid + 1 + h.total_io_size) ring_pos

      below : h.total_io_size < max_total_io_size
      below = omega arith

      at_end : (padding_record h pbs p).lsid ≡ h.logpack_lsid + 1 + h.total_io_size
      at_end = lsid-padding_record o p

      size : physical_size pbs (padding_record h pbs p) ≡ p
      size =
          physical_size-padding_record o p g.block words
            (omega (arith, n_lb_small pbs g.block_small))

      cross : (h.n_padding ≡ 0) × (ring ≤ (h.logpack_lsid + 1) % ring + (h.total_io_size + p))
      cross = rw e (
          crossing h.logpack_lsid h.total_io_size ring h.n_padding g.ring_large (rw e at fits)
            o.crossed)

  -- A bio of `cap` physical blocks, where it does not cross the end of the ring buffer.
  add_record-IsOpen :
      (bio : Bio) (cap : ℕ)
      → IsLegal pbs ring h bio
      → h.n_records < max_n_log_record_in_sector pbs
      → 0 < bio.sectors
      → ((bio_is_discard bio ≡ true)
          ⊎ ((0 < cap)
              × (cap ≡ capacity_pb pbs bio.sectors)
              × (h.total_io_size + cap ≤ max_total_io_size)
              × ((h.logpack_lsid + 1 + h.total_io_size) % ring + cap ≤ ring)))
      → IsOpen pbs ring (add_record h bio cap)
  add_record-IsOpen bio cap g free some_sectors d =
      rw (add_record-filled o bio cap g.block_small (ground arith)) (
        filled-IsOpen o (bio_record h bio)
          (h.total_io_size + (if bio_is_discard bio then 0 else cap)) h.n_padding free
          (bio_record-valid o bio below some_sectors g.sectors_small g.normal_small)
          (lsid-bio_record o bio) (rw size (ground (arith, rem))) (rw size (ground arith))
          (ground arith) (omega (arith, o.paddings)) (ground (arith, o.crossed)))
    where
      rem : (h.logpack_lsid + 1 + h.total_io_size) % ring < ring
      rem = mod-lt (h.logpack_lsid + 1 + h.total_io_size) (omega (arith, g.ring_large))

      below : h.total_io_size < max_total_io_size
      below = ground (arith, g.discards)

      size :
          physical_size pbs (bio_record h bio)
          ≡ (if bio_is_discard bio then 0 else capacity_pb pbs bio.sectors)
      size = physical_size-bio_record o bio g.sectors_small

  pub add_bio_fit-IsOpen :
      (bio : Bio) (cap : ℕ)
      → IsLegal pbs ring h bio
      → h.n_records < max_n_log_record_in_sector pbs
      → 0 < bio.sectors
      → ((bio_is_discard bio ≡ true)
          ⊎ ((0 < cap)
              × (cap < 65663)
              × (cap ≡ capacity_pb pbs bio.sectors)
              × ((h.total_io_size + cap ≤ max_total_io_size
                  → (h.logpack_lsid + 1 + h.total_io_size) % ring + cap ≤ ring))))
      → IsOpen pbs ring (add_bio_fit h bio cap).0
  unfolding add_bio_fit
  add_bio_fit-IsOpen bio cap g free some_sectors d =
      ground (arith, add_record-IsOpen bio cap g free some_sectors)

pos_of_product : (cap n s : ℕ) → 0 < s → s ≤ cap * n → 0 < cap
pos_of_product zero n s h k = absurd (omega arith)
pos_of_product (suc cap) n s h k = omega arith

-- The size of a bio that is no discard, in physical blocks.
pub bio_pb_size_lem :
    (pbs : ℕ) (bio : Bio)
    → is_valid_pbs pbs ≡ true
    → pbs < u16_mod
    → bio.sectors ≤ 65535
    → 0 < bio.sectors
    → (0 < bio_pb_size pbs bio)
      × (bio_pb_size pbs bio < 65663)
      × (bio_pb_size pbs bio ≡ capacity_pb pbs bio.sectors)
      × ((p : ℕ) → p < bio_pb_size pbs bio → p * n_lb_in_pb pbs < 65536)
bio_pb_size_lem pbs bio v small s some_sectors =
    let n = n_lb_in_pb pbs in
    let cap = capacity_pb pbs bio.sectors in
    let n_small = n_lb_small pbs small in
    let b = capacity_pb_least pbs bio.sectors v (omega arith) in
    let f = product_facts n cap bio.sectors (n_lb_in_pb_pos pbs v) n_small s b.1 in
    let word : cap % u32_mod ≡ cap = omega arith in
    rw word (pos_of_product cap n bio.sectors some_sectors b.0, f.0, refl, f.1)
