-- ===== src/Logpack/Records.antt =====
-- The two records that walb_logpack_header_add_bio fills: they are valid, and take in the log what
-- the bio or the padding takes.
use walb_driver.Common.{
  ℕ, ◌+◌, ◌*◌, ◌%◌, ◌≤◌, ◌<◌, ◌≡◌, ◌⊎◌, true, u64_mod, u32_mod, u16_mod, arith, if◌then◌else◌,
}
use walb_driver.Block.{is_valid_pbs, n_lb_in_pb, capacity_pb, capacity_lb}
use walb_driver.Block.Convert.{capacity_pb-capacity_lb}
use walb_driver.Bio.{Bio, bio_is_discard}
use walb_driver.Logpack.{
  LogpackHeader, log_record_init, max_total_io_size, is_record_of, is_valid_log_record,
}
use walb_driver.Logpack.Add.{next_record_lsid, next_slot, padding_record, bio_record}
use walb_driver.Logpack.Shape.{physical_size, Unused-slot, IsOpen}

word_of : (n : ℕ) → n < u16_mod → n % u64_mod % u16_mod ≡ n % u64_mod
word_of n h = omega arith

module _ {pbs ring : ℕ} {h : LogpackHeader} (o : IsOpen pbs ring h) where
  pub slot_init : next_slot h ≡ log_record_init
  slot_init = Unused-slot h.n_records h.records o.unused

  pub next_record_lsid_lem : next_record_lsid h ≡ h.logpack_lsid + 1 + h.total_io_size
  next_record_lsid_lem = omega arith

  pub lsid-padding_record :
      (padding_pb : ℕ)
      → (padding_record h pbs padding_pb).lsid ≡ h.logpack_lsid + 1 + h.total_io_size
  unfolding padding_record
  lsid-padding_record padding_pb = next_record_lsid_lem

  pub lsid-bio_record : (bio : Bio) → (bio_record h bio).lsid ≡ h.logpack_lsid + 1 + h.total_io_size
  unfolding bio_record
  lsid-bio_record bio = next_record_lsid_lem

  pub padding_record-valid :
      (padding_pb : ℕ)
      → h.total_io_size < max_total_io_size
      → is_record_of h.logpack_lsid (padding_record h pbs padding_pb) ≡ true
  unfolding padding_record is_valid_log_record
  padding_record-valid padding_pb s = rw (slot_init, next_record_lsid_lem) (ground arith)

  pub bio_record-valid :
      (bio : Bio)
      → h.total_io_size < max_total_io_size
      → 0 < bio.sectors
      → bio.sectors < u32_mod
      → ((bio_is_discard bio ≡ true) ⊎ (bio.sectors ≤ 65535))
      → is_record_of h.logpack_lsid (bio_record h bio) ≡ true
  unfolding bio_record is_valid_log_record
  bio_record-valid bio s p q d = rw (slot_init, next_record_lsid_lem) (ground arith)

  pub physical_size-padding_record :
      (padding_pb : ℕ)
      → is_valid_pbs pbs ≡ true
      → padding_pb * n_lb_in_pb pbs < u16_mod
      → n_lb_in_pb pbs < u16_mod
      → physical_size pbs (padding_record h pbs padding_pb) ≡ padding_pb
  unfolding padding_record capacity_lb
  physical_size-padding_record padding_pb v fits small =
      let word : capacity_lb pbs padding_pb % u16_mod ≡ capacity_lb pbs padding_pb =
        word_of (padding_pb * n_lb_in_pb pbs) fits in
      rw (slot_init, word) (capacity_pb-capacity_lb pbs padding_pb v (omega arith))

  pub physical_size-bio_record :
      (bio : Bio)
      → bio.sectors < u32_mod
      → physical_size pbs (bio_record h bio)
        ≡ (if bio_is_discard bio then 0 else capacity_pb pbs bio.sectors)
  unfolding bio_record
  physical_size-bio_record bio q =
      let word : bio.sectors % u32_mod ≡ bio.sectors = omega arith in
      rw (slot_init, word) (ground arith)
