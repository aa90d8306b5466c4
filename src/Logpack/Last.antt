-- ===== src/Logpack/Last.antt =====
-- update_biow_lsid of module/io.c takes the last record of a header for that of the bio just added.
use walb_driver.Common.{
  ℕ, suc, ◌+◌, ◌-◌, ◌%◌, ◌≤◌, ◌<◌, ◌≡◌, refl, true, false, length, get_or, length-set,
  get_or-set_self, u16_mod, u32_mod, arith, Bool, ◌==◌, if◌then◌else◌, Option, some, none,
  test_bit_u32,
}
use walb_driver.Bio.{Bio, bio_is_discard}
use walb_driver.Logpack.{
  LogRecord, LogpackHeader, log_record_init, log_record_padding, max_n_log_record_in_sector,
}
use walb_driver.Logpack.Add.{
  next_slot, bio_flags, padding_record, padding_size, bio_pb_size, bio_record, add_record,
  add_padding, add_bio_fit, add_bio_padded, add_bio_in_ring, header_add_bio,
}

-- The record at `n_records - 1`, read where there is one.
abbrev pub last_record : LogpackHeader → LogRecord
last_record h = get_or h.records (h.n_records - 1) log_record_init

-- update_biow_lsid: the lsid for the bio, or none where it is left alone.
unfoldable pub update_biow_lsid : LogpackHeader → Option ℕ
update_biow_lsid h = if h.n_records == 0 then none else some (last_record h).lsid

-- The last record is the bio's: the two assertions of update_biow_lsid, and no padding.
pub record IsLast (bio : Bio) (h : LogpackHeader) : Type 0 where
  pub some_records : 0 < h.n_records
  pub offset : (last_record h).offset ≡ bio.bi_sector
  pub io_size : (last_record h).io_size ≡ bio.sectors
  pub no_padding : test_bit_u32 log_record_padding (last_record h).flags ≡ false

no_padding_bit :
    (d : Bool) (flags : ℕ) → test_bit_u32 log_record_padding (bio_flags d flags) ≡ false
no_padding_bit true flags = ground arith
no_padding_bit false flags = ground arith

module _ (h : LogpackHeader) (free : h.n_records < length h.records)
    (small : length h.records < u16_mod) where
  next_count : (h.n_records + 1) % u16_mod ≡ suc h.n_records
  next_count = omega arith

  pub last-add_record :
      (bio : Bio) (cap : ℕ) → last_record (add_record h bio cap) ≡ bio_record h bio
  unfolding add_record
  last-add_record bio cap =
      let at_end : (h.n_records + 1) % u16_mod - 1 ≡ h.n_records = omega arith in
      rw at_end (get_or-set_self h.records h.n_records (bio_record h bio) log_record_init free)

  pub n_records-add_record :
      (bio : Bio) (cap : ℕ) → (add_record h bio cap).n_records ≡ suc h.n_records
  unfolding add_record
  n_records-add_record bio cap = next_count

  pub io_size-bio_record :
      (bio : Bio) → bio.sectors < u32_mod → (bio_record h bio).io_size ≡ bio.sectors
  unfolding bio_record
  io_size-bio_record bio s = omega arith

  pub offset-bio_record : (bio : Bio) → (bio_record h bio).offset ≡ bio.bi_sector
  unfolding bio_record
  offset-bio_record bio = refl

  pub padding_bit-bio_record :
      (bio : Bio) → test_bit_u32 log_record_padding (bio_record h bio).flags ≡ false
  unfolding bio_record
  padding_bit-bio_record bio = no_padding_bit (bio_is_discard bio) (next_slot h).flags

  add_record-IsLast :
      (bio : Bio) (cap : ℕ) → bio.sectors < u32_mod → IsLast bio (add_record h bio cap)
  add_record-IsLast bio cap s = record {
    some_records = omega (arith, n_records-add_record bio cap);
    offset = rw (last-add_record bio cap) (offset-bio_record bio);
    io_size = rw (last-add_record bio cap) (io_size-bio_record bio s);
    no_padding = rw (last-add_record bio cap) (padding_bit-bio_record bio);
  }

  add_bio_fit-IsLast :
      (bio : Bio) (cap : ℕ)
      → bio.sectors < u32_mod
      → (add_bio_fit h bio cap).1 ≡ true
      → IsLast bio (add_bio_fit h bio cap).0
  unfolding add_bio_fit
  add_bio_fit-IsLast bio cap s e = ground (arith, add_record-IsLast bio cap s)

module _ (pbs : ℕ) (h : LogpackHeader) (slots : length h.records ≡ max_n_log_record_in_sector pbs)
    (small : max_n_log_record_in_sector pbs < u16_mod)
    (free : h.n_records < max_n_log_record_in_sector pbs) where
  pub add_padding-slots :
      (p : ℕ)
      → (length (add_padding h pbs p).records ≡ max_n_log_record_in_sector pbs)
        × ((add_padding h pbs p).n_records ≡ suc h.n_records)
  unfolding add_padding
  add_padding-slots p =
      (omega (arith, slots, length-set h.records h.n_records (padding_record h pbs p)), omega arith)

  add_bio_padded-IsLast :
      (bio : Bio) (p cap : ℕ)
      → bio.sectors < u32_mod
      → (add_bio_padded h bio pbs p cap).1 ≡ true
      → IsLast bio (add_bio_padded h bio pbs p cap).0
  unfolding add_bio_padded
  add_bio_padded-IsLast bio p cap s e =
      let k = add_padding-slots p in
      ground (
        arith,
        k,
        λ (more : suc h.n_records < max_n_log_record_in_sector pbs).
            add_bio_fit-IsLast (add_padding h pbs p) (omega arith) (omega arith) bio cap s,
      )

-- When a bio with sectors is added, the last record of the header is the bio's record: it has the
-- bio's offset and size, and is no padding. The header has the slots of its sector, of which not all
-- are used or the call fails.
pub header_add_bio-IsLast :
    (h : LogpackHeader) (bio : Bio) (pbs ring : ℕ)
    → length h.records ≡ max_n_log_record_in_sector pbs
    → max_n_log_record_in_sector pbs < u16_mod
    → h.n_records ≤ max_n_log_record_in_sector pbs
    → 0 < bio.sectors
    → bio.sectors < u32_mod
    → (header_add_bio h bio pbs ring).1 ≡ true
    → IsLast bio (header_add_bio h bio pbs ring).0
unfolding header_add_bio add_bio_in_ring
header_add_bio-IsLast h bio pbs ring slots small room some_sectors s e = ground (
  arith,
  λ (free : h.n_records < max_n_log_record_in_sector pbs).
      add_bio_padded-IsLast pbs h slots small free bio (padding_size h ring) (bio_pb_size pbs bio)
        s,
  λ (free : h.n_records < length h.records).
      add_bio_fit-IsLast h free (omega arith) bio (bio_pb_size pbs bio) s,
)
