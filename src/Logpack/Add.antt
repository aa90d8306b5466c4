-- ===== src/Logpack/Add.antt =====
-- walb_logpack_header_add_bio of module/logpack.c: a write goes into a logpack header, behind a
-- padding record where it would cross the end of the ring buffer.
use walb_driver.Common.{
  ℕ, ◌+◌, ◌-◌, ◌%◌, Bool, true, false, not, ◌&&◌, ltb, ◌==◌, if◌then◌else◌, get_or, set, u16_mod,
  u32_mod, add_u32, add_u64, sub_u64, set_bit_u32, clear_bit_u32,
}
use walb_driver.Block.{capacity_pb, capacity_lb}
use walb_driver.Bio.{Bio, bio_is_discard}
use walb_driver.Logpack.{
  LogRecord, LogpackHeader, log_record_init, log_record_exist, log_record_padding,
  log_record_discard, max_total_io_size, max_n_log_record_in_sector,
}

-- The lsid that the next record of the header gets.
abbrev pub next_record_lsid : LogpackHeader → ℕ
next_record_lsid h = add_u64 (add_u64 h.logpack_lsid 1) h.total_io_size

-- The record at slot `n_records`, the next to be filled.
abbrev pub next_slot : LogpackHeader → LogRecord
next_slot h = get_or h.records h.n_records log_record_init

-- The contents of a padding record.
unfoldable pub padding_record : LogpackHeader → ℕ → ℕ → LogRecord
padding_record h pbs padding_pb = record (next_slot h) {
  flags = set_bit_u32 log_record_exist (set_bit_u32 log_record_padding (next_slot h).flags);
  lsid = next_record_lsid h;
  lsid_local = sub_u64 (next_record_lsid h) h.logpack_lsid % u16_mod;
  offset = 0;
  io_size = capacity_lb pbs padding_pb % u16_mod;
}

unfoldable pub add_padding : LogpackHeader → ℕ → ℕ → LogpackHeader
unfolding padding_record
add_padding h pbs padding_pb = record h {
  records = set h.records h.n_records (padding_record h pbs padding_pb);
  n_padding = (h.n_padding + 1) % u16_mod;
  n_records = (h.n_records + 1) % u16_mod;
  total_io_size = (h.total_io_size + padding_pb) % u16_mod;
}

-- The flags of a bio's record.
abbrev pub bio_flags : Bool → ℕ → ℕ
bio_flags discards flags =
    let shown = clear_bit_u32 log_record_padding (set_bit_u32 log_record_exist flags) in
    if discards
    then set_bit_u32 log_record_discard shown
    else clear_bit_u32 log_record_discard shown

-- The contents of a bio's record. The checksum is calculated later.
unfoldable pub bio_record : LogpackHeader → Bio → LogRecord
bio_record h bio = record (next_slot h) {
  flags = bio_flags (bio_is_discard bio) (next_slot h).flags;
  lsid = next_record_lsid h;
  lsid_local = sub_u64 (next_record_lsid h) h.logpack_lsid % u16_mod;
  offset = bio.bi_sector;
  io_size = bio.sectors % u32_mod;
}

-- A discard takes no room in the log.
unfoldable pub add_record : LogpackHeader → Bio → ℕ → LogpackHeader
unfolding bio_record
add_record h bio bio_pb = record h {
  records = set h.records h.n_records (bio_record h bio);
  n_records = (h.n_records + 1) % u16_mod;
  total_io_size =
      if bio_is_discard bio then h.total_io_size else (h.total_io_size + bio_pb) % u16_mod;
}

-- The part after the padding check: a bio that is no discard has to fit.
unfoldable pub add_bio_fit : LogpackHeader → Bio → ℕ → LogpackHeader × Bool
add_bio_fit h bio bio_pb =
    if not (bio_is_discard bio) && ltb max_total_io_size (add_u32 h.total_io_size bio_pb)
    then (h, false)
    else (add_record h bio bio_pb, true)

-- The part of the padding check that has found `padding_pb < bio_pb`. The last slot may go to the
-- padding record.
unfoldable pub add_bio_padded : LogpackHeader → Bio → ℕ → ℕ → ℕ → LogpackHeader × Bool
add_bio_padded h bio pbs padding_pb bio_pb =
    if ltb max_total_io_size (add_u64 h.total_io_size padding_pb)
    then (h, false)
    else let padded = add_padding h pbs padding_pb in
      if padded.n_records == max_n_log_record_in_sector pbs
      then (padded, false)
      else add_bio_fit padded bio bio_pb

-- Physical blocks up to the end of the ring buffer.
abbrev pub padding_size : LogpackHeader → ℕ → ℕ
padding_size h ring_buffer_size = ring_buffer_size - next_record_lsid h % ring_buffer_size

abbrev pub bio_pb_size : ℕ → Bio → ℕ
bio_pb_size pbs bio = capacity_pb pbs bio.sectors % u32_mod

-- The padding check, for a bio that has sectors.
unfoldable pub add_bio_in_ring : LogpackHeader → Bio → ℕ → ℕ → LogpackHeader × Bool
add_bio_in_ring h bio pbs ring_buffer_size =
    if not (bio_is_discard bio) && ltb (padding_size h ring_buffer_size) (bio_pb_size pbs bio)
    then add_bio_padded h bio pbs (padding_size h ring_buffer_size) (bio_pb_size pbs bio)
    else add_bio_fit h bio (bio_pb_size pbs bio)

-- The header after the call, and its result. A bio of no sectors is a flush, which needs no record.
unfoldable pub header_add_bio : LogpackHeader → Bio → ℕ → ℕ → LogpackHeader × Bool
header_add_bio h bio pbs ring_buffer_size =
    if h.n_records == max_n_log_record_in_sector pbs
    then (h, false)
    else if bio.sectors == 0
    then (h, true)
    else add_bio_in_ring h bio pbs ring_buffer_size
