-- ===== src/Redo.antt =====
-- module/redo.c: after a crash, the logpacks from written_lsid on are written to the data device again. Blocks
-- of the log come with whether reading them failed; the read-ahead queue is a function from lsids to blocks.
pub mod Sum
pub mod Replay
pub mod Pack
pub mod Write
pub mod Kept
pub mod Rewrite
pub mod Log
pub mod Whole
use walb_driver.Common.{
  ℕ, zero, suc, ◌+◌, ◌-◌, ◌*◌, ◌/◌, ◌%◌, Bool, true, false, not, ◌&&◌, ◌||◌, Option, none, some,
  List, [], ◌∷◌, ◌++◌, min, take, drop, ltb, ◌==◌, if◌then◌else◌, u16_mod, u32_mod, add_u64,
  test_bit_u32,
}
use walb_driver.Block.{logical_block_size, n_lb_in_pb, capacity_pb}
use walb_driver.Checksum.{checksum, checksum_partial, checksum_finish}
use walb_driver.Checksum.Total.{encode}
use walb_driver.Logpack.{
  LogRecord, LogpackHeader, log_record_init, log_record_discard, log_record_padding,
  is_valid_logpack_header_with_checksum,
}
use walb_driver.Lsid.{LsidSet}

pub record LogBlock : Type 0 where
  pub failed : Bool
  pub bytes : List ℕ

-- A bio to the data device: position and length in sectors.
pub data RedoIo : Type 0 where
  data_io : (pos len : ℕ) → List ℕ → RedoIo
  discard_io : (pos len : ℕ) → RedoIo

-- What becomes of a record: go on with the blocks left, the read failed, or the checksum is wrong.
pub data Tried : Type 0 where
  go_on : List LogBlock → List RedoIo → Tried
  io_error : Tried
  mismatch : Tried

-- The loop over the records: the bios to submit, up to the first record with a wrong checksum, if any.
pub data Scanned : Type 0 where
  all_valid : List LogBlock → List RedoIo → Scanned
  read_failed : Scanned
  invalid_at : ℕ → List RedoIo → Scanned

-- How the loop goes on after record `i`.
abbrev pub continued : (List LogBlock → List RedoIo → Scanned) → ℕ → List RedoIo → Tried → Scanned
continued next i ready (go_on pack ios) = next pack (ready ++ ios)
continued next i ready io_error = read_failed
continued next i ready mismatch = invalid_at i ready

abbrev pub any_failed : List LogBlock → Bool
any_failed [] = false
any_failed (b ∷ bs) = b.failed || any_failed bs

-- The records from `skip` on, `n` of them, become zero.
abbrev pub clear_records : (skip n : ℕ) → List LogRecord → List LogRecord
clear_records skip n [] = []
clear_records (suc skip) n (r ∷ rs) = r ∷ clear_records skip n rs
clear_records zero zero (r ∷ rs) = r ∷ rs
clear_records zero (suc n) (r ∷ rs) = log_record_init ∷ clear_records zero n rs

-- n_padding once more, of sixteen bits.
abbrev pub paddings_of : ℕ → List LogRecord → ℕ → ℕ
paddings_of zero recs paddings = paddings
paddings_of (suc n) [] paddings = paddings
paddings_of (suc n) (r ∷ recs) paddings =
    paddings_of n recs
      (if test_bit_u32 log_record_padding r.flags then (paddings + 1) % u16_mod else paddings)

abbrev pub record_words : LogRecord → List ℕ
record_words r =
    r.checksum
    ∷ r.flags
    ∷ (r.offset % u32_mod)
    ∷ (r.offset / u32_mod)
    ∷ r.io_size
    ∷ r.lsid_local
    ∷ (r.lsid % u32_mod)
    ∷ (r.lsid / u32_mod)
    ∷ []

abbrev pub records_words : List LogRecord → List ℕ
records_words [] = []
records_words (r ∷ rs) = record_words r ++ records_words rs

-- The header sector behind its checksum as words, with zero reserved fields; `behind`: what stands behind
-- the last slot.
abbrev pub header_rest : LogpackHeader → List ℕ → List ℕ
header_rest h behind =
    (h.sector_type + u16_mod * h.total_io_size)
    ∷ (h.logpack_lsid % u32_mod)
    ∷ (h.logpack_lsid / u32_mod)
    ∷ (h.n_records + u16_mod * h.n_padding)
    ∷ 0
    ∷ (records_words h.records ++ behind)

abbrev pub header_bytes : LogpackHeader → List ℕ → List ℕ
header_bytes h behind = encode (h.checksum ∷ header_rest h behind)

module _ (pbs : ℕ) where
  -- The loop of calc_checksum_for_redo.
  abbrev pub sum_blocks : ℕ → ℕ → List LogBlock → ℕ
  sum_blocks n_lb csum [] = csum
  sum_blocks n_lb csum (b ∷ bs) =
      let len = min (n_lb_in_pb pbs) n_lb in
      sum_blocks (n_lb - len) (checksum_partial csum b.bytes (len * logical_block_size)) bs

  unfoldable pub calc_checksum_for_redo : ℕ → ℕ → List LogBlock → ℕ
  calc_checksum_for_redo n_lb salt biow_list = checksum_finish (sum_blocks n_lb salt biow_list)

  -- A bio for each block, `n_lb` sectors in all.
  unfoldable pub create_data_io : ℕ → ℕ → List LogBlock → List RedoIo
  create_data_io off n_lb [] = []
  create_data_io off n_lb (b ∷ bs) =
      let len = min (n_lb_in_pb pbs) n_lb in
      data_io off len (take (len * logical_block_size) b.bytes)
      ∷ create_data_io (add_u64 off len) (n_lb - len) bs

  unfoldable pub create_discard_data_io : LogRecord → RedoIo
  create_discard_data_io rec = discard_io rec.offset (rec.io_size / 512)

  -- `supports_discard`: blk_queue_discard of the data device.
  unfoldable pub redo_record : Bool → ℕ → LogRecord → List LogBlock → Tried
  unfolding calc_checksum_for_redo create_data_io create_discard_data_io
  redo_record supports_discard salt rec pack =
      if rec.io_size == 0
      then go_on pack []
      else if test_bit_u32 log_record_discard rec.flags
      then go_on pack (if supports_discard then create_discard_data_io rec ∷ [] else [])
      else (let n_pb = capacity_pb pbs rec.io_size % u32_mod in
          if any_failed (take n_pb pack)
          then io_error
          else if test_bit_u32 log_record_padding rec.flags
          then go_on (drop n_pb pack) []
          else if calc_checksum_for_redo rec.io_size salt (take n_pb pack) == rec.checksum
          then go_on (drop n_pb pack) (create_data_io rec.offset rec.io_size (take n_pb pack))
          else mismatch)

  -- The loop, at record `i` with `n` rounds left. A read past the slots counts as invalid.
  unfoldable pub redo_records :
      Bool → ℕ → ℕ → ℕ → List LogRecord → List LogBlock → List RedoIo → Scanned
  redo_records supports_discard salt i zero recs pack ready = all_valid pack ready
  redo_records supports_discard salt i (suc n) [] pack ready = invalid_at i ready
  redo_records supports_discard salt i (suc n) (rec ∷ recs) pack ready =
      continued (λ pack' ready'. redo_records supports_discard salt (i + 1) n recs pack' ready') i
        ready (redo_record supports_discard salt rec pack)

  -- total_io_size once more, of sixteen bits.
  abbrev pub total_of : ℕ → List LogRecord → ℕ → ℕ
  total_of zero recs total = total
  total_of (suc n) [] total = total
  total_of (suc n) (r ∷ recs) total = total_of n recs (
      if test_bit_u32 log_record_discard r.flags
      then total
      else (total + capacity_pb pbs r.io_size) % u16_mod)

  -- Case (3) of redo_logpack: the header without the records from `invalid_idx` on. The assertion that
  -- total_io_size is not 0 warns in a debug build and is nothing in others; the code goes on.
  abbrev pub cut_records : ℕ → LogpackHeader → LogpackHeader
  cut_records invalid_idx h =
      let recs = clear_records invalid_idx (h.n_records - invalid_idx) h.records in
      record h {
        checksum = 0;
        n_records = invalid_idx;
        total_io_size = total_of invalid_idx recs 0;
        n_padding = paddings_of invalid_idx recs 0;
        records = recs;
      }

  unfoldable pub cut_header : ℕ → ℕ → LogpackHeader → List ℕ → LogpackHeader
  cut_header salt invalid_idx h behind = record (cut_records invalid_idx h) {
    checksum = checksum (header_bytes (cut_records invalid_idx h) behind) pbs salt;
  }

-- What redo_logpack does: whether it succeeds, the bios it submits, the header that it writes back, and
-- *written_lsid_p and *should_terminate.
pub record Redone : Type 0 where
  pub ok : Bool
  pub submitted : List RedoIo
  pub header : Option LogpackHeader
  pub written_lsid : ℕ
  pub should_terminate : Bool

module _ (pbs salt : ℕ) (supports_discard : Bool) where
  -- The three cases behind the loop. `write_ok`: the write of the header succeeds.
  unfoldable pub finish_redo : Bool → ℕ → LogpackHeader → List ℕ → Scanned → Redone
  unfolding cut_header
  finish_redo write_ok written_lsid h behind read_failed = record {
    ok = false;
    submitted = [];
    header = none;
    written_lsid = written_lsid;
    should_terminate = false;
  }
  finish_redo write_ok written_lsid h behind (all_valid pack ready) = record {
    ok = true;
    submitted = ready;
    header = none;
    written_lsid = add_u64 (add_u64 h.logpack_lsid 1) h.total_io_size;
    should_terminate = false;
  }
  finish_redo write_ok written_lsid h behind (invalid_at zero ready) = record {
    ok = true;
    submitted = ready;
    header = none;
    written_lsid = h.logpack_lsid;
    should_terminate = true;
  }
  finish_redo write_ok written_lsid h behind (invalid_at (suc i) ready) =
      let h' = cut_header pbs salt (suc i) h behind in
      record {
        ok = write_ok;
        submitted = ready;
        header = some h';
        written_lsid =
            if write_ok then add_u64 (add_u64 h'.logpack_lsid 1) h'.total_io_size else written_lsid;
        should_terminate = write_ok;
      }

  -- `pack`: the total_io_size blocks behind the header.
  unfoldable pub redo_logpack : Bool → ℕ → LogpackHeader → List ℕ → List LogBlock → Redone
  unfolding redo_records finish_redo
  redo_logpack write_ok written_lsid h behind pack =
      finish_redo write_ok written_lsid h behind
        (redo_records pbs supports_discard salt 0 h.n_records h.records pack [])
