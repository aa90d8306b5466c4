-- ===== src/Logpack.antt =====
-- include/linux/walb/log_record.h: log records, the header of a logpack, and their validation. The
-- record array of a header sector is a list that holds all of its slots.
pub mod Add
pub mod Shape
pub mod Records
pub mod Fill
pub mod Steps
pub mod Layout
pub mod Valid
pub mod Last
pub mod Limits
use walb_driver.Common.{
  ℕ, zero, suc, ◌+◌, ◌-◌, ◌/◌, ◌%◌, ◌^◌, Bool, true, false, not, ◌&&◌, ◌||◌, List, [], ◌∷◌, ltb,
  leb, ◌==◌, if◌then◌else◌, u32_mod, u64_mod, add_u64, sub_u64, test_bit_u32,
}
use walb_driver.Checksum.{checksum}

-- LOG_RECORD_EXIST, LOG_RECORD_PADDING, LOG_RECORD_DISCARD: bit numbers of the flags.
abbrev pub log_record_exist : ℕ
log_record_exist = 0

abbrev pub log_record_padding : ℕ
log_record_padding = 1

abbrev pub log_record_discard : ℕ
log_record_discard = 2

-- WALB_MAX_NORMAL_IO_SECTORS, UINT16_MAX
abbrev pub max_normal_io_sectors : ℕ
max_normal_io_sectors = 65535

-- MAX_TOTAL_IO_SIZE_IN_LOGPACK_HEADER
abbrev pub max_total_io_size : ℕ
max_total_io_size = 65535

abbrev pub invalid_lsid : ℕ
invalid_lsid = 2 ^ 64 - 1

abbrev pub max_lsid : ℕ
max_lsid = 2 ^ 64 - 2

abbrev pub sector_type_logpack : ℕ
sector_type_logpack = 3

pub record LogRecord : Type 0 where
  pub checksum : ℕ
  pub flags : ℕ
  pub offset : ℕ
  pub io_size : ℕ
  pub lsid_local : ℕ
  pub lsid : ℕ

pub record LogpackHeader : Type 0 where
  pub checksum : ℕ
  pub sector_type : ℕ
  pub total_io_size : ℕ
  pub logpack_lsid : ℕ
  pub n_records : ℕ
  pub n_padding : ℕ
  pub records : List LogRecord

-- sizeof(struct walb_logpack_header) is 24 and sizeof(struct walb_log_record) is 32.
unfoldable pub max_n_log_record_in_sector : ℕ → ℕ
max_n_log_record_in_sector pbs = (pbs - 24) / 32

-- log_record_init: all bytes zero.
abbrev pub log_record_init : LogRecord
log_record_init = record {
  checksum = 0;
  flags = 0;
  offset = 0;
  io_size = 0;
  lsid_local = 0;
  lsid = 0;
}

unfoldable pub is_valid_log_record : LogRecord → Bool
is_valid_log_record rec =
    test_bit_u32 log_record_exist rec.flags
    && ((test_bit_u32 log_record_padding rec.flags || ltb 0 rec.io_size)
        && ((test_bit_u32 log_record_discard rec.flags || leb rec.io_size max_normal_io_sectors)
            && (ltb 0 rec.lsid_local && leb rec.lsid max_lsid)))

unfoldable pub is_end_logpack_header : LogpackHeader → Bool
is_end_logpack_header lhead = lhead.n_records == 0 && lhead.logpack_lsid == invalid_lsid

unfoldable pub is_valid_logpack_header : LogpackHeader → Bool
is_valid_logpack_header lhead =
    lhead.sector_type == sector_type_logpack
    && (if lhead.n_records == 0
        then lhead.total_io_size == 0 && lhead.n_padding == 0
        else leb lhead.n_padding 1
          && (leb lhead.n_padding lhead.n_records
              && ltb lhead.logpack_lsid
                  (add_u64 (add_u64 lhead.logpack_lsid 1) lhead.total_io_size)))

-- One round of the loop of `is_valid_logpack_header_and_records`.
abbrev pub is_record_of : ℕ → LogRecord → Bool
is_record_of logpack_lsid rec =
    is_valid_log_record rec && sub_u64 rec.lsid rec.lsid_local == logpack_lsid

-- The loop, with `n_records - i` rounds left. A read past the slots fails.
unfoldable pub are_records_of : ℕ → ℕ → List LogRecord → Bool
are_records_of logpack_lsid zero recs = true
are_records_of logpack_lsid (suc n) [] = false
are_records_of logpack_lsid (suc n) (rec ∷ recs) =
    is_record_of logpack_lsid rec && are_records_of logpack_lsid n recs

unfoldable pub is_valid_logpack_header_and_records : LogpackHeader → Bool
unfolding is_valid_logpack_header are_records_of
is_valid_logpack_header_and_records lhead =
    is_valid_logpack_header lhead && are_records_of lhead.logpack_lsid lhead.n_records lhead.records

-- The two variants with a checksum. The bytes of the header sector are an argument.
unfoldable pub is_valid_logpack_header_with_checksum : LogpackHeader → List ℕ → ℕ → ℕ → Bool
is_valid_logpack_header_with_checksum lhead bytes pbs salt =
    is_valid_logpack_header lhead && (not (ltb 0 lhead.n_records) || checksum bytes pbs salt == 0)

unfoldable pub is_valid_logpack_header_and_records_with_checksum :
    LogpackHeader → List ℕ → ℕ → ℕ → Bool
is_valid_logpack_header_and_records_with_checksum lhead bytes pbs salt =
    (not (ltb 0 lhead.n_records) || checksum bytes pbs salt == 0)
    && is_valid_logpack_header_and_records lhead

unfoldable pub get_next_lsid_unsafe : LogpackHeader → ℕ
get_next_lsid_unsafe lhead =
    if lhead.total_io_size == 0 && lhead.n_records == 0
    then lhead.logpack_lsid
    else add_u64 (add_u64 lhead.logpack_lsid 1) lhead.total_io_size
