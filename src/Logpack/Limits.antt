-- ===== src/Logpack/Limits.antt =====
-- Where walb_logpack_header_add_bio meets the limit of the sixteen-bit total size.
use walb_driver.Common.{
  ℕ, zero, suc, ◌+◌, ◌-◌, ◌%◌, ◌≤◌, ◌<◌, ◌≡◌, refl, ◌∙◌, ap, ap₂, Bool, true, false, ◌&&◌, leb,
  List, [], ◌∷◌, length, set, u16_mod, u64_mod, arith, ltb, if◌then◌else◌,
}
use walb_driver.Block.{is_valid_pbs, capacity_pb}
use walb_driver.Bio.{Bio, bio_is_discard}
use walb_driver.Logpack.{
  LogRecord, LogpackHeader, max_total_io_size, max_n_log_record_in_sector,
  is_valid_logpack_header_and_records, is_record_of, is_valid_log_record, are_records_of,
}
use walb_driver.Logpack.Add.{
  bio_record, add_record, add_padding, add_bio_fit, add_bio_padded, add_bio_in_ring, header_add_bio,
  padding_size, bio_pb_size,
}
use walb_driver.Logpack.Shape.{IsOpen}
use walb_driver.Logpack.Fill.{max_n_small}
use walb_driver.Logpack.Records.{next_record_lsid_lem}
use walb_driver.Logpack.Steps.{bio_pb_size_lem}
use walb_driver.Logpack.Valid.{create_logpack_header}

are_records_of-set-false :
    (lsid n : ℕ) (rs : List LogRecord) (r : LogRecord)
    → is_record_of lsid r ≡ false
    → n < length rs
    → are_records_of lsid (suc n) (set rs n r) ≡ false
unfolding are_records_of
are_records_of-set-false lsid n [] r v h = absurd (omega arith)
are_records_of-set-false lsid zero (x ∷ rs) r v h = rw v
are_records_of-set-false lsid (suc n) (x ∷ rs) r v h =
    ground (arith, are_records_of-set-false lsid n rs r)

and_false : (b : Bool) → (b && false) ≡ false
and_false b = ground arith

add_discard :
    (h : LogpackHeader) (bio : Bio) (pbs ring : ℕ)
    → h.n_records < max_n_log_record_in_sector pbs
    → bio_is_discard bio ≡ true
    → 0 < bio.sectors
    → header_add_bio h bio pbs ring ≡ (add_record h bio (bio_pb_size pbs bio), true)
unfolding header_add_bio add_bio_in_ring add_bio_fit
add_discard h bio pbs ring free d some_sectors = ground arith

module _ {pbs ring : ℕ} {h : LogpackHeader} (o : IsOpen pbs ring h)
    (full : h.total_io_size ≡ max_total_io_size) where
  -- The local lsid of the record is 65536, which wraps to 0.
  bio_record-invalid : (bio : Bio) → is_record_of h.logpack_lsid (bio_record h bio) ≡ false
  unfolding bio_record is_valid_log_record
  bio_record-invalid bio =
      let wraps : (h.logpack_lsid + 1 + h.total_io_size + u64_mod - h.logpack_lsid)
            % u64_mod
            % u16_mod
          ≡ 0 =
        omega (arith, o.near) in
      rw (next_record_lsid_lem o, wraps) (ground arith)

  add_record-invalid :
      (bio : Bio) (cap : ℕ)
      → pbs < u16_mod
      → h.n_records < max_n_log_record_in_sector pbs
      → is_valid_logpack_header_and_records (add_record h bio cap) ≡ false
  unfolding add_record is_valid_logpack_header_and_records
  add_record-invalid bio cap small free =
      let next : (h.n_records + 1) % u16_mod ≡ suc h.n_records =
        omega (arith, o.room, max_n_small pbs small) in
      rw
        (
          next,
          are_records_of-set-false h.logpack_lsid h.n_records h.records (bio_record h bio)
              (bio_record-invalid bio) (omega (arith, o.slots)),
        )
        (and_false _)

  -- A discard that is added to an open header whose sizes already sum to 65535 is accepted, and the
  -- header then fails the driver's own validation. The header has a free slot, the block size is of
  -- sixteen bits, and the discard has sectors.
  pub header_add_discard_full :
      (bio : Bio)
      → pbs < u16_mod
      → h.n_records < max_n_log_record_in_sector pbs
      → bio_is_discard bio ≡ true
      → 0 < bio.sectors
      → ((header_add_bio h bio pbs ring).1 ≡ true)
        × (is_valid_logpack_header_and_records (header_add_bio h bio pbs ring).0 ≡ false)
  header_add_discard_full bio small free d some_sectors =
      rw (add_discard h bio pbs ring free d some_sectors)
        (refl, add_record-invalid bio (bio_pb_size pbs bio) small free)

-- The result for a header with no records.
module _ (h : LogpackHeader) (none_yet : h.n_records ≡ 0) (no_size : h.total_io_size ≡ 0) where
  fit_result :
      (bio : Bio) (size : ℕ)
      → bio_is_discard bio ≡ false
      → size < 65663
      → (add_bio_fit h bio size).1 ≡ leb size max_total_io_size
  unfolding add_bio_fit
  fit_result bio size d s = ground arith

  padded_result :
      (bio : Bio) (pbs p size : ℕ)
      → 2 ≤ max_n_log_record_in_sector pbs
      → bio_is_discard bio ≡ false
      → p < size
      → size < 65663
      → (add_bio_padded h bio pbs p size).1 ≡ leb (p + size) max_total_io_size
  unfolding add_bio_padded add_bio_fit add_padding
  padded_result bio pbs p size m d lt s = ground arith

  ring_result :
      (bio : Bio) (pbs ring : ℕ)
      → 2 ≤ max_n_log_record_in_sector pbs
      → bio_is_discard bio ≡ false
      → 0 < bio.sectors
      → bio_pb_size pbs bio < 65663
      → (header_add_bio h bio pbs ring).1 ≡ (
          if ltb (padding_size h ring) (bio_pb_size pbs bio)
          then leb (padding_size h ring + bio_pb_size pbs bio) max_total_io_size
          else leb (bio_pb_size pbs bio) max_total_io_size)
  unfolding header_add_bio add_bio_in_ring
  ring_result bio pbs ring m d some_sectors s = ground (
    arith,
    fit_result bio (bio_pb_size pbs bio) d s,
    λ (lt : padding_size h ring < bio_pb_size pbs bio).
        padded_result bio pbs (padding_size h ring) (bio_pb_size pbs bio) m d lt s,
  )

pub max_n_large : (pbs : ℕ) → is_valid_pbs pbs ≡ true → 2 ≤ max_n_log_record_in_sector pbs
unfolding max_n_log_record_in_sector is_valid_pbs
max_n_large pbs v = ground arith

abbrev fits : ℕ → ℕ → Bool
fits p size = if ltb p size then leb (p + size) max_total_io_size else leb size max_total_io_size

no_size : (l : ℕ) → ((l + 1) % u64_mod + 0) % u64_mod ≡ (l + 1) % u64_mod
no_size l = omega arith

-- A write that is no discard, of 1 to 65535 sectors, goes into a new header exactly if it fits in the total
-- size, together with the padding before it where it would cross the end of the ring buffer. The block size
-- is valid and of sixteen bits.
pub create_logpack_header-add_bio :
    (pbs ring logpack_lsid : ℕ) (bio : Bio)
    → is_valid_pbs pbs ≡ true
    → pbs < u16_mod
    → bio_is_discard bio ≡ false
    → 0 < bio.sectors
    → bio.sectors ≤ 65535
    → (header_add_bio (create_logpack_header pbs logpack_lsid) bio pbs ring).1 ≡ (
        if ltb (ring - (logpack_lsid + 1) % u64_mod % ring) (capacity_pb pbs bio.sectors)
        then leb
            (ring - (logpack_lsid + 1) % u64_mod % ring + capacity_pb pbs bio.sectors)
            max_total_io_size
        else leb (capacity_pb pbs bio.sectors) max_total_io_size)
unfolding create_logpack_header
create_logpack_header-add_bio pbs ring logpack_lsid bio v small d some_sectors few =
    let b = bio_pb_size_lem pbs bio v small few some_sectors in
    let h = create_logpack_header pbs logpack_lsid in
    ring_result h refl refl bio pbs ring (max_n_large pbs v) d some_sectors b.1
    ∙ ap₂ fits (ap (λ e. ring - e % ring) (no_size logpack_lsid)) b.2
