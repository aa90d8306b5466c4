-- ===== src/Redo/Rewrite.antt =====
-- The header that redo_logpack (module/redo.c) writes back passes the driver's validation.
use walb_driver.Common.{
  ℕ, zero, suc, ◌+◌, ◌-◌, ◌*◌, ◌≤◌, ◌<◌, ◌≡◌, refl, sym, subst, ◌∙◌, true, List, [], ◌∷◌, All,
  All-append, take, length, length-append, arith, u16_mod, u32_mod, u64_mod, add_u64, test_bit_u32,
}
use walb_driver.Checksum.{checksum}
use walb_driver.Checksum.Total.{IsWord, encode}
use walb_driver.Checksum.Detect.{checksum_sealed}
use walb_driver.Logpack.{
  LogRecord, LogpackHeader, log_record_init, log_record_discard, is_valid_logpack_header,
  is_valid_logpack_header_and_records, is_valid_logpack_header_and_records_with_checksum,
  are_records_of,
}
use walb_driver.Logpack.Shape.{IsOpen, Laid, Unused}
use walb_driver.Redo.{
  record_words, records_words, header_rest, header_bytes, cut_records, cut_header,
}
use walb_driver.Redo.Kept.{
  take-clear_records, length-clear_records, All-clear_records, Unused-clear_records,
  are_records_of-clear_records, size_of, count_paddings, size_of-le, count_paddings-le,
  Laid-size_of, Laid-start, total_of-size_of, paddings_of-count,
}

-- The fields of a record fit in their types.
pub record IsSized (r : LogRecord) : Type 0 where
  pub checksum : r.checksum < u32_mod
  pub flags : r.flags < u32_mod
  pub offset : r.offset < u64_mod
  pub io_size : r.io_size < u32_mod
  pub lsid_local : r.lsid_local < u16_mod
  pub lsid : r.lsid < u64_mod

pub init-IsSized : IsSized log_record_init
init-IsSized = record {
  checksum = omega arith;
  flags = omega arith;
  offset = omega arith;
  io_size = omega arith;
  lsid_local = omega arith;
  lsid = omega arith;
}

record_words-IsWord : (r : LogRecord) → IsSized r → All IsWord (record_words r)
record_words-IsWord r s = (
  s.checksum,
  (
    s.flags,
    (
      omega arith,
      (
        omega (arith, s.offset),
        (s.io_size, (omega (arith, s.lsid_local), (omega arith, (omega (arith, s.lsid), tt)))),
      ),
    ),
  ),
)

records_words-IsWord : (rs : List LogRecord) → All IsSized rs → All IsWord (records_words rs)
records_words-IsWord [] a = tt
records_words-IsWord (r ∷ rs) a =
    All-append IsWord (record_words r) (records_words rs) (record_words-IsWord r a.0)
      (records_words-IsWord rs a.1)

length-records_words : (rs : List LogRecord) → length (records_words rs) ≡ 8 * length rs
length-records_words [] = omega arith
length-records_words (r ∷ rs) =
    length-append (record_words r) (records_words rs) ∙ omega (arith, length-records_words rs)

-- A header in its sector: the words behind the slots fill the block.
pub record IsSector (pbs : ℕ) (h : LogpackHeader) (behind : List ℕ) : Type 0 where
  pub records : All IsSized h.records
  pub behind_words : All IsWord behind
  pub size : 4 * (6 + 8 * length h.records + length behind) ≡ pbs

-- What the header that is written back is: valid with its checksum, with the records that are kept, which lie
-- behind it up to `end`, and zero slots behind them.
pub record IsCut (pbs ring salt k : ℕ) (h h' : LogpackHeader) (behind : List ℕ) (end : ℕ)
    : Type 0 where
  pub valid :
      is_valid_logpack_header_and_records_with_checksum h' (header_bytes h' behind) pbs salt ≡ true
  pub lsid : h'.logpack_lsid ≡ h.logpack_lsid
  pub n_records : h'.n_records ≡ k
  pub kept : take k h'.records ≡ take k h.records
  pub laid : Laid pbs ring (h.logpack_lsid + 1) (take k h'.records) end
  pub unused : Unused k h'.records

size_of-discards :
    (pbs k : ℕ) (rs : List LogRecord)
    → All (λ r. test_bit_u32 log_record_discard r.flags ≡ true) (take k rs)
    → size_of pbs k rs ≡ 0
size_of-discards pbs zero rs a = refl
size_of-discards pbs (suc k) [] a = refl
size_of-discards pbs (suc k) (r ∷ rs) a = rw a.0 (omega (arith, size_of-discards pbs k rs a.1))

module _ (pbs ring salt : ℕ) (h : LogpackHeader) (o : IsOpen pbs ring h) (behind : List ℕ)
    (sector : IsSector pbs h behind) (salt_small : salt < u32_mod)
    (counted : count_paddings h.n_records h.records ≤ 1) (few : h.n_records < u16_mod) (k : ℕ)
    (positive : 0 < k) (less : k < h.n_records) where
  abbrev cut : LogpackHeader
  cut = cut_records pbs k h

  total_small : size_of pbs k h.records ≤ 65535
  total_small = omega (
    arith,
    size_of-le pbs k h.n_records h.records (omega arith),
    Laid-size_of pbs ring (h.logpack_lsid + 1) (h.logpack_lsid + 1 + h.total_io_size) h.n_records
        h.records o.laid,
    o.small,
  )

  total : cut.total_io_size ≡ size_of pbs k h.records
  total =
      total_of-size_of pbs k (h.n_records - k) h.records 0 (omega (arith, total_small))
      ∙ omega arith

  paddings : cut.n_padding ≤ 1
  paddings =
      let few : count_paddings k h.records ≤ 1 =
        omega (arith, count_paddings-le k h.n_records h.records (omega arith)) in
      omega (arith, paddings_of-count k (h.n_records - k) h.records 0 (omega (arith, few)), few)

  records_valid : are_records_of h.logpack_lsid k cut.records ≡ true
  records_valid =
      are_records_of-clear_records h.logpack_lsid k (h.n_records - k) h.n_records h.records
        (omega arith) o.valid

  rest-IsWord : All IsWord (header_rest cut behind)
  rest-IsWord = (
    omega (arith, o.typed, total, total_small),
    (
      omega arith,
      (
        omega (arith, o.near),
        (
          omega (arith, paddings, few, less),
          (
            omega arith,
            All-append IsWord (records_words cut.records) behind
                (records_words-IsWord cut.records (
                  All-clear_records IsSized k (h.n_records - k) h.records init-IsSized
                    sector.records))
                sector.behind_words,
          ),
        ),
      ),
    ),
  )

  end :
      add_u64 (add_u64 h.logpack_lsid 1) cut.total_io_size
      ≡ h.logpack_lsid + 1 + size_of pbs k h.records
  end = omega (arith, total, total_small, o.near)

  -- The words of the sector.
  size : 4 * length (0 ∷ header_rest cut behind) ≡ pbs
  size = omega (
    arith,
    length-append (records_words cut.records) behind,
    length-records_words cut.records,
    length-clear_records k (h.n_records - k) h.records,
    sector.size,
  )

  sealed : checksum (header_bytes (cut_header pbs salt k h behind) behind) pbs salt ≡ 0
  unfolding cut_header
  sealed =
      subst
        (λ n.
          checksum
            (encode
              (checksum (encode (0 ∷ header_rest cut behind)) n salt ∷ header_rest cut behind))
            n salt
          ≡ 0)
        size (checksum_sealed [] (header_rest cut behind) salt tt rest-IsWord salt_small)

  -- What is written back, its total_io_size left open.
  rewritten : IsCut pbs ring salt k h (cut_header pbs salt k h behind) behind (
      add_u64
        (add_u64 (cut_header pbs salt k h behind).logpack_lsid 1)
        (cut_header pbs salt k h behind).total_io_size)
  unfolding cut_header is_valid_logpack_header_and_records_with_checksum
      is_valid_logpack_header_and_records is_valid_logpack_header
  rewritten = record {
    valid =
        rw (sealed, records_valid)
          (ground (arith, o.typed, o.near, total, total_small, paddings, positive));
    lsid = refl;
    n_records = refl;
    kept = take-clear_records k (h.n_records - k) h.records;
    laid =
        subst
          (λ l.
            Laid pbs ring (h.logpack_lsid + 1) l
              (add_u64 (add_u64 h.logpack_lsid 1) cut.total_io_size))
          (sym (take-clear_records k (h.n_records - k) h.records))
          (subst (Laid pbs ring (h.logpack_lsid + 1) (take k h.records)) (sym end) (
            Laid-start pbs ring (h.logpack_lsid + 1) (h.logpack_lsid + 1 + h.total_io_size) k
              h.n_records h.records (omega arith) o.laid));
    unused = Unused-clear_records k (h.n_records - k) h.records (
        subst (λ n. Unused n h.records) {y = k + (h.n_records - k)} (omega (arith, less)) o.unused);
  }

  -- For a header with the shape of an open header, with one padding at most, in a sector of whole words: when
  -- redo keeps some but not all of its records, and the total_io_size that it computes for them is not 0, as
  -- it asserts, the header that it writes back passes the driver's validation with its checksum, has the
  -- records that are kept and zero slots behind them, and the records end where redo sets written_lsid, which
  -- is not at the start of them.
  pub cut_header-IsCut :
      0 < (cut_header pbs salt k h behind).total_io_size
      → IsCut pbs ring salt k h (cut_header pbs salt k h behind) behind (
          add_u64
            (add_u64 (cut_header pbs salt k h behind).logpack_lsid 1)
            (cut_header pbs salt k h behind).total_io_size)
        × (h.logpack_lsid + 1
            < add_u64
                (add_u64 (cut_header pbs salt k h behind).logpack_lsid 1)
                (cut_header pbs salt k h behind).total_io_size)
  unfolding cut_header
  cut_header-IsCut some_size = (rewritten, omega (arith, end, total, some_size))

  -- When all the records that redo keeps are discards, the total_io_size that it computes is 0, against its
  -- assertion, and the header that it then writes back still passes the driver's validation with its checksum.
  -- The other conditions are those of a header that redo cuts: the shape of an open header, with one padding at
  -- most, in a sector of whole words, and some but not all of its records are kept.
  pub cut_header-discards :
      All (λ r. test_bit_u32 log_record_discard r.flags ≡ true) (take k h.records)
      → ((cut_header pbs salt k h behind).total_io_size ≡ 0)
        × (is_valid_logpack_header_and_records_with_checksum
              (cut_header pbs salt k h behind)
              (header_bytes (cut_header pbs salt k h behind) behind)
              pbs
              salt
            ≡ true)
  unfolding cut_header
  cut_header-discards a = (total ∙ size_of-discards pbs k h.records a, rewritten.valid)
