-- ===== src/Redo/Replay.antt =====
-- The loop of redo_logpack (module/redo.c) over records of which it is known whether they are intact.
use walb_driver.Common.{
  ℕ, ◌*◌, ◌%◌, ◌≤◌, ◌<◌, ◌≡◌, ◌≢◌, refl, sym, ap, subst, ◌∙◌, Bool, true, false, List, [], ◌∷◌,
  ◌++◌, All, take, drop, take-length, drop-length, length, arith, if◌then◌else◌, ◌==◌, u16_mod,
  u32_mod, test_bit_u32,
}
use walb_driver.Block.{is_valid_pbs, n_lb_in_pb, capacity_pb}
use walb_driver.Block.Convert.{n_lb_in_pb_pos, capacity_pb_least}
use walb_driver.Checksum.{checksum}
use walb_driver.Logpack.{LogRecord, log_record_discard, log_record_padding}
use walb_driver.Redo.{
  LogBlock, RedoIo, go_on, mismatch, any_failed, calc_checksum_for_redo, create_data_io,
  create_discard_data_io, redo_record,
}
use walb_driver.Redo.Sum.{IsBlock, all_bytes, calc_checksum_for_redo-checksum}

le_times : (a n : ℕ) → 0 < n → a ≤ a * n
le_times a n l = grind arith

module _ (pbs salt : ℕ) where
  -- The blocks of the log that belong to a record.
  pub record IsStored (rec : LogRecord) (bs : List LogBlock) : Type 0 where
    pub positive : 0 < rec.io_size
    pub small : rec.io_size ≤ 65535
    pub plain : test_bit_u32 log_record_discard rec.flags ≡ false
    pub whole : length bs ≡ capacity_pb pbs rec.io_size
    pub readable : any_failed bs ≡ false
    pub blocks : All (IsBlock pbs) bs

  abbrev pub checksum_of : LogRecord → List LogBlock → ℕ
  checksum_of rec bs = checksum (all_bytes bs) (rec.io_size * 512) salt

  -- A record and its blocks, as they were written.
  pub data IsIntact (rec : LogRecord) (bs : List LogBlock) : Type 0 where
    zero_sized : rec.io_size ≡ 0 → bs ≡ [] → IsIntact rec bs
    discarding :
        0 < rec.io_size
        → test_bit_u32 log_record_discard rec.flags ≡ true
        → bs ≡ []
        → IsIntact rec bs
    padded : IsStored rec bs → test_bit_u32 log_record_padding rec.flags ≡ true → IsIntact rec bs
    written :
        IsStored rec bs
        → test_bit_u32 log_record_padding rec.flags ≡ false
        → checksum_of rec bs ≡ rec.checksum
        → IsIntact rec bs

  -- A record whose data did not reach the log as a whole.
  pub record IsTorn (rec : LogRecord) (bs : List LogBlock) : Type 0 where
    pub stored : IsStored rec bs
    pub data_record : test_bit_u32 log_record_padding rec.flags ≡ false
    pub wrong : checksum_of rec bs ≢ rec.checksum

  -- The bios of an intact record: none of a padding.
  abbrev pub ios_of : Bool → LogRecord → List LogBlock → List RedoIo
  ios_of supports_discard rec bs =
      if rec.io_size == 0
      then []
      else if test_bit_u32 log_record_discard rec.flags
      then (if supports_discard then create_discard_data_io pbs rec ∷ [] else [])
      else if test_bit_u32 log_record_padding rec.flags
      then []
      else create_data_io pbs rec.offset rec.io_size bs

  module _ (v : is_valid_pbs pbs ≡ true) (block_small : pbs < u16_mod) where
    lb_small : n_lb_in_pb pbs ≤ pbs
    unfolding n_lb_in_pb
    lb_small = omega arith

    count_blocks : (n : ℕ) → 0 < n → n ≤ 65535 → capacity_pb pbs n % u32_mod ≡ capacity_pb pbs n
    count_blocks n l s =
        let b = capacity_pb_least pbs n v (omega (arith, lb_small)) in
        let few : capacity_pb pbs n ≤ capacity_pb pbs n * n_lb_in_pb pbs =
          le_times (capacity_pb pbs n) (n_lb_in_pb pbs) (n_lb_in_pb_pos pbs v) in
        omega (arith, b.1, few, lb_small)

    module _ (supports_discard : Bool) {rec : LogRecord} {bs : List LogBlock} where
      module _ (s : IsStored rec bs) (pack : List LogBlock) where
        taken : take (capacity_pb pbs rec.io_size % u32_mod) (bs ++ pack) ≡ bs
        taken =
            ap (λ n. take n (bs ++ pack))
              (count_blocks rec.io_size s.positive s.small ∙ sym s.whole)
            ∙ take-length bs pack

        dropped : drop (capacity_pb pbs rec.io_size % u32_mod) (bs ++ pack) ≡ pack
        dropped =
            ap (λ n. drop n (bs ++ pack))
              (count_blocks rec.io_size s.positive s.small ∙ sym s.whole)
            ∙ drop-length bs pack

        right_sum : calc_checksum_for_redo pbs rec.io_size salt bs ≡ checksum_of rec bs
        right_sum = calc_checksum_for_redo-checksum pbs v bs rec.io_size salt s.blocks (
            subst (λ k. rec.io_size ≤ k * n_lb_in_pb pbs) (sym s.whole)
              (capacity_pb_least pbs rec.io_size v (omega (arith, lb_small, s.small))).0)

        nonzero : (rec.io_size == 0) ≡ false
        nonzero = ground (arith, s.positive)

      pub redo_record-IsIntact :
          IsIntact rec bs
          → (pack : List LogBlock)
          → redo_record pbs supports_discard salt rec (bs ++ pack)
            ≡ go_on pack (ios_of supports_discard rec bs)
      unfolding redo_record
      redo_record-IsIntact (zero_sized z e) pack = rw (z, e) refl
      redo_record-IsIntact (discarding l d e) pack =
          let z : (rec.io_size == 0) ≡ false = ground (arith, l) in rw (z, d, e) refl
      redo_record-IsIntact (padded s p) pack =
          rw (nonzero s pack, s.plain, taken s pack, s.readable, p, dropped s pack) refl
      redo_record-IsIntact (written s p c) pack =
          let same : (calc_checksum_for_redo pbs rec.io_size salt bs == rec.checksum) ≡ true =
            ground (arith, right_sum s pack, c) in
          rw (nonzero s pack, s.plain, taken s pack, s.readable, p, same, dropped s pack) refl

      pub redo_record-IsTorn :
          IsTorn rec bs
          → (pack : List LogBlock)
          → redo_record pbs supports_discard salt rec (bs ++ pack) ≡ mismatch
      unfolding redo_record
      redo_record-IsTorn t pack =
          let other : (calc_checksum_for_redo pbs rec.io_size salt bs == rec.checksum) ≡ false =
            ground (arith, right_sum t.stored pack, t.wrong) in
          rw
            (
              nonzero t.stored pack,
              t.stored.plain,
              taken t.stored pack,
              t.stored.readable,
              t.data_record,
              other,
            )
            refl
