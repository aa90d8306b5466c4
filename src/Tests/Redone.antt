-- ===== src/Tests/Redone.antt =====
-- Redo (module/redo.c) of a log with one logpack of two records, of which the second is torn.
use walb_driver.Common.{
  ℕ, zero, suc, ◌+◌, ◌*◌, ◌<◌, ◌≡◌, refl, inl, true, false, some, List, [], ◌∷◌, All, take,
  replicate, arith, if◌then◌else◌, ◌==◌, add_u64,
}
use walb_driver.Block.{is_valid_pbs, n_lb_in_pb, capacity_pb}
use walb_driver.Checksum.{checksum}
use walb_driver.Checksum.Total.{encode}
use walb_driver.Logpack.{
  LogRecord, LogpackHeader, log_record_init, max_n_log_record_in_sector, is_valid_logpack_header,
  is_valid_logpack_header_with_checksum, is_valid_log_record, are_records_of,
  is_valid_logpack_header_and_records_with_checksum,
}
use walb_driver.Logpack.Shape.{IsOpen}
use walb_driver.Logpack.Valid.{replicate-Unused}
use walb_driver.Redo.{LogBlock, calc_checksum_for_redo, create_data_io, cut_header, header_bytes}
use walb_driver.Redo.Sum.{IsBlock, all_bytes, calc_checksum_for_redo-checksum}
use walb_driver.Redo.Write.{Contiguous, data_of, create_data_io-Contiguous}
use walb_driver.Redo.Replay.{IsIntact, written, IsTorn}
use walb_driver.Redo.Rewrite.{
  IsSized, init-IsSized, IsSector, IsCut, cut_header-IsCut, cut_header-discards,
}
use walb_driver.Redo.Pack.{replayed}
use walb_driver.Redo.Log.{header_of, get_logpack_header_for_redo, redo_log}
use walb_driver.Redo.Whole.{IsPack, Recorded, later_torn, redo_log-Recorded}

abbrev fives : LogBlock
fives = record { failed = false; bytes = encode (replicate 128 5) }

abbrev zeros : LogBlock
zeros = record { failed = false; bytes = encode (replicate 128 0) }

abbrev whole : LogRecord
whole = record {
  checksum = 4294966645;
  flags = 1;
  offset = 100;
  io_size = 1;
  lsid_local = 1;
  lsid = 8;
}

abbrev torn : LogRecord
torn = record { checksum = 0; flags = 1; offset = 200; io_size = 1; lsid_local = 2; lsid = 9 }

abbrev two_records : LogpackHeader
two_records = record {
  checksum = 4294836528;
  sector_type = 3;
  total_io_size = 2;
  logpack_lsid = 7;
  n_records = 2;
  n_padding = 0;
  records = whole ∷ torn ∷ replicate 13 log_record_init;
}

abbrev behind : List ℕ
behind = 0 ∷ 0 ∷ []

abbrev log : ℕ → LogBlock
log lsid =
    if lsid == 7
    then record { failed = false; bytes = header_bytes two_records behind }
    else if lsid == 8
    then fives
    else zeros

fives-IsBlock : IsBlock 512 fives
fives-IsBlock = record { words = replicate 128 5; bytes = refl; size = refl }

zeros-IsBlock : IsBlock 512 zeros
zeros-IsBlock = record { words = replicate 128 0; bytes = refl; size = refl }

calc_checksum_for_redo-checksum_example :
    calc_checksum_for_redo 512 2 11 (fives ∷ zeros ∷ [])
    ≡ checksum (all_bytes (fives ∷ zeros ∷ [])) (2 * 512) 11
unfolding is_valid_pbs n_lb_in_pb
calc_checksum_for_redo-checksum_example =
    calc_checksum_for_redo-checksum 512 refl (fives ∷ zeros ∷ []) 2 11
      (fives-IsBlock, (zeros-IsBlock, tt)) (omega arith)

create_data_io-Contiguous_example :
    Contiguous 100 (create_data_io 512 100 2 (fives ∷ zeros ∷ [])) (100 + 2)
    × (data_of (create_data_io 512 100 2 (fives ∷ zeros ∷ []))
        ≡ take (2 * 512) (all_bytes (fives ∷ zeros ∷ [])))
unfolding is_valid_pbs n_lb_in_pb
create_data_io-Contiguous_example =
    create_data_io-Contiguous 512 refl (fives ∷ zeros ∷ []) 100 2
      (fives-IsBlock, (zeros-IsBlock, tt)) (omega arith) (omega arith) (omega arith)

whole-IsIntact : IsIntact 512 11 whole (fives ∷ [])
unfolding capacity_pb checksum
whole-IsIntact =
    written
      (record {
        positive = omega arith;
        small = omega arith;
        plain = refl;
        whole = refl;
        readable = refl;
        blocks = (fives-IsBlock, tt);
      })
      refl refl

torn-IsTorn : IsTorn 512 11 torn (zeros ∷ [])
unfolding capacity_pb checksum
torn-IsTorn = record {
  stored = record {
    positive = omega arith;
    small = omega arith;
    plain = refl;
    whole = refl;
    readable = refl;
    blocks = (zeros-IsBlock, tt);
  };
  data_record = refl;
  wrong = λ e. ground (arith, e);
}

log-IsPack : IsPack 512 11 true log 7 two_records behind (fives ∷ zeros ∷ [])
unfolding get_logpack_header_for_redo header_of is_valid_logpack_header_with_checksum
    is_valid_logpack_header checksum max_n_log_record_in_sector
log-IsPack = record { found = refl; readable = refl; blocks = refl }

cut-positive : 0 < (cut_header 512 11 1 two_records behind).total_io_size
unfolding cut_header capacity_pb
cut-positive = omega arith

log-Recorded :
    Recorded 512 11 true log 7 0
      (replayed 512 11 true (record { rec = whole; blocks = fives ∷ [] } ∷ []))
      (some (cut_header 512 11 1 two_records behind))
      (add_u64 (add_u64 7 1) (cut_header 512 11 1 two_records behind).total_io_size)
log-Recorded =
    later_torn 7 two_records behind (record { rec = whole; blocks = fives ∷ [] }) []
      (record { rec = torn; blocks = zeros ∷ [] }) [] (replicate 13 log_record_init) log-IsPack refl
      (omega arith) (whole-IsIntact, tt) torn-IsTorn cut-positive

redo_log-Recorded_example :
    redo_log 512 11 true true log 1 7
    ≡ some (record {
      failed = false;
      submitted = replayed 512 11 true (record { rec = whole; blocks = fives ∷ [] } ∷ []);
      header = some (cut_header 512 11 1 two_records behind);
      written_lsid = add_u64 (add_u64 7 1) (cut_header 512 11 1 two_records behind).total_io_size;
    })
unfolding is_valid_pbs
redo_log-Recorded_example =
    redo_log-Recorded 512 11 true log refl (omega arith) 1 log-Recorded (omega arith)

two_records-IsOpen : IsOpen 512 70000 two_records
unfolding max_n_log_record_in_sector are_records_of is_valid_log_record capacity_pb
two_records-IsOpen = record {
  typed = refl;
  slots = refl;
  room = omega arith;
  small = omega arith;
  near = omega arith;
  paddings = omega arith;
  crossed = inl refl;
  empty = λ e. ground (arith, e);
  valid = refl;
  laid = (refl, omega arith, (refl, omega arith, refl));
  unused = replicate-Unused 13;
}

whole-IsSized : IsSized whole
whole-IsSized = record {
  checksum = omega arith;
  flags = omega arith;
  offset = omega arith;
  io_size = omega arith;
  lsid_local = omega arith;
  lsid = omega arith;
}

torn-IsSized : IsSized torn
torn-IsSized = record {
  checksum = omega arith;
  flags = omega arith;
  offset = omega arith;
  io_size = omega arith;
  lsid_local = omega arith;
  lsid = omega arith;
}

blank : (n : ℕ) → All IsSized (replicate n log_record_init)
blank zero = tt
blank (suc n) = (init-IsSized, blank n)

two_records-IsSector : IsSector 512 two_records behind
two_records-IsSector = record {
  records = (whole-IsSized, (torn-IsSized, blank 13));
  behind_words = (omega arith, (omega arith, tt));
  size = refl;
}

cut_header-IsCut_example :
    IsCut 512 70000 11 1 two_records (cut_header 512 11 1 two_records behind) behind (
      add_u64
        (add_u64 (cut_header 512 11 1 two_records behind).logpack_lsid 1)
        (cut_header 512 11 1 two_records behind).total_io_size)
    × (two_records.logpack_lsid + 1
        < add_u64
            (add_u64 (cut_header 512 11 1 two_records behind).logpack_lsid 1)
            (cut_header 512 11 1 two_records behind).total_io_size)
cut_header-IsCut_example =
    cut_header-IsCut 512 70000 11 two_records two_records-IsOpen behind two_records-IsSector
      (omega arith) (omega arith) (omega arith) 1 (omega arith) (omega arith) cut-positive

-- A discard in front of a torn record.
abbrev dropped : LogRecord
dropped = record { checksum = 0; flags = 5; offset = 100; io_size = 8; lsid_local = 1; lsid = 8 }

abbrev behind_discard : LogRecord
behind_discard = record {
  checksum = 0;
  flags = 1;
  offset = 200;
  io_size = 1;
  lsid_local = 1;
  lsid = 8;
}

abbrev discard_first : LogpackHeader
discard_first = record two_records {
  total_io_size = 1;
  records = dropped ∷ behind_discard ∷ replicate 13 log_record_init;
}

discard_first-IsOpen : IsOpen 512 70000 discard_first
unfolding max_n_log_record_in_sector are_records_of is_valid_log_record capacity_pb
discard_first-IsOpen = record {
  typed = refl;
  slots = refl;
  room = omega arith;
  small = omega arith;
  near = omega arith;
  paddings = omega arith;
  crossed = inl refl;
  empty = λ e. ground (arith, e);
  valid = refl;
  laid = (refl, omega arith, (refl, omega arith, refl));
  unused = replicate-Unused 13;
}

dropped-IsSized : IsSized dropped
dropped-IsSized = record {
  checksum = omega arith;
  flags = omega arith;
  offset = omega arith;
  io_size = omega arith;
  lsid_local = omega arith;
  lsid = omega arith;
}

behind_discard-IsSized : IsSized behind_discard
behind_discard-IsSized = record {
  checksum = omega arith;
  flags = omega arith;
  offset = omega arith;
  io_size = omega arith;
  lsid_local = omega arith;
  lsid = omega arith;
}

discard_first-IsSector : IsSector 512 discard_first behind
discard_first-IsSector = record {
  records = (dropped-IsSized, (behind_discard-IsSized, blank 13));
  behind_words = (omega arith, (omega arith, tt));
  size = refl;
}

cut_header-discards_example :
    ((cut_header 512 11 1 discard_first behind).total_io_size ≡ 0)
    × (is_valid_logpack_header_and_records_with_checksum
          (cut_header 512 11 1 discard_first behind)
          (header_bytes (cut_header 512 11 1 discard_first behind) behind)
          512
          11
        ≡ true)
cut_header-discards_example =
    cut_header-discards 512 70000 11 discard_first discard_first-IsOpen behind
      discard_first-IsSector (omega arith) (omega arith) (omega arith) 1 (omega arith) (omega arith)
      (refl, tt)
