-- ===== src/Redo/Log.antt =====
-- execute_redo (module/redo.c): redo of the log from written_lsid on. The log is a function from lsids to blocks.
use mathlib.Core.Option
use walb_driver.Common.{
  ℕ, zero, suc, ◌+◌, ◌*◌, ◌/◌, ◌%◌, Bool, true, false, not, ◌&&◌, Option, none, some, List, [], ◌∷◌,
  ◌++◌, ◌==◌, if◌then◌else◌, u16_mod, u32_mod, add_u64,
}
use walb_driver.Checksum.Total.{words_of}
use walb_driver.Logpack.{
  LogRecord, LogpackHeader, max_n_log_record_in_sector, is_valid_logpack_header_with_checksum,
}
use walb_driver.Lsid.{LsidSet}
use walb_driver.Redo.{LogBlock, RedoIo, Redone, redo_logpack}

-- A header sector read as a header; the second part is what stands behind the slots.
abbrev pub slots_of : ℕ → List ℕ → List LogRecord × List ℕ
slots_of (suc n) (w0 ∷ w1 ∷ w2 ∷ w3 ∷ w4 ∷ w5 ∷ w6 ∷ w7 ∷ ws) =
    let (recs, behind) = slots_of n ws in
    (
      record {
        checksum = w0;
        flags = w1;
        offset = w2 + u32_mod * w3;
        io_size = w4;
        lsid_local = w5 % u16_mod;
        lsid = w6 + u32_mod * w7;
      }
          ∷ recs,
      behind,
    )
slots_of n ws = ([], ws)

abbrev pub header_of_words : ℕ → List ℕ → LogpackHeader × List ℕ
header_of_words pbs (w0 ∷ w1 ∷ w2 ∷ w3 ∷ w4 ∷ w5 ∷ ws) =
    let (recs, behind) = slots_of (max_n_log_record_in_sector pbs) ws in
    (
      record {
        checksum = w0;
        sector_type = w1 % u16_mod;
        total_io_size = w1 / u16_mod;
        logpack_lsid = w2 + u32_mod * w3;
        n_records = w4 % u16_mod;
        n_padding = w4 / u16_mod;
        records = recs;
      },
      behind,
    )
header_of_words pbs ws = (
  record {
    checksum = 0;
    sector_type = 0;
    total_io_size = 0;
    logpack_lsid = 0;
    n_records = 0;
    n_padding = 0;
    records = [];
  },
  ws,
)

unfoldable pub header_of : ℕ → List ℕ → LogpackHeader × List ℕ
header_of pbs bytes = header_of_words pbs (words_of bytes)

-- The blocks that the read-ahead queue holds from an lsid on.
abbrev pub blocks_from : (ℕ → LogBlock) → ℕ → ℕ → List LogBlock
blocks_from log lsid zero = []
blocks_from log lsid (suc n) = log lsid ∷ blocks_from log (add_u64 lsid 1) n

-- What redo comes to: whether it failed, the bios submitted, the header written back, and written_lsid.
pub record RedoEnd : Type 0 where
  pub failed : Bool
  pub submitted : List RedoIo
  pub header : Option LogpackHeader
  pub written_lsid : ℕ

-- A round of the loop: the end, or the bios submitted and the lsid of the next logpack.
pub data Round : Type 0 where
  finished : RedoEnd → Round
  more : List RedoIo → ℕ → Round

abbrev pub after_redo : Redone → Round
after_redo r =
    if r.ok && not r.should_terminate
    then more r.submitted r.written_lsid
    else finished (record {
      failed = not r.ok;
      submitted = r.submitted;
      header = r.header;
      written_lsid = r.written_lsid;
    })

abbrev pub onward : (ℕ → Option RedoEnd) → Round → Option RedoEnd
onward next (finished e) = some e
onward next (more ios written_lsid) =
    Option.map (λ (e : RedoEnd). record e { submitted = ios ++ e.submitted }) (next written_lsid)

module _ (pbs salt : ℕ) (supports_discard write_ok : Bool) (log : ℕ → LogBlock) where
  -- get_logpack_header_for_redo.
  unfoldable pub get_logpack_header_for_redo : ℕ → Option (LogpackHeader × List ℕ)
  unfolding header_of
  get_logpack_header_for_redo written_lsid =
      let (h, behind) = header_of pbs ((log written_lsid).bytes) in
      if is_valid_logpack_header_with_checksum h ((log written_lsid).bytes) pbs salt
        && h.logpack_lsid == written_lsid
      then some (h, behind)
      else none

  abbrev pub ended : Bool → ℕ → Round
  ended failed written_lsid =
      finished
        (record { failed = failed; submitted = []; header = none; written_lsid = written_lsid })

  abbrev pub redo_found : ℕ → Option (LogpackHeader × List ℕ) → Round
  redo_found written_lsid none = ended false written_lsid
  redo_found written_lsid (some (h, behind)) =
      if (log written_lsid).failed
      then ended true written_lsid
      else after_redo (
          redo_logpack pbs salt supports_discard write_ok written_lsid h behind
            (blocks_from log (add_u64 written_lsid 1) h.total_io_size))

  unfoldable pub redo_log : ℕ → ℕ → Option RedoEnd
  unfolding get_logpack_header_for_redo
  redo_log zero written_lsid = none
  redo_log (suc fuel) written_lsid =
      onward (λ l. redo_log fuel l)
        (redo_found written_lsid (get_logpack_header_for_redo written_lsid))

  -- The lsids after redo: all but the oldest are written_lsid.
  unfoldable pub redo_lsids : ℕ → LsidSet → LsidSet
  redo_lsids written_lsid lsids = record lsids {
    latest = written_lsid;
    completed = written_lsid;
    flush = written_lsid;
    permanent = written_lsid;
    written = written_lsid;
    prev_written = written_lsid;
  }

  abbrev pub end_redo : LsidSet → RedoEnd → Bool × LsidSet
  end_redo lsids e = if e.failed then (false, lsids) else (true, redo_lsids e.written_lsid lsids)

  -- execute_redo up to the sync of the super sector.
  unfoldable pub execute_redo : ℕ → LsidSet → Option (Bool × LsidSet)
  unfolding redo_log redo_lsids
  execute_redo fuel lsids = Option.map (end_redo lsids) (redo_log fuel lsids.written)
