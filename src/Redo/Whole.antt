-- ===== src/Redo/Whole.antt =====
-- execute_redo (module/redo.c) on a log of which it is known where the first torn record stands.
use mathlib.Core.Option
use walb_driver.Common.{
  ℕ, zero, suc, ◌<◌, ◌≡◌, refl, ap, ◌∙◌, Bool, true, false, Option, none, some, List, [], ◌∷◌, ◌++◌,
  All, length, arith, u16_mod, add_u64,
}
use walb_driver.Block.{is_valid_pbs}
use walb_driver.Logpack.{LogRecord, LogpackHeader}
use walb_driver.Lsid.{LsidSet}
use walb_driver.Redo.{LogBlock, RedoIo, invalid_at, cut_header, finish_redo, redo_logpack}
use walb_driver.Redo.Replay.{IsIntact, IsTorn}
use walb_driver.Redo.Pack.{
  Entry, recs_of, blocks_of, replayed, redo_logpack-intact, redo_logpack-torn,
}
use walb_driver.Redo.Log.{
  blocks_from, ended, RedoEnd, Round, more, after_redo, onward, get_logpack_header_for_redo,
  redo_found, redo_log, redo_lsids, end_redo, execute_redo,
}

module _ (pbs salt : ℕ) (supports_discard : Bool) (log : ℕ → LogBlock) where
  -- The header of a logpack stands at an lsid, and `pack` are the blocks behind it.
  pub record IsPack (lsid : ℕ) (h : LogpackHeader) (behind : List ℕ) (pack : List LogBlock)
      : Type 0 where
    pub found :
        get_logpack_header_for_redo pbs salt supports_discard true log lsid ≡ some (h, behind)
    pub readable : (log lsid).failed ≡ false
    pub blocks : blocks_from log (add_u64 lsid 1) h.total_io_size ≡ pack

  abbrev pub AllIntact : List Entry → Type 0
  AllIntact es = All (λ e. IsIntact pbs salt e.rec e.blocks) es

  -- The log from an lsid on: `n` logpacks with intact records only, and what ends them. `ios`: the bios of the
  -- intact records, in order. `header`: the header of the logpack with a torn record, cut to the intact ones in
  -- front of it if there are any; of these, some take room in the log. `end`: where the intact part of the log ends.
  pub data Recorded
      : (lsid n : ℕ)
        → (ios : List RedoIo) → (header : Option LogpackHeader) → (end : ℕ) → Type 0 where
    nothing :
        (lsid : ℕ)
        → get_logpack_header_for_redo pbs salt supports_discard true log lsid ≡ none
        → Recorded lsid 0 [] none lsid
    first_torn :
        (lsid : ℕ) (h : LogpackHeader) (behind : List ℕ) (t : Entry) (rest : List LogBlock)
        (unused : List LogRecord)
        → IsPack lsid h behind (t.blocks ++ rest)
        → h.records ≡ t.rec ∷ unused
        → 0 < h.n_records
        → IsTorn pbs salt t.rec t.blocks
        → Recorded lsid 0 [] none h.logpack_lsid
    later_torn :
        (lsid : ℕ) (h : LogpackHeader) (behind : List ℕ) (e : Entry) (es : List Entry) (t : Entry)
        → (rest : List LogBlock) (unused : List LogRecord)
        → IsPack lsid h behind (blocks_of (e ∷ es) ++ (t.blocks ++ rest))
        → h.records ≡ recs_of (e ∷ es) ++ t.rec ∷ unused
        → length (e ∷ es) < h.n_records
        → AllIntact (e ∷ es)
        → IsTorn pbs salt t.rec t.blocks
        → 0 < (cut_header pbs salt (suc (length es)) h behind).total_io_size
        → Recorded lsid 0
            (replayed pbs salt supports_discard (e ∷ es))
            (some (cut_header pbs salt (suc (length es)) h behind))
            (add_u64
              (add_u64 h.logpack_lsid 1)
              (cut_header pbs salt (suc (length es)) h behind).total_io_size)
    intact :
        (lsid n : ℕ) (h : LogpackHeader) (behind : List ℕ) (es : List Entry)
        (unused : List LogRecord)
        → (ios : List RedoIo) (header : Option LogpackHeader) (end : ℕ)
        → IsPack lsid h behind (blocks_of es)
        → h.records ≡ recs_of es ++ unused
        → h.n_records ≡ length es
        → AllIntact es
        → Recorded (add_u64 (add_u64 h.logpack_lsid 1) h.total_io_size) n ios header end
        → Recorded lsid (suc n) (replayed pbs salt supports_discard es ++ ios) header end

  module _ (v : is_valid_pbs pbs ≡ true) (block_small : pbs < u16_mod) where
    -- A round on a logpack.
    round :
        (lsid : ℕ) (h : LogpackHeader) (behind : List ℕ) (pack : List LogBlock)
        → IsPack lsid h behind pack
        → redo_found pbs salt supports_discard true log lsid
            (get_logpack_header_for_redo pbs salt supports_discard true log lsid)
          ≡ after_redo (redo_logpack pbs salt supports_discard true lsid h behind pack)
    round lsid h behind pack p = rw (p.found, p.readable, p.blocks) refl

    abbrev pub success : List RedoIo → Option LogpackHeader → ℕ → RedoEnd
    success ios header end = record {
      failed = false;
      submitted = ios;
      header = header;
      written_lsid = end;
    }

    stepped :
        (lsid fuel : ℕ) (r : Round)
        → redo_found pbs salt supports_discard true log lsid
            (get_logpack_header_for_redo pbs salt supports_discard true log lsid)
          ≡ r
        → redo_log pbs salt supports_discard true log (suc fuel) lsid
          ≡ onward (λ l. redo_log pbs salt supports_discard true log fuel l) r
    unfolding redo_log
    stepped lsid fuel r e = ap (onward (λ l. redo_log pbs salt supports_discard true log fuel l)) e

    -- The loop of execute_redo on a log whose blocks are readable, with fuel for one round a logpack and one
    -- more: it returns, without failure. It submits the bios of the intact records in front of the first torn one,
    -- in order, and no others; it writes back the header of the logpack with the torn record, cut to the intact
    -- ones, if there are any; and written_lsid becomes the end of the intact part. The write of that header
    -- succeeds, it passes the assertion that its total_io_size is not 0, and the block size is valid and of
    -- sixteen bits.
    pub redo_log-Recorded :
        (fuel : ℕ) {lsid n : ℕ} {ios : List RedoIo} {header : Option LogpackHeader} {end : ℕ}
        → Recorded lsid n ios header end
        → n < fuel
        → redo_log pbs salt supports_discard true log fuel lsid ≡ some (success ios header end)
    unfolding finish_redo cut_header
    redo_log-Recorded zero r l = absurd (omega arith)
    redo_log-Recorded (suc fuel) (nothing lsid e) l =
        stepped lsid fuel (ended pbs salt supports_discard true log false lsid)
          (ap (redo_found pbs salt supports_discard true log lsid) e)
    redo_log-Recorded (suc fuel) (first_torn lsid h behind t rest unused p e n torn) l =
        stepped lsid fuel
          (after_redo (finish_redo pbs salt supports_discard true lsid h behind (invalid_at 0 [])))
          (round lsid h behind (t.blocks ++ rest) p
            ∙ ap after_redo (
                redo_logpack-torn pbs salt supports_discard v block_small [] t rest h unused e n tt
                  torn true lsid behind))
    redo_log-Recorded (suc fuel) (later_torn lsid h behind e es t rest unused p f n a torn total)
          l =
        stepped lsid fuel
          (after_redo (
            finish_redo pbs salt supports_discard true lsid h behind
              (invalid_at (length (e ∷ es)) (replayed pbs salt supports_discard (e ∷ es)))))
          (round lsid h behind (blocks_of (e ∷ es) ++ (t.blocks ++ rest)) p
            ∙ ap after_redo (
                redo_logpack-torn pbs salt supports_discard v block_small (e ∷ es) t rest h unused f
                  n a torn true lsid behind))
    redo_log-Recorded (suc fuel) (intact lsid n h behind es unused ios header end p e c a r) l =
        stepped lsid fuel
          (more (replayed pbs salt supports_discard es)
            (add_u64 (add_u64 h.logpack_lsid 1) h.total_io_size))
          (round lsid h behind (blocks_of es) p
            ∙ ap after_redo (
                redo_logpack-intact pbs salt supports_discard v block_small es h unused e c a true
                  lsid behind))
        ∙ ap
            (Option.map (λ (x : RedoEnd). record x {
              submitted = replayed pbs salt supports_discard es ++ x.submitted;
            }))
            (redo_log-Recorded fuel r (omega (arith, l)))

    -- With the same: execute_redo succeeds, and all lsids but the oldest become the end of the intact part.
    pub execute_redo-Recorded :
        {n : ℕ} {ios : List RedoIo} {header : Option LogpackHeader} {end : ℕ}
        → (lsids : LsidSet) → Recorded lsids.written n ios header end
        → (fuel : ℕ) → n < fuel
        → execute_redo pbs salt supports_discard true log fuel lsids
          ≡ some (true, redo_lsids pbs salt supports_discard true log end lsids)
    unfolding execute_redo
    execute_redo-Recorded lsids r fuel l =
        ap (Option.map (end_redo pbs salt supports_discard true log lsids))
          (redo_log-Recorded fuel r l)
