-- ===== src/Redo/Pack.antt =====
-- redo_logpack (module/redo.c) on a logpack whose first records are intact.
use mathlib.Core.List.{append_assoc, append-nil}
use walb_driver.Common.{
  ℕ, suc, ◌+◌, ◌-◌, ◌<◌, ◌≡◌, sym, ap, ◌∙◌, Bool, true, false, none, List, [], ◌∷◌, ◌++◌, All,
  length, arith, u16_mod, add_u64,
}
use walb_driver.Block.{is_valid_pbs}
use walb_driver.Logpack.{LogRecord, LogpackHeader}
use walb_driver.Redo.{
  LogBlock, RedoIo, invalid_at, continued, redo_records, finish_redo, redo_logpack,
}
use walb_driver.Redo.Replay.{IsIntact, IsTorn, ios_of, redo_record-IsIntact, redo_record-IsTorn}

-- Records with the blocks of the log that belong to them.
pub record Entry : Type 0 where
  pub rec : LogRecord
  pub blocks : List LogBlock

abbrev pub recs_of : List Entry → List LogRecord
recs_of [] = []
recs_of (e ∷ es) = e.rec ∷ recs_of es

abbrev pub blocks_of : List Entry → List LogBlock
blocks_of [] = []
blocks_of (e ∷ es) = e.blocks ++ blocks_of es

module _ (pbs salt : ℕ) (supports_discard : Bool) where
  abbrev pub replayed : List Entry → List RedoIo
  replayed [] = []
  replayed (e ∷ es) = ios_of pbs salt supports_discard e.rec e.blocks ++ replayed es

  module _ (v : is_valid_pbs pbs ≡ true) (block_small : pbs < u16_mod) where
    intact_step :
        (rec : LogRecord) (bs : List LogBlock)
        → IsIntact pbs salt rec bs
        → (i n : ℕ) (recs : List LogRecord) (pack : List LogBlock) (ready : List RedoIo)
        → redo_records pbs supports_discard salt i (suc n) (rec ∷ recs) (bs ++ pack) ready
          ≡ redo_records pbs supports_discard salt
              (i + 1)
              n
              recs
              pack
              (ready ++ ios_of pbs salt supports_discard rec bs)
    unfolding redo_records
    intact_step rec bs a i n recs pack ready =
        ap
          (continued
            (λ pack' ready'. redo_records pbs supports_discard salt (i + 1) n recs pack' ready') i
            ready)
          (redo_record-IsIntact pbs salt v block_small supports_discard a pack)

    torn_step :
        (rec : LogRecord) (bs : List LogBlock)
        → IsTorn pbs salt rec bs
        → (i n : ℕ) (recs : List LogRecord) (pack : List LogBlock) (ready : List RedoIo)
        → redo_records pbs supports_discard salt i (suc n) (rec ∷ recs) (bs ++ pack) ready
          ≡ invalid_at i ready
    unfolding redo_records
    torn_step rec bs t i n recs pack ready =
        ap
          (continued
            (λ pack' ready'. redo_records pbs supports_discard salt (i + 1) n recs pack' ready') i
            ready)
          (redo_record-IsTorn pbs salt v block_small supports_discard t pack)

    -- The loop goes through intact records.
    through :
        (es : List Entry)
        → All (λ e. IsIntact pbs salt e.rec e.blocks) es
        → (i m : ℕ) (recs : List LogRecord) (pack : List LogBlock) (ready : List RedoIo)
        → redo_records pbs supports_discard salt i
            (length es + m)
            (recs_of es ++ recs)
            (blocks_of es ++ pack)
            ready
          ≡ redo_records pbs supports_discard salt
              (i + length es)
              m
              recs
              pack
              (ready ++ replayed es)
    through [] a i m recs pack ready =
        ap (λ n. redo_records pbs supports_discard salt i n recs pack ready) {x = 0 + m} {y = m}
          (omega arith)
        ∙ ap (λ k. redo_records pbs supports_discard salt k m recs pack ready) {x = i} {y = i + 0}
            (omega arith)
        ∙ ap (redo_records pbs supports_discard salt (i + 0) m recs pack) (sym (append-nil ready))
    through (e ∷ es) a i m recs pack ready =
        ap
          (λ b.
            redo_records pbs supports_discard salt i (suc (length es) + m)
              (e.rec ∷ (recs_of es ++ recs)) b ready)
          (append_assoc e.blocks (blocks_of es) pack)
        ∙ ap
            (λ n.
              redo_records pbs supports_discard salt i n (e.rec ∷ (recs_of es ++ recs))
                (e.blocks ++ (blocks_of es ++ pack)) ready)
            {x = suc (length es) + m} {y = suc (length es + m)} (omega arith)
        ∙ intact_step e.rec e.blocks a.0 i (length es + m) (recs_of es ++ recs)
            (blocks_of es ++ pack) ready
        ∙ through es a.1 (i + 1) m recs pack
            (ready ++ ios_of pbs salt supports_discard e.rec e.blocks)
        ∙ ap
            (λ k.
              redo_records pbs supports_discard salt k m recs pack
                ((ready ++ ios_of pbs salt supports_discard e.rec e.blocks) ++ replayed es))
            {x = i + 1 + length es} {y = i + suc (length es)} (omega arith)
        ∙ ap (redo_records pbs supports_discard salt (i + suc (length es)) m recs pack)
            (append_assoc ready (ios_of pbs salt supports_discard e.rec e.blocks) (replayed es))

    -- redo_logpack on a logpack all of whose records are intact: every record is written to the data device
    -- in order, and the next logpack follows behind.
    pub redo_logpack-intact :
        (es : List Entry) (h : LogpackHeader) (unused : List LogRecord)
        → h.records ≡ recs_of es ++ unused
        → h.n_records ≡ length es
        → All (λ e. IsIntact pbs salt e.rec e.blocks) es
        → (write_ok : Bool) (written_lsid : ℕ) (behind : List ℕ)
        → redo_logpack pbs salt supports_discard write_ok written_lsid h behind (blocks_of es)
          ≡ record {
            ok = true;
            submitted = replayed es;
            header = none;
            written_lsid = add_u64 (add_u64 h.logpack_lsid 1) h.total_io_size;
            should_terminate = false;
          }
    unfolding redo_logpack redo_records finish_redo
    redo_logpack-intact es h unused e n a write_ok written_lsid behind =
        ap (finish_redo pbs salt supports_discard write_ok written_lsid h behind)
          (looped ∙ through es a 0 0 unused [] [])
      where
        looped :
            redo_records pbs supports_discard salt 0 h.n_records h.records (blocks_of es) []
            ≡ redo_records pbs supports_discard salt 0
                (length es + 0)
                (recs_of es ++ unused)
                (blocks_of es ++ [])
                []
        looped =
            ap (λ k. redo_records pbs supports_discard salt 0 k h.records (blocks_of es) [])
              {y = length es + 0} (omega (arith, n))
            ∙ ap (λ r. redo_records pbs supports_discard salt 0 (length es + 0) r (blocks_of es) [])
                e
            ∙ ap
                (λ b.
                  redo_records pbs supports_discard salt 0 (length es + 0) (recs_of es ++ unused) b
                    [])
                (sym (append-nil (blocks_of es)))

    -- redo_logpack on a logpack with a torn record behind intact ones: the intact ones are written to the data
    -- device in order, nothing else is, and redo ends; if there are intact ones and the write succeeds, the
    -- header on the log device is cut to them.
    pub redo_logpack-torn :
        (es : List Entry) (t : Entry) (more : List LogBlock) (h : LogpackHeader)
        (unused : List LogRecord)
        → h.records ≡ recs_of es ++ t.rec ∷ unused
        → length es < h.n_records
        → All (λ e. IsIntact pbs salt e.rec e.blocks) es
        → IsTorn pbs salt t.rec t.blocks
        → (write_ok : Bool) (written_lsid : ℕ) (behind : List ℕ)
        → redo_logpack pbs salt supports_discard write_ok written_lsid h behind
            (blocks_of es ++ (t.blocks ++ more))
          ≡ finish_redo pbs salt supports_discard write_ok written_lsid h behind
              (invalid_at (length es) (replayed es))
    unfolding redo_logpack
    redo_logpack-torn es t more h unused e n a torn write_ok written_lsid behind =
        ap (finish_redo pbs salt supports_discard write_ok written_lsid h behind) (
          looped
          ∙ through es a 0 (suc (h.n_records - length es - 1)) (t.rec ∷ unused) (t.blocks ++ more)
              []
          ∙ torn_step t.rec t.blocks torn (0 + length es) (h.n_records - length es - 1) unused more
              (replayed es)
          ∙ ap (λ k. invalid_at k (replayed es)) {x = 0 + length es} {y = length es} (omega arith))
      where
        looped :
            redo_records pbs supports_discard salt 0 h.n_records h.records
              (blocks_of es ++ (t.blocks ++ more))
              []
            ≡ redo_records pbs supports_discard salt 0
                (length es + suc (h.n_records - length es - 1))
                (recs_of es ++ t.rec ∷ unused)
                (blocks_of es ++ (t.blocks ++ more))
                []
        looped =
            ap
              (λ k.
                redo_records pbs supports_discard salt 0 k h.records
                  (blocks_of es ++ (t.blocks ++ more)) [])
              {y = length es + suc (h.n_records - length es - 1)} (omega (arith, n))
            ∙ ap
                (λ r.
                  redo_records pbs supports_discard salt 0
                    (length es + suc (h.n_records - length es - 1)) r
                    (blocks_of es ++ (t.blocks ++ more)) [])
                e
