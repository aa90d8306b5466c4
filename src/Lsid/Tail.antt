-- ===== src/Lsid/Tail.antt =====
-- A logpack whose last record is a padding, and whose last write has REQ_FUA: the order of the lsids that
-- module/kern.h promises is lost although no IO fails.
use walb_driver.Common.{ℕ, ◌<◌, ◌≡◌, refl, false, none, some, List, [], ◌∷◌, arith, lt→ltb}
use walb_driver.Lsid.{
  lsid_set_is_valid, init_lsids, update_flush_lsid_if_necessary, force_flush_begin, force_flush_end,
  store_latest, raise_permanent, set_completed, set_written,
}
use walb_driver.Lsid.Pipeline.{
  LogPack, Pipe, start_pipe, Step, create, fua, complete, collect, flush_begin, flush_end, Reach,
  here, next,
}

-- The pack ends at `end`, behind a padding that stands behind its last write.
abbrev pub padded : ℕ → ℕ → LogPack
padded last end = record { end = end; last = some last; new_permanent = none }

module _ (w last end : ℕ) (h : w < last) (k : last < end) where
  abbrev at : (completed flush written jiffies : ℕ) → (waiting gc : List LogPack) → List ℕ → Pipe
  at completed flush written jiffies waiting gc flushing = record {
    log = record {
      lsids = record {
        latest = end;
        completed = completed;
        flush = flush;
        permanent = w;
        written = written;
        prev_written = w;
        oldest = w;
      };
      log_flush_jiffies = jiffies;
      read_only = false;
    };
    waiting = waiting;
    gc = gc;
    flushing = flushing;
    syncing = none;
    setting = none;
  }

  abbrev flushed : (completed written : ℕ) → (waiting gc : List LogPack) → Pipe
  flushed completed written waiting gc =
      let s = at completed last written 0 waiting gc [] in
      record s { log = record (s.log) { lsids = record (s.log.lsids) { permanent = last } } }

  abbrev P : LogPack → Type 0
  P p = p ≡ padded last end

  created : Step P (start_pipe w w) (at w w w 0 (padded last end ∷ []) [] [])
  unfolding start_pipe init_lsids store_latest
  created =
      create 0 0 end false (padded last end ∷ []) (omega arith, omega arith, refl) (refl, tt)
        (refl, tt) refl

  fua_done :
      Step P (at w w w 0 (padded last end ∷ []) [] []) (at last w w 0 (padded last end ∷ []) [] [])
  unfolding set_completed
  fua_done = fua (padded last end) [] last refl (omega arith) (omega arith) refl

  flush_started :
      Step P
        (at last w w 0 (padded last end ∷ []) [] [])
        (at last last w 0 (padded last end ∷ []) [] (last ∷ []))
  unfolding force_flush_begin update_flush_lsid_if_necessary
  flush_started = flush_begin 0 0 (rw (lt→ltb w last h) refl)

  flush_done :
      Step P
        (at last last w 0 (padded last end ∷ []) [] (last ∷ []))
        (flushed last w (padded last end ∷ []) [])
  unfolding force_flush_end raise_permanent
  flush_done = flush_end [] [] last refl (rw (lt→ltb w last h) refl)

  completed :
      Step P (flushed last w (padded last end ∷ []) []) (flushed end w [] (padded last end ∷ []))
  unfolding set_completed
  completed = complete (padded last end) [] refl refl

  collected : Step P (flushed end w [] (padded last end ∷ [])) (flushed end end [] [])
  unfolding set_written
  collected = collect (padded last end) [] refl (omega arith) refl

  -- A logpack that ends in a padding comes, its last write is done with REQ_FUA, the log device is flushed
  -- and permanent_lsid is raised to the end of that write; the rest of the pack is complete, the write goes
  -- to the data device, and the pack is collected. Then written_lsid is above permanent_lsid.
  pub padded_tail-invalid :
      (t : Pipe) × Reach P (start_pipe w w) t
      × (t.log.lsids.permanent < t.log.lsids.written)
      × (lsid_set_is_valid t.log.lsids ≡ false)
  unfolding lsid_set_is_valid
  padded_tail-invalid = (
    flushed end end [] [],
    next (next (next (next (next (next here created) fua_done) flush_started) flush_done) completed)
        collected,
    k,
    ground arith,
  )
