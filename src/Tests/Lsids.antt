-- ===== src/Tests/Lsids.antt =====
-- The lsids of a device (module/io.c) with concrete logpacks.
use walb_driver.Common.{◌<◌, ◌≡◌, refl, true, false, none, some, [], ◌∷◌, arith}
use walb_driver.Lsid.{init_lsids, lsid_set_is_valid, store_latest, set_completed}
use walb_driver.Lsid.Pipeline.{LogPack, Pipe, start_pipe, Reach, here, next, create, complete}
use walb_driver.Lsid.Steps.{Reach-valid}
use walb_driver.Lsid.Tail.{padded, padded_tail-invalid}

abbrev full_pack : LogPack
full_pack = record { end = 120; last = some 120; new_permanent = none }

-- The pack has come, and is waited for.
abbrev complete_pack : Pipe
complete_pack = record {
  log = record {
    lsids = record {
      latest = 120;
      completed = 120;
      flush = 100;
      permanent = 100;
      written = 100;
      prev_written = 100;
      oldest = 90;
    };
    log_flush_jiffies = 0;
    read_only = false;
  };
  waiting = [];
  gc = full_pack ∷ [];
  flushing = [];
  syncing = none;
  setting = none;
}

Reach-valid_example : lsid_set_is_valid complete_pack.log.lsids ≡ true
unfolding start_pipe init_lsids store_latest set_completed
Reach-valid_example = Reach-valid {oldest = 90} {written = 100} (omega arith) (
    next
      (next here (
        create 0 0 120 false (full_pack ∷ []) (omega arith, omega arith, refl) (refl, tt) (refl, tt)
          refl))
      (complete full_pack [] refl refl))

padded_tail-invalid_example :
    (t : Pipe) × Reach (λ p. p ≡ padded 110 120) (start_pipe 100 100) t
    × (t.log.lsids.permanent < t.log.lsids.written)
    × (lsid_set_is_valid t.log.lsids ≡ false)
padded_tail-invalid_example = padded_tail-invalid 100 110 120 (omega arith) (omega arith)
