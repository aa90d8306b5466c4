-- ===== src/Freeze/Steps.antt =====
-- Freezing and melting (module/wdev_util.c, module/wdev_ioctl.c) by any number of threads, in every order.
use walb_driver.Common.{ℕ, ◌+◌, ◌-◌, ◌<◌, ◌≡◌, Bool, true, false, if◌then◌else◌}
use walb_driver.Checkpoint.{init_checkpointing}
use walb_driver.Iocore.{Iocore}
use walb_driver.Freeze.{
  FreezeState, melted, Freezing, task_melt, cancel_melt_begin, cancel_melt_end, freeze_if_melted,
  melt_if_frozen, freeze_for_reset_wal, melt_for_reset_wal,
}

-- How many threads wait in cancel_melt_work, and how many reset the log.
pub record Threads : Type 0 where
  pub device : Freezing
  pub canceling : ℕ
  pub resetting : ℕ

unfoldable pub start_threads : Iocore → ℕ → Threads
start_threads core interval = record {
  device = record {
    freeze_state = melted;
    core = core;
    cp = init_checkpointing interval;
    melt_work = false;
  };
  canceling = 0;
  resetting = 0;
}

-- `R`: in which states the log may be reset.
module _ (R : FreezeState → Type 0) where
  pub data Step (s t : Threads) : Type 0 where
    -- The work.
    work : s.device.melt_work ≡ true → t ≡ record s { device = task_melt s.device } → Step s t
    -- cancel_melt_work.
    cancel_first :
        t ≡ (
          let (should_cancel_work, d) = cancel_melt_begin s.device in
          record s {
            device = d;
            canceling = if should_cancel_work then s.canceling + 1 else s.canceling;
          })
        → Step s t
    cancel_last :
        0 < s.canceling
        → t ≡ record s { device = cancel_melt_end s.device; canceling = s.canceling - 1 }
        → Step s t
    -- ioctl_wdev_freeze and ioctl_wdev_melt behind their call of cancel_melt_work.
    freeze :
        (timeout_sec : ℕ)
        → t ≡ record s { device = (freeze_if_melted timeout_sec s.device).1 }
        → Step s t
    melt :
        (restarts_checkpointing : Bool)
        → t ≡ record s { device = (melt_if_frozen restarts_checkpointing s.device).1 }
        → Step s t
    -- ioctl_wdev_clear_log, which goes on if freeze_for_reset_wal says so.
    reset_first :
        R s.device.freeze_state
        → t ≡ (
            let (ok, d) = freeze_for_reset_wal s.device in
            record s { device = d; resetting = if ok then s.resetting + 1 else s.resetting })
        → Step s t
    reset_last :
        0 < s.resetting
        → t ≡ record s { device = melt_for_reset_wal s.device; resetting = s.resetting - 1 }
        → Step s t

  pub data Reach (s : Threads) : Threads → Type 0 where
    here : Reach s s
    next : {t u : Threads} → Reach s t → Step t u → Reach s u
