-- ===== src/Freeze/Reset.antt =====
-- The reset of the log while the melt work is being cancelled (module/wdev_ioctl.c): the device ends up melted while
-- its state says that it is frozen.
use walb_driver.Common.{ℕ, ◌<◌, ◌≡◌, refl, true, false, Bool, arith, lt→ltb}
use walb_driver.Checkpoint.{init_checkpointing}
use walb_driver.Iocore.{Iocore}
use walb_driver.Freeze.{
  FreezeState, melted, frozen, frozen_timeo, canceling, stop_checkpointing, iocore_freeze,
  iocore_melt, freeze_if_melted, cancel_melt_begin, cancel_melt_end, freeze_for_reset_wal,
  melt_for_reset_wal, is_device_frozen,
}
use walb_driver.Freeze.Agree.{melt_usr}
use walb_driver.Freeze.Steps.{
  Threads, start_threads, Step, freeze, cancel_first, cancel_last, reset_first, reset_last, Reach,
  here, next,
}

abbrev Anywhere : FreezeState → Type 0
Anywhere f = Unit

module _ (core : Iocore) (interval timeout_sec : ℕ) (h : 0 < timeout_sec) where
  abbrev at : FreezeState → Iocore → Bool → (c r : ℕ) → Threads
  at f k w c r = record {
    device = record {
      freeze_state = f;
      core = k;
      cp = stop_checkpointing (init_checkpointing interval);
      melt_work = w;
    };
    canceling = c;
    resetting = r;
  }

  abbrev k : Iocore
  k = iocore_freeze core

  frozen_first : Step Anywhere (start_threads core interval) (at frozen_timeo k true 0 0)
  unfolding start_threads freeze_if_melted
  frozen_first = freeze timeout_sec (rw (lt→ltb 0 timeout_sec h) refl)

  cancelling : Step Anywhere (at frozen_timeo k true 0 0) (at canceling k true 1 0)
  unfolding cancel_melt_begin
  cancelling = cancel_first refl

  reset : Step Anywhere (at canceling k true 1 0) (at canceling k true 1 1)
  unfolding freeze_for_reset_wal
  reset = reset_first tt refl

  reset_done : Step Anywhere (at canceling k true 1 1) (at melted (iocore_melt k) true 1 0)
  unfolding melt_for_reset_wal
  reset_done = reset_last (omega arith) refl

  cancelled :
      Step Anywhere (at melted (iocore_melt k) true 1 0) (at frozen (iocore_melt k) false 0 0)
  unfolding cancel_melt_end
  cancelled = cancel_last (omega arith) refl

  -- A device is frozen with a timeout, a thread begins to cancel the melt work, another thread resets the log, and
  -- the first thread goes on. Then ioctl_wdev_is_frozen answers that the device is frozen, while no user
  -- freezes the queue of the writes.
  pub reset_in_canceling-melted :
      (t : Threads) × Reach Anywhere (start_threads core interval) t
      × (is_device_frozen t.device ≡ true)
      × (t.device.core.is_frozen_usr ≡ false)
  unfolding is_device_frozen
  reset_in_canceling-melted = (
    at frozen (iocore_melt k) false 0 0,
    next (next (next (next (next here frozen_first) cancelling) reset) reset_done) cancelled,
    refl,
    melt_usr k,
  )
