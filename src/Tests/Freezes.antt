-- ===== src/Tests/Freezes.antt =====
-- Freezing and melting (module/wdev_util.c) with a concrete device.
use walb_driver.Common.{◌≡◌, refl, true, false, [], ◌∷◌, arith}
use walb_driver.Checkpoint.{init_checkpointing}
use walb_driver.Iocore.{Iocore}
use walb_driver.Freeze.{
  frozen_timeo, stop_checkpointing, iocore_freeze, freeze_if_melted, is_device_frozen,
}
use walb_driver.Freeze.Steps.{Threads, start_threads, Reach, freeze, here, next}
use walb_driver.Freeze.Agree.{IsTimed, Reach-told}
use walb_driver.Freeze.Reset.{reset_in_canceling-melted}

abbrev running_core : Iocore
running_core = record {
  is_frozen_sys = false;
  is_frozen_usr = false;
  frozen_queue = [];
  logpack_submit_queue = 4 ∷ [];
  working = true;
}

abbrev frozen_device : Threads
frozen_device = record {
  device = record {
    freeze_state = frozen_timeo;
    core = iocore_freeze running_core;
    cp = stop_checkpointing (init_checkpointing 1000);
    melt_work = true;
  };
  canceling = 0;
  resetting = 0;
}

Reach-told_example :
    (frozen_device.device.core.is_frozen_usr ≡ is_device_frozen frozen_device.device)
    × (IsTimed frozen_device.device.freeze_state → frozen_device.device.melt_work ≡ true)
unfolding start_threads freeze_if_melted
Reach-told_example =
    Reach-told running_core 1000 {t = frozen_device} refl (next here (freeze 30 refl))

reset_in_canceling-melted_example :
    (t : Threads) × Reach (λ f. Unit) (start_threads running_core 1000) t
    × (is_device_frozen t.device ≡ true)
    × (t.device.core.is_frozen_usr ≡ false)
reset_in_canceling-melted_example = reset_in_canceling-melted running_core 1000 30 (omega arith)
