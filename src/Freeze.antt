-- ===== src/Freeze.antt =====
-- module/wdev_util.c and module/wdev_ioctl.c: freezing and melting a device by ioctl, with a timeout, and for the
-- reset of the log. Each function is one critical section under freeze_lock; the waits of iocore_freeze and
-- stop_checkpointing are part of it.
pub mod Steps
pub mod Agree
pub mod Reset
use walb_driver.Common.{ℕ, Bool, true, false, ltb, if◌then◌else◌}
use walb_driver.Checkpoint.{Checkpoint, waiting, running, start_checkpointing, stop_begin, stop_end}
use walb_driver.Iocore.{Iocore, freeze_detail, melt_detail, dispatch_submit_log_task}

-- FRZ_MELTED, FRZ_FROZEN, FRZ_FROZEN_TIMEO, FRZ_FROZEN_DEEP, FRZ_CANCELING
pub data FreezeState : Type 0 where
  melted frozen frozen_timeo frozen_deep canceling : FreezeState

-- `melt_work`: freeze_dwork is queued.
pub record Freezing : Type 0 where
  pub freeze_state : FreezeState
  pub core : Iocore
  pub cp : Checkpoint
  pub melt_work : Bool

unfoldable pub iocore_freeze : Iocore → Iocore
unfolding freeze_detail
iocore_freeze core = freeze_detail core true

unfoldable pub iocore_melt : Iocore → Iocore
unfolding melt_detail dispatch_submit_log_task
iocore_melt core =
    let (is_melted, core') = melt_detail core true in
    if is_melted then dispatch_submit_log_task core' else core'

-- stop_checkpointing as a whole.
abbrev pub stop_checkpointing : Checkpoint → Checkpoint
stop_checkpointing c = elim c.state [
  | waiting ↦ stop_end (stop_begin c)
  | running ↦ stop_end (stop_begin c)
  | other ↦ c
]

abbrev pub melt : Freezing → Freezing
melt s = record s { core = iocore_melt s.core; freeze_state = melted }

abbrev pub restart : Freezing → Freezing
restart s = record s { cp = start_checkpointing s.cp }

-- The work runs, and is then not queued.
unfoldable pub task_melt : Freezing → Freezing
unfolding iocore_melt
task_melt s = elim s.freeze_state [
  | frozen_timeo ↦ melt (restart (record s { melt_work = false }))
  | other ↦ record s { melt_work = false }
]

-- cancel_melt_work up to cancel_delayed_work_sync, and whether to call that; and what is behind it.
unfoldable pub cancel_melt_begin : Freezing → Bool × Freezing
cancel_melt_begin s = elim s.freeze_state [
  | frozen_timeo ↦ (true, record s { freeze_state = canceling })
  | other ↦ (false, s)
]

unfoldable pub cancel_melt_end : Freezing → Freezing
cancel_melt_end s = record s { freeze_state = frozen; melt_work = false }

abbrev pub set_timeout : ℕ → Freezing → Bool × Freezing
set_timeout timeout_sec s = (
  true,
  if ltb 0 timeout_sec then record s { freeze_state = frozen_timeo; melt_work = true } else s,
)

unfoldable pub freeze_if_melted : ℕ → Freezing → Bool × Freezing
unfolding iocore_freeze
freeze_if_melted timeout_sec s = elim s.freeze_state [
  | melted ↦ set_timeout timeout_sec (record s {
    core = iocore_freeze s.core;
    cp = stop_checkpointing s.cp;
    freeze_state = frozen;
  })
  | frozen ↦ set_timeout timeout_sec s
  | frozen_timeo ↦ (false, s)
  | frozen_deep ↦ (false, s)
  | canceling ↦ (true, s)
]

-- melt_if_frozen behind its call of cancel_melt_work.
unfoldable pub melt_if_frozen : Bool → Freezing → Bool × Freezing
unfolding iocore_melt
melt_if_frozen restarts_checkpointing s = elim s.freeze_state [
  | melted ↦ (true, s)
  | frozen ↦ (true, melt (if restarts_checkpointing then restart s else s))
  | canceling ↦ (false, s)
  | frozen_timeo ↦ (false, s)
  | frozen_deep ↦ (false, s)
]

-- The state FRZ_CANCELING is the default case of the switch, which warns and goes on.
unfoldable pub freeze_for_reset_wal : Freezing → Bool × Freezing
unfolding iocore_freeze
freeze_for_reset_wal s = elim s.freeze_state [
  | melted ↦ (true, record s { core = iocore_freeze s.core; freeze_state = frozen_deep })
  | frozen ↦ (false, s)
  | frozen_timeo ↦ (false, s)
  | frozen_deep ↦ (false, s)
  | canceling ↦ (true, s)
]

unfoldable pub melt_for_reset_wal : Freezing → Freezing
unfolding iocore_melt
melt_for_reset_wal s = melt s

-- ioctl_wdev_is_frozen.
unfoldable pub is_device_frozen : Freezing → Bool
is_device_frozen s = elim s.freeze_state [ melted ↦ false | other ↦ true ]
