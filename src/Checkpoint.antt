-- ===== src/Checkpoint.antt =====
-- module/checkpoint.c: the checkpoint task and its control. One thread starts and stops checkpointing;
-- its steps and those of the task come in any order, each under the lock of the checkpoint data.
pub mod Safe
use walb_driver.Common.{ℕ, Bool, true, false, ◌==◌, if◌then◌else◌, Option, none, some}

-- CP_STOPPED, CP_STOPPING, CP_WAITING, CP_RUNNING
pub data CpState : Type 0 where
  stopped stopping waiting running : CpState

-- The delayed work: not queued, queued, or taking a checkpoint between its two locked parts.
pub data Work : Type 0 where
  idle queued taking : Work

-- `cancelling`: the control waits in cancel_delayed_work_sync.
pub record Checkpoint : Type 0 where
  pub interval : ℕ
  pub state : CpState
  pub work : Work
  pub cancelling : Bool

unfoldable pub init_checkpointing : ℕ → Checkpoint
init_checkpointing default_interval = record {
  interval = default_interval;
  state = stopped;
  work = idle;
  cancelling = false;
}

unfoldable pub start_checkpointing : Checkpoint → Checkpoint
start_checkpointing c = elim c.state [
  | stopped ↦ if c.interval == 0 then c else record c { state = waiting; work = queued }
  | other ↦ c
]

-- stop_checkpointing up to the cancel, and from its return on.
unfoldable pub stop_begin : Checkpoint → Checkpoint
stop_begin c = elim c.state [
  | waiting ↦ record c { state = stopping; cancelling = true }
  | running ↦ record c { state = stopping; cancelling = true }
  | other ↦ c
]

unfoldable pub stop_end : Checkpoint → Checkpoint
stop_end c = record c { state = stopped; work = idle; cancelling = false }

-- task_do_checkpointing up to the checkpoint. none: a bad state, on which it warns of a bug. What it does
-- behind that warning, where it goes on to the checkpoint, is not modelled.
unfoldable pub task_begin : Checkpoint → Option Checkpoint
task_begin c = elim c.state [
  | stopping ↦ some (record c { work = idle })
  | waiting ↦ some (record c { state = running; work = taking })
  | other ↦ none
]

-- The rest of it, with the result of take_checkpoint.
unfoldable pub task_end : Bool → Checkpoint → Checkpoint
task_end false c = record c { state = stopped; work = idle }
task_end true c = elim c.state [
  | running ↦ record c { state = waiting; work = queued }
  | other ↦ record c { work = idle }
]
