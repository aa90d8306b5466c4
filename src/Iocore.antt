-- ===== src/Iocore.antt =====
-- module/io.c: the queue of the writes that wait for the log, and how it is frozen and melted. Two
-- users freeze it, the driver itself (is_frozen_sys) and an ioctl (is_frozen_usr).
pub mod Order
pub mod Awake
use walb_driver.Common.{
  ℕ, ◌+◌, Bool, true, false, not, ◌||◌, List, [], ◌∷◌, ◌++◌, leb, if◌then◌else◌,
}
use walb_driver.Writepack.{is_empty}

-- The part of struct iocore_data under logpack_submit_queue_lock, and the bit
-- IOCORE_STATE_SUBMIT_LOG_TASK_WORKING.
pub record Iocore : Type 0 where
  pub is_frozen_sys : Bool
  pub is_frozen_usr : Bool
  pub frozen_queue : List ℕ
  pub logpack_submit_queue : List ℕ
  pub working : Bool

abbrev pub is_frozen : Iocore → Bool
is_frozen s = s.is_frozen_sys || s.is_frozen_usr

unfoldable pub set_frozen : Iocore → Bool → Bool → Iocore
set_frozen s true value = record s { is_frozen_usr = value }
set_frozen s false value = record s { is_frozen_sys = value }

unfoldable pub make_frozen_queue_empty : Iocore → Iocore
make_frozen_queue_empty s = if is_empty s.frozen_queue then s else record s {
  logpack_submit_queue = s.logpack_submit_queue ++ s.frozen_queue;
  frozen_queue = [];
}

-- The result is whether the submit queue is not empty.
unfoldable pub push_into_lpack_submit_queue : Iocore → ℕ → Bool × Iocore
unfolding make_frozen_queue_empty
push_into_lpack_submit_queue s b =
    if is_frozen s
    then (
      not (is_empty s.logpack_submit_queue),
      record s { frozen_queue = s.frozen_queue ++ b ∷ [] },
    )
    else (let s' = make_frozen_queue_empty s in
        (true, record s' { logpack_submit_queue = s'.logpack_submit_queue ++ b ∷ [] }))

unfoldable pub freeze_detail : Iocore → Bool → Iocore
unfolding set_frozen
freeze_detail s is_usr = set_frozen s is_usr true

-- The result is whether nobody freezes the queue any more.
unfoldable pub melt_detail : Iocore → Bool → Bool × Iocore
unfolding set_frozen make_frozen_queue_empty
melt_detail s is_usr =
    let s' = set_frozen s is_usr false in
    if is_frozen s' then (false, s') else (true, make_frozen_queue_empty s')

-- The loop that moves writes to the list of the task, `n` of them so far: the moved ones and the rest.
unfoldable pub take_bulk : ℕ → ℕ → List ℕ → List ℕ × List ℕ
take_bulk n_io_bulk n [] = ([], [])
take_bulk n_io_bulk n (b ∷ bs) =
    let (taken, rest) = take_bulk n_io_bulk (n + 1) bs in
    if leb n_io_bulk (n + 1) then (b ∷ [], bs) else (b ∷ taken, rest)

-- What a round of task_submit_logpack_list does under the lock: the writes that it starts on. An empty
-- queue ends the task.
unfoldable pub dequeue_submit_queue : ℕ → Iocore → List ℕ × Iocore
unfolding take_bulk
dequeue_submit_queue n_io_bulk s =
    let (taken, rest) = take_bulk n_io_bulk 0 s.logpack_submit_queue in
    (
      taken,
      record s {
        logpack_submit_queue = rest;
        working = if is_empty s.logpack_submit_queue then false else s.working;
      },
    )

-- dispatch_submit_log_task: the task is queued unless it is working, and is then working.
unfoldable pub dispatch_submit_log_task : Iocore → Iocore
dispatch_submit_log_task s = record s { working = true }
