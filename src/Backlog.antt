-- ===== src/Backlog.antt =====
-- module/io.c: the sectors of the writes whose data is not on the data device yet, and the queue that is
-- stopped while they are too many. Jiffies are arguments.
pub mod Alive
pub mod Account
pub mod Restart
use mathlib.Core.Option
use walb_driver.Common.{
  ℕ, ◌-◌, ◌^◌, Bool, true, false, not, ◌&&◌, ◌||◌, Option, some, List, add_u32, sub_u32, add_u64,
  sub_u64, leb, ltb, if◌then◌else◌,
}
use walb_driver.Biow.{Biow}
use walb_driver.Treemap.{RbTree}
use walb_driver.Pending.{Pending, pending_insert_and_delete_fully_overwritten, pending_delete}

-- The part of struct iocore_data under pending_data_lock, the flag BIO_WRAPPER_OVERWRITTEN of all bio
-- wrappers, and the bit IOCORE_STATE_IS_QUEUE_STOPPED.
pub record Backlog : Type 0 where
  pub pending : Pending
  pub overwritten : ℕ → Bool
  pub pending_sectors : ℕ
  pub queue_stopped : Bool
  pub queue_restart_jiffies : ℕ

-- time_is_before_jiffies, with jiffies of 64 bits.
abbrev pub time_is_before : ℕ → ℕ → Bool
time_is_before jiffies a = leb (2 ^ 63) (sub_u64 a jiffies)

-- Discards count for one sector.
abbrev pub weight : Biow → ℕ
weight b = if b.discard then 1 else b.len

module _ (info : ℕ → Biow) where
  unfoldable pub should_stop_queue : ℕ → ℕ → ℕ → Backlog → ℕ → Bool × Backlog
  should_stop_queue jiffies queue_stop_timeout_jiffies max_pending_sectors s b =
      if s.queue_stopped
      then (false, s)
      else if ltb max_pending_sectors (add_u32 s.pending_sectors ((info b).len))
      then (true, record s { queue_restart_jiffies = add_u64 jiffies queue_stop_timeout_jiffies })
      else (false, s)

  unfoldable pub should_start_queue : ℕ → ℕ → Backlog → ℕ → Bool
  should_start_queue jiffies min_pending_sectors s b =
      if not s.queue_stopped
      then false
      else (if leb ((info b).len) s.pending_sectors
          then ltb (s.pending_sectors - (info b).len) min_pending_sectors
          else true)
        || time_is_before jiffies s.queue_restart_jiffies

  module _ (rb : RbTree (List ℕ)) where
    -- What an attempt at the label retry_insert_pending of wait_for_logpack_and_submit_datapack makes of
    -- the result of pending_insert_and_delete_fully_overwritten: pending_sectors goes up, and down again
    -- if memory was lacking.
    abbrev pub account : Backlog → ℕ → Bool × Pending × (ℕ → Bool) → Bool × Backlog
    account s b (inserted, pending, overwritten) = (
      inserted,
      record s {
        pending = pending;
        overwritten = overwritten;
        pending_sectors =
            (let sectors = add_u32 s.pending_sectors ((info b).len) in
              if inserted then sectors else sub_u32 sectors ((info b).len));
      },
    )

    -- The attempt after should_stop_queue: whether it succeeds, and the state. none: the fuel ran out.
    unfoldable pub insert_pending :
        ℕ → Backlog → ℕ → (cell_ok head_ok node_ok : Bool) → Option (Bool × Backlog)
    insert_pending fuel s b cell_ok head_ok node_ok =
        if (info b).discard
        then some (true, record s { pending_sectors = add_u32 s.pending_sectors 1 })
        else Option.map (account s b) (
            pending_insert_and_delete_fully_overwritten info rb fuel s.pending s.overwritten b
              cell_ok head_ok node_ok)

    -- After it: the queue is stopped if should_stop_queue said so. The result is whether to freeze it.
    unfoldable pub stop_queue : Bool → Backlog → Bool × Backlog
    stop_queue is_stop_queue s = (
      is_stop_queue && not s.queue_stopped,
      if is_stop_queue then record s { queue_stopped = true } else s,
    )

    unfoldable pub delete_bio_wrapper_from_pending_data : ℕ → ℕ → Backlog → ℕ → Bool × Backlog
    unfolding should_start_queue
    delete_bio_wrapper_from_pending_data jiffies min_pending_sectors s b = (
      should_start_queue jiffies min_pending_sectors s b,
      if (info b).discard
          then record s { pending_sectors = sub_u32 s.pending_sectors 1 }
          else record s {
            pending_sectors = sub_u32 s.pending_sectors ((info b).len);
            pending = if s.overwritten b then s.pending else pending_delete info rb s.pending b;
          },
    )
