-- ===== src/Lsid.antt =====
-- The lsids of a device (struct lsid_set of module/kern.h) and the parts of module/io.c, module/super.c,
-- module/checkpoint.c and module/wdev_ioctl.c that move them. Each function is one critical section
-- under lsid_lock. Jiffies are arguments.
pub mod Pipeline
pub mod Order
pub mod Moves
pub mod Steps
pub mod Tail
use walb_driver.Common.{
  ℕ, Bool, true, false, not, ◌&&◌, ◌||◌, Option, none, some, ltb, leb, ◌==◌, if◌then◌else◌, add_u64,
  sub_u64, ◌^◌,
}

pub record LsidSet : Type 0 where
  pub latest : ℕ
  pub completed : ℕ
  pub flush : ℕ
  pub permanent : ℕ
  pub written : ℕ
  pub prev_written : ℕ
  pub oldest : ℕ

-- The lsids, log_flush_jiffies of the iocore data, and WALB_STATE_READ_ONLY.
pub record LogState : Type 0 where
  pub lsids : LsidSet
  pub log_flush_jiffies : ℕ
  pub read_only : Bool

abbrev pub is_permanent_log_empty : LsidSet → Bool
is_permanent_log_empty l = l.oldest == l.permanent

unfoldable pub lsid_set_is_valid : LsidSet → Bool
lsid_set_is_valid l =
    leb l.oldest l.prev_written
    && (leb l.prev_written l.written
        && (leb l.written l.permanent
            && (leb l.permanent l.flush && (leb l.flush l.completed && leb l.completed l.latest))))

-- What prepare_wdev makes of the super sector: all lsids but the oldest are its written_lsid.
unfoldable pub init_lsids : ℕ → ℕ → LsidSet
init_lsids oldest_lsid written_lsid = record {
  latest = written_lsid;
  completed = written_lsid;
  flush = written_lsid;
  permanent = written_lsid;
  written = written_lsid;
  prev_written = written_lsid;
  oldest = oldest_lsid;
}

module _ (jiffies log_flush_interval_jiffies : ℕ) where
  unfoldable pub update_flush_lsid_if_necessary : LogState → ℕ → LogState
  update_flush_lsid_if_necessary s flush_lsid =
      if ltb s.lsids.flush flush_lsid
      then record s {
        lsids = record (s.lsids) { flush = flush_lsid };
        log_flush_jiffies = add_u64 jiffies log_flush_interval_jiffies;
      }
      else s

  -- force_flush_ldev up to the flush: new_permanent_lsid.
  unfoldable pub force_flush_begin : LogState → ℕ × LogState
  unfolding update_flush_lsid_if_necessary
  force_flush_begin s = (s.lsids.completed, update_flush_lsid_if_necessary s s.lsids.completed)

  -- Where create_logpack_list stores the new latest lsid, and new_permanent_lsid of the first pack if the
  -- pack is to flush.
  unfoldable pub store_latest : ℕ → Bool → LogState → Option ℕ × LogState
  unfolding update_flush_lsid_if_necessary
  store_latest latest_lsid is_flush s =
      let s' = record s { lsids = record (s.lsids) { latest = latest_lsid } } in
      if is_flush
      then (some s.lsids.completed, update_flush_lsid_if_necessary s' s.lsids.completed)
      else (none, s')

-- The decision of create_logpack_list to flush the log device although no write asks for it.
unfoldable pub is_time_to_flush : ℕ → ℕ → ℕ → LogState → Bool
is_time_to_flush jiffies interval_pb interval_jiffies s =
    (ltb 0 interval_pb && ltb interval_pb (sub_u64 s.lsids.completed s.lsids.flush))
    || (ltb 0 interval_jiffies && ltb s.log_flush_jiffies jiffies)

-- permanent_lsid goes up to an lsid. The result is whether to notify the readers of the log.
unfoldable pub raise_permanent : ℕ → LogState → Bool × LogState
raise_permanent new_permanent_lsid s =
    if ltb s.lsids.permanent new_permanent_lsid
    then (
      is_permanent_log_empty s.lsids,
      record s { lsids = record (s.lsids) { permanent = new_permanent_lsid } },
    )
    else (false, s)

-- The rest of force_flush_ldev, with the result of the flush.
unfoldable pub force_flush_end : Bool → ℕ → LogState → Bool × LogState
unfolding raise_permanent
force_flush_end flush_ok new_permanent_lsid s =
    raise_permanent new_permanent_lsid (if flush_ok then s else record s { read_only = true })

-- What a round of wait_for_log_permanent comes to.
pub data Verdict : Type 0 where
  is_permanent is_read_only retry must_flush : Verdict

-- time_is_after_jiffies, with jiffies of 64 bits.
abbrev pub time_is_after : ℕ → ℕ → Bool
time_is_after jiffies a = leb (2 ^ 63) (sub_u64 jiffies a)

unfoldable pub wait_round : ℕ → ℕ → ℕ → ℕ → LogState → Verdict
wait_round jiffies timeout_jiffies log_flush_interval_pb lsid s =
    if s.read_only
    then is_read_only
    else if leb lsid s.lsids.permanent
    then is_permanent
    else if ltb s.lsids.completed lsid
    then retry
    else if leb lsid s.lsids.flush
    then retry
    else if time_is_after jiffies timeout_jiffies
        && ltb lsid (add_u64 s.lsids.flush log_flush_interval_pb)
    then retry
    else must_flush

-- The other writes to single lsids: completed_lsid in wait_for_logpack_and_submit_datapack, written_lsid
-- in gc_logpack_list.
unfoldable pub set_completed : ℕ → LogState → LogState
set_completed lsid s = record s { lsids = record (s.lsids) { completed = lsid } }

unfoldable pub set_written : ℕ → LogState → LogState
set_written lsid s = record s { lsids = record (s.lsids) { written = lsid } }

-- walb_sync_super_block up to the writes to the devices: the written lsid and the oldest lsid that go
-- into the super sector. none: the device is read only.
unfoldable pub sync_begin : LogState → Option (ℕ × ℕ)
sync_begin s = if s.read_only then none else some (s.lsids.written, s.lsids.oldest)

-- The rest of it, with the result of the writes.
unfoldable pub sync_end : Bool → ℕ → LogState → Bool × LogState
sync_end false written_lsid s = (false, record s { read_only = true })
sync_end true written_lsid s =
    (true, record s { lsids = record (s.lsids) { prev_written = written_lsid } })

-- Whether take_checkpoint has nothing to write.
unfoldable pub checkpoint_skips : LogState → Bool
checkpoint_skips s = s.lsids.written == s.lsids.prev_written

-- The checks of ioctl_wdev_set_oldest_lsid; `header_ok` is walb_check_lsid_valid.
unfoldable pub may_set_oldest : ℕ → Bool → LogState → Bool
may_set_oldest lsid header_ok s =
    not (ltb lsid s.lsids.oldest || ltb s.lsids.prev_written lsid)
    && (not (ltb lsid s.lsids.permanent) || header_ok)

unfoldable pub set_oldest : ℕ → LogState → LogState
set_oldest lsid s = record s { lsids = record (s.lsids) { oldest = lsid } }

-- walb_get_log_usage.
unfoldable pub log_usage : LsidSet → ℕ
log_usage l = sub_u64 l.latest l.oldest
