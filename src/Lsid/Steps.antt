-- ===== src/Lsid/Steps.antt =====
-- Every step of the pipeline keeps the order of the lsids (module/kern.h, struct lsid_set).
use walb_driver.Common.{ℕ, ◌≤◌, ◌≡◌, refl, subst, sym, true, some, All, arith}
use walb_driver.Lsid.{
  LsidSet, lsid_set_is_valid, init_lsids, raise_permanent, set_completed, set_written, sync_begin,
  sync_end, may_set_oldest, set_oldest,
}
use walb_driver.Lsid.Pipeline.{
  LogPack, Pipe, AtMost, start_pipe, IsTight, Step, create, header, fua, complete, collect,
  flush_begin, flush_end, sync_first, sync_last, check_oldest, store_oldest, Reach, here, next,
}
use walb_driver.Lsid.Order.{IsOrdered, front, raise_completed, complete-Inv, collect-Inv}
use walb_driver.Lsid.Moves.{
  Good, permanent-Inv, middle, at, at_least, with_rest, with_log, sync-Inv, oldest-Inv, begin-Inv,
  store-Inv, end-Inv,
}

pub Step-Good : {s t : Pipe} → Step IsTight s t → Good s → Good t
unfolding set_completed set_written sync_begin sync_end may_set_oldest set_oldest
Step-Good (create j i latest is_flush packs c tight unmarked e) v =
    rw e (store-Inv j i latest is_flush packs v c tight unmarked)
Step-Good {s} (header p ps n w m e) v = rw e (
    with_log (raise_permanent n s.log).1 (
      permanent-Inv n v (
        at s.log.lsids.flush m
          (subst (All (λ (p : LogPack). AtMost s.log.lsids.flush p.new_permanent)) w v.headers).0)))
Step-Good {s} (fua p ps x w above below e) v = rw e (
    with_log (set_completed x s.log)
      (raise_completed v x above (subst (λ ws. x ≤ front v.mid ws) (sym w) below)))
Step-Good {s} (complete p ps w e) v =
    rw e (with_log (set_completed p.end s.log) (complete-Inv v p ps w))
Step-Good {s} (collect p ps w sub e) v =
    rw e (with_log (set_written p.end s.log) (collect-Inv v p ps w sub))
Step-Good {s} (flush_begin j i e) v = rw e (begin-Inv j i v)
Step-Good {s} (flush_end xs ys n w e) v =
    let m =
      middle (λ x. x ≤ s.log.lsids.flush) xs ys n
        (subst (All (λ x. x ≤ s.log.lsids.flush)) w v.flushing) in
    rw e (end-Inv xs ys n v m.0 m.1)
Step-Good {s} (sync_first w o n b e) v = rw e (
    with_rest s.log s.flushing (some w) s.setting v v.flushing
      (ground (arith, b), ground (arith, b, v.order.synced)) v.setting)
Step-Good {s} (sync_last w n e) v = rw e (
    sync-Inv (sync_end true w s.log).1 w v (at s.log.lsids.written n v.syncing.0)
      (at_least s.log.lsids.prev_written n v.syncing.1))
Step-Good {s} (check_oldest x h n m e) v =
    rw e (with_rest s.log s.flushing s.syncing (some x) v v.flushing v.syncing (ground (arith, m)))
Step-Good {s} (store_oldest x n e) v =
    rw e (oldest-Inv (set_oldest x s.log) x v (at s.log.lsids.prev_written n v.setting))

start-Good : (o w : ℕ) → o ≤ w → Good (start_pipe o w)
unfolding start_pipe init_lsids
start-Good o w h = record {
  order = record {
    oldest_first = h;
    synced = omega arith;
    logged = omega arith;
    flushed = omega arith;
    flushable = omega arith;
    created = omega arith;
  };
  flushing = tt;
  headers = tt;
  syncing = (tt, tt);
  setting = tt;
  mid = w;
  collected = refl;
  coming = refl;
  past = omega arith;
  before = omega arith;
  tight = (tt, tt);
}

valid : {l : LsidSet} → IsOrdered l → lsid_set_is_valid l ≡ true
unfolding lsid_set_is_valid
valid o = ground arith

reached : {o w : ℕ} {t : Pipe} → o ≤ w → Reach IsTight (start_pipe o w) t → Good t
reached {o} {w} h here = start-Good o w h
reached h (next r st) = Step-Good st (reached h r)

-- From the lsids of a super sector, with logpacks whose last write stands at their end, one sync of the super
-- sector and one ioctl on the oldest lsid at a time, and no IO that fails: in whatever order the logpacks, the
-- flushes of any number of threads, the checkpoints and the ioctl make their steps, the lsids keep the order
-- oldest <= prev_written <= written <= permanent <= flush <= completed <= latest.
pub Reach-valid :
    {oldest written : ℕ} {t : Pipe}
    → oldest ≤ written
    → Reach IsTight (start_pipe oldest written) t
    → lsid_set_is_valid t.log.lsids ≡ true
Reach-valid h r = valid (reached h r).order
