-- ===== src/Lsid/Pipeline.antt =====
-- The way of the logpacks through module/io.c, as far as the lsids see it: created, waited for, collected.
-- Meanwhile flushes, checkpoints and the ioctl that sets the oldest lsid run. Every step is one critical
-- section, and no IO fails.
use walb_driver.Common.{
  ℕ, ◌≤◌, ◌≡◌, Bool, true, false, Option, none, some, List, [], ◌∷◌, ◌++◌, All,
}
use walb_driver.Lsid.{
  LogState, init_lsids, force_flush_begin, force_flush_end, store_latest, raise_permanent,
  set_completed, set_written, sync_begin, sync_end, may_set_oldest, set_oldest,
}

-- A logpack: the lsid behind it, lsid + pb of its last write if it has one, and new_permanent_lsid if its
-- header is to flush.
pub record LogPack : Type 0 where
  pub end : ℕ
  pub last : Option ℕ
  pub new_permanent : Option ℕ

-- `waiting`: the packs in the wait queue, the one waited for first. `gc`: those whose log is complete.
-- `flushing`: new_permanent_lsid of the calls of force_flush_ldev between their two sections. `syncing`:
-- written_lsid of walb_sync_super_block between its sections. `setting`: the lsid that
-- ioctl_wdev_set_oldest_lsid has checked.
pub record Pipe : Type 0 where
  pub log : LogState
  pub waiting : List LogPack
  pub gc : List LogPack
  pub flushing : List ℕ
  pub syncing : Option ℕ
  pub setting : Option ℕ

unfoldable pub start_pipe : ℕ → ℕ → Pipe
start_pipe oldest_lsid written_lsid = record {
  log = record {
    lsids = init_lsids oldest_lsid written_lsid;
    log_flush_jiffies = 0;
    read_only = false;
  };
  waiting = [];
  gc = [];
  flushing = [];
  syncing = none;
  setting = none;
}

abbrev pub AtMost : ℕ → Option ℕ → Type 0
AtMost m none = Unit
AtMost m (some n) = n ≤ m

-- A pack without writes is a zero flush and takes no room.
abbrev pub Fits : ℕ → ℕ → Option ℕ → Type 0
Fits start end none = end ≡ start
Fits start end (some l) = l ≤ end

abbrev pub EndsAt : ℕ → Option ℕ → Type 0
EndsAt end none = Unit
EndsAt end (some l) = l ≡ end

-- Packs that follow one another from an lsid to another.
abbrev pub Chained : ℕ → List LogPack → ℕ → Type 0
Chained start [] end = start ≡ end
Chained start (p ∷ ps) end = (start ≤ p.end) × Fits start p.end p.last × Chained p.end ps end

-- The last write of the pack ends where the pack ends: no padding stands behind it.
abbrev pub IsTight : LogPack → Type 0
IsTight p = EndsAt p.end p.last

-- new_permanent_lsid is given to the first pack.
abbrev pub mark_first : Option ℕ → List LogPack → List LogPack
mark_first n [] = []
mark_first n (p ∷ ps) = record p { new_permanent = n } ∷ ps

-- The writes of a pack have gone to the data device, for which wait_for_log_permanent returned true.
abbrev pub IsSubmitted : LogState → LogPack → Type 0
IsSubmitted s p = AtMost s.lsids.permanent p.last

module _ (P : LogPack → Type 0) where
  pub data Step (s t : Pipe) : Type 0 where
    -- create_logpack_list, and the end of task_submit_logpack_list.
    create :
        (jiffies interval latest_lsid : ℕ) (is_flush : Bool) (packs : List LogPack)
        → Chained s.log.lsids.latest packs latest_lsid
        → All P packs
        → All (λ p. p.new_permanent ≡ none) packs
        → t ≡ (
            let (n, log) = store_latest jiffies interval latest_lsid is_flush s.log in
            record s { log = log; waiting = s.waiting ++ mark_first n packs })
        → Step s t
    -- wait_for_logpack_and_submit_datapack: a header that flushes is done.
    header :
        (p : LogPack) (ps : List LogPack) (n : ℕ)
        → s.waiting ≡ p ∷ ps
        → p.new_permanent ≡ some n
        → t ≡ record s { log = (raise_permanent n s.log).1 }
        → Step s t
    -- A write of the pack with REQ_FUA is done: v is its lsid + pb. A flush begins then.
    fua :
        (p : LogPack) (ps : List LogPack) (v : ℕ)
        → s.waiting ≡ p ∷ ps
        → s.log.lsids.completed ≤ v
        → v ≤ p.end
        → t ≡ record s { log = set_completed v s.log }
        → Step s t
    -- All of the pack is done.
    complete :
        (p : LogPack) (ps : List LogPack)
        → s.waiting ≡ p ∷ ps
        → t ≡ record s { log = set_completed p.end s.log; waiting = ps; gc = s.gc ++ p ∷ [] }
        → Step s t
    -- gc_logpack_list.
    collect :
        (p : LogPack) (ps : List LogPack)
        → s.gc ≡ p ∷ ps
        → IsSubmitted s.log p
        → t ≡ record s { log = set_written p.end s.log; gc = ps }
        → Step s t
    -- force_flush_ldev, by any thread.
    flush_begin :
        (jiffies interval : ℕ)
        → t ≡ (
            let (n, log) = force_flush_begin jiffies interval s.log in
            record s { log = log; flushing = n ∷ s.flushing })
        → Step s t
    flush_end :
        (xs ys : List ℕ) (n : ℕ)
        → s.flushing ≡ xs ++ n ∷ ys
        → t ≡ record s { log = (force_flush_end true n s.log).1; flushing = xs ++ ys }
        → Step s t
    -- walb_sync_super_block, one call at a time.
    sync_first :
        (w o : ℕ)
        → s.syncing ≡ none
        → sync_begin s.log ≡ some (w, o)
        → t ≡ record s { syncing = some w }
        → Step s t
    sync_last :
        (w : ℕ)
        → s.syncing ≡ some w
        → t ≡ record s { log = (sync_end true w s.log).1; syncing = none }
        → Step s t
    -- ioctl_wdev_set_oldest_lsid, one call at a time.
    check_oldest :
        (lsid : ℕ) (header_ok : Bool)
        → s.setting ≡ none
        → may_set_oldest lsid header_ok s.log ≡ true
        → t ≡ record s { setting = some lsid }
        → Step s t
    store_oldest :
        (lsid : ℕ)
        → s.setting ≡ some lsid
        → t ≡ record s { log = set_oldest lsid s.log; setting = none }
        → Step s t

  pub data Reach (s : Pipe) : Pipe → Type 0 where
    here : Reach s s
    next : {t u : Pipe} → Reach s t → Step t u → Reach s u
