-- ===== src/Freeze/Agree.antt =====
-- What the freeze state says is so (module/wdev_util.c): the user has frozen the queue of the writes exactly while
-- the state is not FRZ_MELTED.
use walb_driver.Common.{
  ℕ, ◌+◌, ◌-◌, ◌<◌, ◌≡◌, ◌≢◌, refl, sym, subst, inl, inr, Bool, true, false, arith, Bool-cases, ltb,
  if◌then◌else◌,
}
use walb_driver.Checkpoint.{Checkpoint}
use walb_driver.Iocore.{
  Iocore, set_frozen, make_frozen_queue_empty, freeze_detail, melt_detail, dispatch_submit_log_task,
}
use walb_driver.Freeze.{
  FreezeState, melted, frozen, frozen_timeo, frozen_deep, canceling, Freezing, iocore_freeze,
  iocore_melt, task_melt, cancel_melt_begin, cancel_melt_end, freeze_if_melted, melt_if_frozen,
  freeze_for_reset_wal, melt_for_reset_wal, is_device_frozen,
}
use walb_driver.Freeze.Steps.{
  Threads, start_threads, Step, work, cancel_first, cancel_last, freeze, melt, reset_first,
  reset_last, Reach, here, next,
}

make_empty_usr : (c : Iocore) → (make_frozen_queue_empty c).is_frozen_usr ≡ c.is_frozen_usr
unfolding make_frozen_queue_empty
make_empty_usr c = ground arith

pub melt_usr : (c : Iocore) → (iocore_melt c).is_frozen_usr ≡ false
unfolding iocore_melt melt_detail set_frozen dispatch_submit_log_task
melt_usr c = ground (arith, make_empty_usr (record c { is_frozen_usr = false }))

-- The freeze state, whether the user has frozen the queue, whether the work is queued, how many threads
-- cancel it, and how many reset the log.
pub data Agrees : FreezeState → Bool → Bool → ℕ → ℕ → Type 0 where
  off : Agrees melted false false 0 0
  on : Agrees frozen true false 0 0
  timed : Agrees frozen_timeo true true 0 0
  deep : Agrees frozen_deep true false 0 1
  cancels : (w : Bool) → Agrees canceling true w 1 0

abbrev Agree : Threads → Type 0
Agree s =
    Agrees s.device.freeze_state s.device.core.is_frozen_usr s.device.melt_work s.canceling
      s.resetting

abbrev pub NotCanceling : FreezeState → Type 0
NotCanceling f = f ≢ canceling

abbrev dev : FreezeState → Bool → Bool → Iocore → Checkpoint → Freezing
dev f u w k cp = record {
  freeze_state = f;
  core = record k { is_frozen_usr = u };
  cp = cp;
  melt_work = w;
}

abbrev Ok : Freezing → ℕ → ℕ → Type 0
Ok d c r = Agrees d.freeze_state d.core.is_frozen_usr d.melt_work c r

off-melted : (k : Iocore) → Agrees melted (iocore_melt k).is_frozen_usr false 0 0
off-melted k = subst (λ u. Agrees melted u false 0 0) (sym (melt_usr k)) off

module _ (k : Iocore) (cp : Checkpoint) where
  work-Ok :
      (f : FreezeState) (u w : Bool) (c r : ℕ)
      → Agrees f u w c r
      → w ≡ true
      → Ok (task_melt (dev f u w k cp)) c r
  unfolding task_melt
  work-Ok f u w c r off e = off
  work-Ok f u w c r on e = on
  work-Ok f u w c r timed e = off-melted (record k { is_frozen_usr = true })
  work-Ok f u w c r deep e = deep
  work-Ok f u w c r (cancels x) e = cancels false

  cancel_first-Ok :
      (f : FreezeState) (u w : Bool) (c r : ℕ)
      → Agrees f u w c r
      → let (should, d) = cancel_melt_begin (dev f u w k cp) in Ok d (if should then c + 1 else c) r
  unfolding cancel_melt_begin
  cancel_first-Ok f u w c r off = off
  cancel_first-Ok f u w c r on = on
  cancel_first-Ok f u w c r timed = cancels true
  cancel_first-Ok f u w c r deep = deep
  cancel_first-Ok f u w c r (cancels x) = cancels x

  cancel_last-Ok :
      (f : FreezeState) (u w : Bool) (c r : ℕ)
      → Agrees f u w c r
      → 0 < c
      → Ok (cancel_melt_end (dev f u w k cp)) (c - 1) r
  unfolding cancel_melt_end
  cancel_last-Ok f u w c r off l = absurd (omega (arith, l))
  cancel_last-Ok f u w c r on l = absurd (omega (arith, l))
  cancel_last-Ok f u w c r timed l = absurd (omega (arith, l))
  cancel_last-Ok f u w c r deep l = absurd (omega (arith, l))
  cancel_last-Ok f u w c r (cancels x) l = on

  timeout-Ok :
      (n : ℕ) (d : Freezing)
      → Ok d 0 0
      → d.freeze_state ≡ frozen
      → d.core.is_frozen_usr ≡ true
      → Ok (if ltb 0 n then record d { freeze_state = frozen_timeo; melt_work = true } else d) 0 0
  timeout-Ok n d i e u = elim (Bool-cases (ltb 0 n)) [ inl l ↦ rw (l, u) timed | inr l ↦ rw l i ]

  freeze-Ok :
      (n : ℕ) (f : FreezeState) (u w : Bool) (c r : ℕ)
      → Agrees f u w c r
      → Ok (freeze_if_melted n (dev f u w k cp)).1 c r
  unfolding freeze_if_melted iocore_freeze freeze_detail set_frozen
  freeze-Ok n f u w c r off = timeout-Ok n _ on refl refl
  freeze-Ok n f u w c r on = timeout-Ok n _ on refl refl
  freeze-Ok n f u w c r timed = timed
  freeze-Ok n f u w c r deep = deep
  freeze-Ok n f u w c r (cancels x) = cancels x

  melt-Ok :
      (b : Bool) (f : FreezeState) (u w : Bool) (c r : ℕ)
      → Agrees f u w c r
      → Ok (melt_if_frozen b (dev f u w k cp)).1 c r
  unfolding melt_if_frozen
  melt-Ok b f u w c r off = off
  melt-Ok true f u w c r on = off-melted (record k { is_frozen_usr = true })
  melt-Ok false f u w c r on = off-melted (record k { is_frozen_usr = true })
  melt-Ok b f u w c r timed = timed
  melt-Ok b f u w c r deep = deep
  melt-Ok b f u w c r (cancels x) = cancels x

  reset_first-Ok :
      (f : FreezeState) (u w : Bool) (c r : ℕ)
      → Agrees f u w c r
      → f ≢ canceling
      → let (ok, d) = freeze_for_reset_wal (dev f u w k cp) in Ok d c (if ok then r + 1 else r)
  unfolding freeze_for_reset_wal iocore_freeze freeze_detail set_frozen
  reset_first-Ok f u w c r off n = deep
  reset_first-Ok f u w c r on n = on
  reset_first-Ok f u w c r timed n = timed
  reset_first-Ok f u w c r deep n = deep
  reset_first-Ok f u w c r (cancels x) n = absurd (n refl)

  reset_last-Ok :
      (f : FreezeState) (u w : Bool) (c r : ℕ)
      → Agrees f u w c r
      → 0 < r
      → Ok (melt_for_reset_wal (dev f u w k cp)) c (r - 1)
  unfolding melt_for_reset_wal
  reset_last-Ok f u w c r off l = absurd (omega (arith, l))
  reset_last-Ok f u w c r on l = absurd (omega (arith, l))
  reset_last-Ok f u w c r timed l = absurd (omega (arith, l))
  reset_last-Ok f u w c r deep l = off-melted (record k { is_frozen_usr = true })
  reset_last-Ok f u w c r (cancels x) l = absurd (omega (arith, l))

Step-Agree : {s t : Threads} → Step NotCanceling s t → Agree s → Agree t
Step-Agree {s} (work w e) a = subst Agree (sym e) (
    work-Ok s.device.core s.device.cp s.device.freeze_state s.device.core.is_frozen_usr
      s.device.melt_work s.canceling s.resetting a w)
Step-Agree {s} (cancel_first e) a = subst Agree (sym e) (
    cancel_first-Ok s.device.core s.device.cp s.device.freeze_state s.device.core.is_frozen_usr
      s.device.melt_work s.canceling s.resetting a)
Step-Agree {s} (cancel_last l e) a = subst Agree (sym e) (
    cancel_last-Ok s.device.core s.device.cp s.device.freeze_state s.device.core.is_frozen_usr
      s.device.melt_work s.canceling s.resetting a l)
Step-Agree {s} (freeze n e) a = subst Agree (sym e) (
    freeze-Ok s.device.core s.device.cp n s.device.freeze_state s.device.core.is_frozen_usr
      s.device.melt_work s.canceling s.resetting a)
Step-Agree {s} (melt b e) a = subst Agree (sym e) (
    melt-Ok s.device.core s.device.cp b s.device.freeze_state s.device.core.is_frozen_usr
      s.device.melt_work s.canceling s.resetting a)
Step-Agree {s} (reset_first n e) a = subst Agree (sym e) (
    reset_first-Ok s.device.core s.device.cp s.device.freeze_state s.device.core.is_frozen_usr
      s.device.melt_work s.canceling s.resetting a n)
Step-Agree {s} (reset_last l e) a = subst Agree (sym e) (
    reset_last-Ok s.device.core s.device.cp s.device.freeze_state s.device.core.is_frozen_usr
      s.device.melt_work s.canceling s.resetting a l)

Reach-Agree : {s t : Threads} → Agree s → Reach NotCanceling s t → Agree t
Reach-Agree a here = a
Reach-Agree a (next r st) = Step-Agree st (Reach-Agree a r)

abbrev pub IsTimed : FreezeState → Type 0
IsTimed f = f ≡ frozen_timeo

told :
    {f : FreezeState} {u w : Bool} {c r : ℕ}
    → Agrees f u w c r
    → (u ≡ elim f [ melted ↦ false | other ↦ true ]) × (IsTimed f → w ≡ true)
told off = (refl, λ e. absurd (ground (arith, e)))
told on = (refl, λ e. absurd (ground (arith, e)))
told timed = (refl, λ e. refl)
told deep = (refl, λ e. absurd (ground (arith, e)))
told (cancels w) = (refl, λ e. absurd (ground (arith, e)))

-- From a melted device that no user has frozen, with any number of threads that freeze, melt, cancel and reset the
-- log, in whatever order, none of which begins to reset the log while the melt work is being cancelled: what
-- ioctl_wdev_is_frozen answers is whether the user has frozen the queue of the writes; and a device frozen with a
-- timeout has its melt work queued.
pub Reach-told :
    (core : Iocore) (interval : ℕ) {t : Threads}
    → core.is_frozen_usr ≡ false
    → Reach NotCanceling (start_threads core interval) t
    → (t.device.core.is_frozen_usr ≡ is_device_frozen t.device)
      × (IsTimed t.device.freeze_state → t.device.melt_work ≡ true)
unfolding start_threads is_device_frozen
Reach-told core interval e r =
    told (Reach-Agree (subst (λ u. Agrees melted u false 0 0) (sym e) off) r)
