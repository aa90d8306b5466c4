-- ===== src/Iocore/Awake.antt =====
-- No write is left behind (module/io.c): while writes wait in the submit queue, the submit task works, or
-- a thread is about to dispatch it.
use walb_driver.Common.{
  ℕ, ◌+◌, ◌-◌, ◌<◌, ◌≡◌, refl, ◌⊎◌, inl, inr, Bool-cases, not, Bool, true, false, List, [], ◌∷◌,
  arith, if◌then◌else◌,
}
use walb_driver.Writepack.{is_empty}
use walb_driver.Iocore.Order.{frozen_of_melted}
use walb_driver.Iocore.{
  Iocore, is_frozen, set_frozen, push_into_lpack_submit_queue, freeze_detail, melt_detail,
  dequeue_submit_queue, dispatch_submit_log_task,
}

-- The queue, and how many threads have been told to dispatch and have not yet.
pub record Dispatching : Type 0 where
  pub core : Iocore
  pub dispatching : ℕ

-- The threads push, freeze and melt; those told to, dispatch; the task takes writes while it works.
pub data Step (s t : Dispatching) : Type 0 where
  push :
      (b : ℕ)
      → t ≡ (
          let (told, core) = push_into_lpack_submit_queue s.core b in
          record { core = core; dispatching = if told then s.dispatching + 1 else s.dispatching })
      → Step s t
  freeze : (is_usr : Bool) → t ≡ record s { core = freeze_detail s.core is_usr } → Step s t
  melt :
      (is_usr : Bool)
      → t ≡ (
          let (told, core) = melt_detail s.core is_usr in
          record { core = core; dispatching = if told then s.dispatching + 1 else s.dispatching })
      → Step s t
  dispatch :
      0 < s.dispatching
      → t ≡ record { core = dispatch_submit_log_task s.core; dispatching = s.dispatching - 1 }
      → Step s t
  work :
      (n_io_bulk : ℕ)
      → s.core.working ≡ true
      → t ≡ record s { core = (dequeue_submit_queue n_io_bulk s.core).1 }
      → Step s t

pub data Reach (s : Dispatching) : Dispatching → Type 0 where
  here : Reach s s
  next : {t u : Dispatching} → Reach s t → Step t u → Reach s u

-- Frozen writes wait only while the queue is frozen, and the task works or is about to while others wait.
pub record IsAwake (s : Dispatching) : Type 0 where
  pub frozen : (is_frozen s.core ≡ true) ⊎ (s.core.frozen_queue ≡ [])
  pub awake : (s.core.logpack_submit_queue ≡ []) ⊎ (s.core.working ≡ true) ⊎ (0 < s.dispatching)

-- Each event leaves frozen writes only behind a frozen queue.
frozen_push :
    (s : Iocore) (b : ℕ)
    → let s' = (push_into_lpack_submit_queue s b).1 in
      (is_frozen s' ≡ true) ⊎ (s'.frozen_queue ≡ [])
unfolding push_into_lpack_submit_queue
frozen_push s b = elim (Bool-cases (is_frozen s)) [
  | inl e ↦ rw e (inl e)
  | inr e ↦ rw e (inr (frozen_of_melted s))
]

abbrev Told : Bool → Iocore → Type 0
Told told s = (s.logpack_submit_queue ≡ []) ⊎ (told ≡ true) ⊎ (s.working ≡ true)

Told-push : (s : Iocore) (b : ℕ) → let (told, s') = push_into_lpack_submit_queue s b in Told told s'
unfolding push_into_lpack_submit_queue
Told-push s b = elim (Bool-cases (is_frozen s)) [
  | inl e ↦ rw e (nonempty s.logpack_submit_queue)
  | inr e ↦ rw e (inr (inl refl))
]
  where
    nonempty : (q : List ℕ) → (q ≡ []) ⊎ (not (is_empty q) ≡ true) ⊎ (s.working ≡ true)
    nonempty [] = inl refl
    nonempty (x ∷ q) = inr (inl refl)

melt_cases :
    (s : Iocore) (is_usr : Bool)
    → let (melted, s') = melt_detail s is_usr in
      ((is_frozen s' ≡ true) ⊎ (s'.frozen_queue ≡ []))
      × ((melted ≡ true)
          ⊎ ((s'.logpack_submit_queue ≡ s.logpack_submit_queue) × (s'.working ≡ s.working)))
unfolding melt_detail set_frozen
melt_cases s is_usr = elim (Bool-cases (is_frozen (set_frozen s is_usr false))) [
  | inl e ↦ rw e (inl e, inr (same is_usr))
  | inr e ↦ rw e (inr (frozen_of_melted (set_frozen s is_usr false)), inl refl)
]
  where
    same :
        (u : Bool)
        → ((set_frozen s u false).logpack_submit_queue ≡ s.logpack_submit_queue)
          × ((set_frozen s u false).working ≡ s.working)
    same true = (refl, refl)
    same false = (refl, refl)

Step-IsAwake : {s t : Dispatching} → Step s t → IsAwake s → IsAwake t
unfolding freeze_detail set_frozen dequeue_submit_queue dispatch_submit_log_task
Step-IsAwake {s} (push b e) i =
    rw e (record { frozen = frozen_push s.core b; awake = ground (arith, Told-push s.core b) })
Step-IsAwake (freeze true e) i = rw e (record { frozen = ground arith; awake = ground arith })
Step-IsAwake (freeze false e) i = rw e (record { frozen = ground arith; awake = ground arith })
Step-IsAwake {s} (melt u e) i =
    rw e
      (record { frozen = (melt_cases s.core u).0; awake = ground (arith, (melt_cases s.core u).1) })
Step-IsAwake (dispatch l e) i = rw e (record { frozen = ground arith; awake = ground arith })
Step-IsAwake (work n w e) i = rw e (record { frozen = ground arith; awake = ground arith })

-- From an idle start, whatever the threads and the task do in whatever order: a write waits in the frozen
-- queue only while somebody freezes the queue, and while a write waits in the submit queue, the task works
-- or some thread is about to dispatch it.
pub Reach-IsAwake : {s t : Dispatching} → IsAwake s → Reach s t → IsAwake t
Reach-IsAwake i here = i
Reach-IsAwake i (next r st) = Step-IsAwake st (Reach-IsAwake i r)
