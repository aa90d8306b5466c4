-- ===== src/Checkpoint/Safe.antt =====
-- The checkpoint task (module/checkpoint.c) in every order of its steps and those of the control.
use walb_driver.Common.{
  ℕ, ◌≡◌, ◌≢◌, refl, sym, subst, ◌∙◌, Bool, true, false, ◌==◌, if◌then◌else◌, Option, none, some,
  arith,
}
use walb_driver.Checkpoint.{
  CpState, stopped, stopping, waiting, running, Work, idle, queued, taking, Checkpoint,
  init_checkpointing, start_checkpointing, stop_begin, stop_end, task_begin, task_end,
}

-- A step of the control or of the task. cancel_delayed_work_sync returns when the task does not run; it
-- takes a queued task off the queue.
pub data CpStep : Checkpoint → Checkpoint → Type 0 where
  set_interval :
      (c : Checkpoint) (n : ℕ) → c.cancelling ≡ false → CpStep c (record c { interval = n })
  start : (c : Checkpoint) → c.cancelling ≡ false → CpStep c (start_checkpointing c)
  stop : (c : Checkpoint) → c.cancelling ≡ false → CpStep c (stop_begin c)
  cancelled : (c : Checkpoint) → c.cancelling ≡ true → c.work ≢ taking → CpStep c (stop_end c)
  task_starts : (c c' : Checkpoint) → c.work ≡ queued → task_begin c ≡ some c' → CpStep c c'
  task_ends : (c : Checkpoint) (ok : Bool) → c.work ≡ taking → CpStep c (task_end ok c)

pub data Reachable (n : ℕ) : Checkpoint → Type 0 where
  initial : Reachable n (init_checkpointing n)
  after : (c c' : Checkpoint) → Reachable n c → CpStep c c' → Reachable n c'

-- What the state, the task and the control agree on.
pub data Agrees : CpState → Work → Bool → Type 0 where
  off : (x : Bool) → Agrees stopped idle x
  waits : Agrees waiting queued false
  runs : Agrees running taking false
  stops : (w : Work) → Agrees stopping w true

abbrev pub Agree : Checkpoint → Type 0
Agree c = Agrees c.state c.work c.cancelling

abbrev cp : ℕ → CpState → Work → Bool → Checkpoint
cp n s w x = record { interval = n; state = s; work = w; cancelling = x }

module _ (n : ℕ) where
  start-Agree :
      (s : CpState) (w : Work) (x : Bool)
      → Agrees s w x
      → x ≡ false
      → Agree (start_checkpointing (cp n s w x))
  unfolding start_checkpointing
  start-Agree s w x (off y) e = go (n == 0)
    where
      go : (b : Bool) → Agree (if b then cp n stopped idle x else cp n waiting queued x)
      go true = off x
      go false = subst (Agrees waiting queued) (sym e) waits
  start-Agree s w x waits e = waits
  start-Agree s w x runs e = runs
  start-Agree s w x (stops y) e = stops w

  stop-Agree : (s : CpState) (w : Work) (x : Bool) → Agrees s w x → Agree (stop_begin (cp n s w x))
  unfolding stop_begin
  stop-Agree s w x (off y) = off x
  stop-Agree s w x waits = stops queued
  stop-Agree s w x runs = stops taking
  stop-Agree s w x (stops y) = stops w

  begin-Agree :
      (s : CpState) (w : Work) (x : Bool)
      → Agrees s w x
      → w ≡ queued
      → (c : Checkpoint) × (task_begin (cp n s w x) ≡ some c) × Agree c
  unfolding task_begin
  begin-Agree s w x (off y) e = absurd (ground (arith, e))
  begin-Agree s w x waits e = (cp n running taking false, refl, runs)
  begin-Agree s w x runs e = absurd (ground (arith, e))
  begin-Agree s w x (stops y) e = (cp n stopping idle true, refl, stops idle)

  end-Agree :
      (ok : Bool) (s : CpState) (w : Work) (x : Bool)
      → Agrees s w x
      → w ≡ taking
      → Agree (task_end ok (cp n s w x))
  unfolding task_end
  end-Agree false s w x a e = off x
  end-Agree true s w x (off y) e = off x
  end-Agree true s w x waits e = absurd (ground (arith, e))
  end-Agree true s w x runs e = waits
  end-Agree true s w x (stops y) e = stops idle

CpStep-Agree : {c d : Checkpoint} → CpStep c d → Agree c → Agree d
unfolding stop_end
CpStep-Agree (set_interval c n e) a = a
CpStep-Agree (start c e) a = start-Agree c.interval c.state c.work c.cancelling a e
CpStep-Agree (stop c e) a = stop-Agree c.interval c.state c.work c.cancelling a
CpStep-Agree (cancelled c e f) a = off false
CpStep-Agree (task_starts c d e f) a =
    let r = begin-Agree c.interval c.state c.work c.cancelling a e in
    subst (elim_some Agree) (sym (r.1) ∙ f) r.2
  where
    elim_some : (Checkpoint → Type 0) → Option Checkpoint → Type 0
    elim_some P none = Unit
    elim_some P (some c) = P c
CpStep-Agree (task_ends c ok e) a = end-Agree c.interval ok c.state c.work c.cancelling a e

Reachable-Agree : (n : ℕ) (c : Checkpoint) → Reachable n c → Agree c
unfolding init_checkpointing
Reachable-Agree n _ initial = off false
Reachable-Agree n _ (after b c r s) = CpStep-Agree s (Reachable-Agree n b r)

stopped_idle : (s : CpState) (w : Work) (x : Bool) → Agrees s w x → s ≡ stopped → w ≡ idle
stopped_idle s w x (off y) e = refl
stopped_idle s w x waits e = absurd (ground (arith, e))
stopped_idle s w x runs e = absurd (ground (arith, e))
stopped_idle s w x (stops y) e = absurd (ground (arith, e))

-- In every order of the steps of the control and the task: while the state is stopped, no task is
-- queued or at work; and a task that starts finds a state that it knows, so its warning is never
-- reached.
pub Reachable-safe :
    (n : ℕ) (c : Checkpoint)
    → Reachable n c
    → (c.state ≡ stopped → c.work ≡ idle)
      × (c.work ≡ queued → (d : Checkpoint) × (task_begin c ≡ some d))
Reachable-safe n c r =
    let a = Reachable-Agree n c r in
    (
      stopped_idle c.state c.work c.cancelling a,
      λ e. let b = begin-Agree c.interval c.state c.work c.cancelling a e in (b.0, b.1),
    )
