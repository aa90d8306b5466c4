-- ===== src/Iocore/Order.antt =====
-- The queue of the writes that wait for the log (module/io.c) against a plain queue: the submit queue
-- with the frozen queue behind it.
use mathlib.Core.List.{append_assoc, append-nil}
use walb_driver.Common.{
  ℕ, ◌+◌, ◌≡◌, refl, sym, ap, ◌∙◌, inl, inr, Bool, true, false, List, [], ◌∷◌, ◌++◌, Bool-cases,
  leb, if◌then◌else◌,
}
use walb_driver.Writepack.{is_empty}
use walb_driver.Iocore.{
  Iocore, is_frozen, set_frozen, make_frozen_queue_empty, push_into_lpack_submit_queue,
  freeze_detail, melt_detail, take_bulk, dequeue_submit_queue, dispatch_submit_log_task,
}

-- What happens to the queue, each under its lock.
pub data Event : Type 0 where
  push : ℕ → Event
  freeze : Bool → Event
  melt : Bool → Event
  dispatch : Event
  dequeue : ℕ → Event

-- The writes that an event starts on, and the state after it.
unfoldable pub handle : Event → Iocore → List ℕ × Iocore
handle (push b) s = ([], (push_into_lpack_submit_queue s b).1)
handle (freeze is_usr) s = ([], freeze_detail s is_usr)
handle (melt is_usr) s = ([], (melt_detail s is_usr).1)
handle dispatch s = ([], dispatch_submit_log_task s)
handle (dequeue n_io_bulk) s = dequeue_submit_queue n_io_bulk s

unfoldable pub run : List Event → Iocore → List ℕ × Iocore
run [] s = ([], s)
run (e ∷ es) s =
    let (started, s') = handle e s in let (more, s'') = run es s' in (started ++ more, s'')

-- The plain queue: pushes append, nothing else matters.
abbrev pub waiting : Iocore → List ℕ
waiting s = s.logpack_submit_queue ++ s.frozen_queue

abbrev pub arrival : Event → List ℕ
arrival (push b) = b ∷ []
arrival _ = []

abbrev pub arrivals : List Event → List ℕ
arrivals [] = []
arrivals (e ∷ es) = arrival e ++ arrivals es

take_bulk-append :
    (n_io_bulk n : ℕ) (bs : List ℕ)
    → (take_bulk n_io_bulk n bs).0 ++ (take_bulk n_io_bulk n bs).1 ≡ bs
unfolding take_bulk
take_bulk-append n_io_bulk n [] = refl
take_bulk-append n_io_bulk n (b ∷ bs) = elim (Bool-cases (leb n_io_bulk (n + 1))) [
  | inl e ↦ rw e refl
  | inr e ↦ rw e (ap (λ l. b ∷ l) (take_bulk-append n_io_bulk (n + 1) bs))
]

waiting-make_empty : (s : Iocore) → waiting (make_frozen_queue_empty s) ≡ waiting s
unfolding make_frozen_queue_empty
waiting-make_empty s = elim (Bool-cases (is_empty s.frozen_queue)) [
  | inl e ↦ rw e refl
  | inr e ↦ rw e (append-nil (s.logpack_submit_queue ++ s.frozen_queue))
]

empty-nil : (q : List ℕ) → is_empty q ≡ true → q ≡ []
empty-nil [] e = refl
empty-nil (b ∷ q) e = cc

pub frozen_of_melted : (s : Iocore) → (make_frozen_queue_empty s).frozen_queue ≡ []
unfolding make_frozen_queue_empty
frozen_of_melted s = elim (Bool-cases (is_empty s.frozen_queue)) [
  | inl e ↦ rw e (empty-nil s.frozen_queue e)
  | inr e ↦ rw e refl
]

abbrev melted : Iocore → Bool × Iocore
melted s = if is_frozen s then (false, s) else (true, make_frozen_queue_empty s)

waiting-melt : (s : Iocore) → waiting (melted s).1 ≡ waiting s
waiting-melt s = elim (Bool-cases (is_frozen s)) [
  | inl e ↦ rw e refl
  | inr e ↦ rw e (waiting-make_empty s)
]

pushed : (s : Iocore) (b : ℕ) → waiting (push_into_lpack_submit_queue s b).1 ≡ waiting s ++ b ∷ []
unfolding push_into_lpack_submit_queue
pushed s b = elim (Bool-cases (is_frozen s)) [
  | inl e ↦ rw e (sym (append_assoc s.logpack_submit_queue s.frozen_queue (b ∷ [])))
  | inr e ↦ rw e (
      append-end (make_frozen_queue_empty s).logpack_submit_queue
        (make_frozen_queue_empty s).frozen_queue (frozen_of_melted s)
      ∙ ap (λ l. l ++ b ∷ []) (waiting-make_empty s))
]
  where
    append-end : (xs ys : List ℕ) → ys ≡ [] → (xs ++ b ∷ []) ++ ys ≡ (xs ++ ys) ++ b ∷ []
    append-end xs ys e =
        rw e (append-nil (xs ++ b ∷ []) ∙ ap (λ l. l ++ b ∷ []) (sym (append-nil xs)))

-- One event against the plain queue.
handle-waiting :
    (e : Event) (s : Iocore) → (handle e s).0 ++ waiting (handle e s).1 ≡ waiting s ++ arrival e
unfolding handle freeze_detail melt_detail set_frozen dequeue_submit_queue dispatch_submit_log_task
handle-waiting (push b) s = pushed s b
handle-waiting (freeze true) s = sym (append-nil (waiting s))
handle-waiting (freeze false) s = sym (append-nil (waiting s))
handle-waiting dispatch s = sym (append-nil (waiting s))
handle-waiting (melt true) s =
    waiting-melt (record s { is_frozen_usr = false }) ∙ sym (append-nil (waiting s))
handle-waiting (melt false) s =
    waiting-melt (record s { is_frozen_sys = false }) ∙ sym (append-nil (waiting s))
handle-waiting (dequeue n_io_bulk) s =
    sym (
      append_assoc (take_bulk n_io_bulk 0 s.logpack_submit_queue).0
        (take_bulk n_io_bulk 0 s.logpack_submit_queue).1 s.frozen_queue)
    ∙ ap (λ l. l ++ s.frozen_queue) (take_bulk-append n_io_bulk 0 s.logpack_submit_queue)
    ∙ sym (append-nil (waiting s))

-- Whatever happens to the queue, in whatever order: the writes started on, and behind them those that
-- still wait, are those that waited at first and those pushed since, in the order in which they came.
pub run-waiting :
    (es : List Event) (s : Iocore) → (run es s).0 ++ waiting (run es s).1 ≡ waiting s ++ arrivals es
unfolding run
run-waiting [] s = sym (append-nil (waiting s))
run-waiting (e ∷ es) s =
    let (started, s') = handle e s in
    append_assoc started (run es s').0 (waiting (run es s').1)
    ∙ ap (λ l. started ++ l) (run-waiting es s')
    ∙ sym (append_assoc started (waiting s') (arrivals es))
    ∙ ap (λ l. l ++ arrivals es) (handle-waiting e s)
    ∙ append_assoc (waiting s) (arrival e) (arrivals es)
