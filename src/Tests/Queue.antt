-- ===== src/Tests/Queue.antt =====
-- The queues of module/io.c with concrete writes.
use walb_driver.Common.{◌≡◌, refl, inl, inr, true, false, List, [], ◌∷◌, ◌++◌}
use walb_driver.Iocore.{Iocore, push_into_lpack_submit_queue}
use walb_driver.Iocore.Order.{
  Event, push, freeze, melt, dispatch, dequeue, run, waiting, arrivals, run-waiting,
}
use walb_driver.Iocore.Awake.{Dispatching, IsAwake, Step, here, next, Reach-IsAwake}

abbrev idle : Iocore
idle = record {
  is_frozen_sys = false;
  is_frozen_usr = false;
  frozen_queue = [];
  logpack_submit_queue = 4 ∷ 5 ∷ [];
  working = true;
}

-- Frozen by both users, and melted by both.
abbrev events : List Event
events =
    push 6
    ∷ freeze true
    ∷ push 7
    ∷ freeze false
    ∷ dequeue 2
    ∷ melt true
    ∷ push 8
    ∷ melt false
    ∷ dispatch
    ∷ dequeue 2
    ∷ []

run-waiting_example :
    (run events idle).0 ++ waiting (run events idle).1 ≡ waiting idle ++ arrivals events
run-waiting_example = run-waiting events idle

abbrev empty_core : Iocore
empty_core = record idle { logpack_submit_queue = []; working = false }

abbrev asleep : Dispatching
asleep = record { core = empty_core; dispatching = 0 }

-- A write that comes while the queue is melted, and the thread that has been told to dispatch.
abbrev pushed : Dispatching
pushed = record { core = record empty_core { logpack_submit_queue = 6 ∷ [] }; dispatching = 1 }

Reach-IsAwake_example : IsAwake pushed
unfolding push_into_lpack_submit_queue
Reach-IsAwake_example =
    Reach-IsAwake {s = asleep} (record { frozen = inr refl; awake = inl refl })
      (next here (Step.push 6 refl))
