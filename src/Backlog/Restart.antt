-- ===== src/Backlog/Restart.antt =====
-- The queue is not stopped for ever (module/io.c): the last write in flight starts it again.
use walb_driver.Common.{ℕ, ◌<◌, ◌≡◌, true, List, [], ◌∷◌, arith}
use walb_driver.Biow.{Biow}
use walb_driver.Treemap.{RbTree}
use walb_driver.Backlog.{Backlog, should_start_queue, delete_bio_wrapper_from_pending_data}
use walb_driver.Backlog.Alive.{IsBacklog}

module _ (info : ℕ → Biow) (rb : RbTree (List ℕ)) where
  -- With the invariant and the queue stopped, and min_pending_sectors not zero: when the last write in flight
  -- is deleted, at whatever time, delete_bio_wrapper_from_pending_data says to start the queue.
  pub delete_bio_wrapper_from_pending_data-starts :
      (s : Backlog) (b jiffies min_pending_sectors : ℕ)
      → IsBacklog info s (b ∷ [])
      → s.queue_stopped ≡ true
      → 0 < min_pending_sectors
      → (delete_bio_wrapper_from_pending_data info rb jiffies min_pending_sectors s b).0 ≡ true
  unfolding delete_bio_wrapper_from_pending_data should_start_queue
  delete_bio_wrapper_from_pending_data-starts s b jiffies min i stopped l =
      ground (arith, i.sectors, i.positive.0)
