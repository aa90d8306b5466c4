-- ===== src/Pending/Keep.antt =====
-- pending_insert and pending_delete of module/pending_io.c keep the multimap of the pending writes and
-- the bound on their lengths.
use walb_driver.Common.{
  ℕ, ◌+◌, ◌<◌, ◌≡◌, ◌≢◌, max, Bool, true, false, ◌&&◌, List, ◌∷◌, arith, ◌==◌, u64_mod,
}
use walb_driver.Biow.{Biow}
use walb_driver.Treemap.{RbTree}
use walb_driver.Treemap.Map.{Status, invalid_val}
use walb_driver.Treemap.Multimap.{Multimap, delete, multimap_add}
use walb_driver.Treemap.Tally.{count}
use walb_driver.Treemap.Stored.{
  MultimapAdded, refused, no_memory, exists, added, multimap_add-MultimapAdded,
  multimap_del-Changed,
}
use walb_driver.Overlapped.Serial.{Holds, Bounded}
use walb_driver.Overlapped.Insert.{Holds-added, contains-absent, Bounded-mono}
use walb_driver.Overlapped.Members.{Holds-deleted, Bounded-delete}
use walb_driver.Pending.{Pending, inserted_pending, pending_insert, pending_delete}

module _ (info : ℕ → Biow) where
  -- The multimap holds the pending writes, and the bound is above their lengths.
  pub record IsPending (s : Pending) (queue : List ℕ) : Type 0 where
    pub holds : Holds info s.data_map queue
    pub bounded : Bounded info s.max_sectors queue

  -- What pending_insert can come to.
  pub data PendingInserted (s : Pending) (queue : List ℕ) (b : ℕ) (memory_ok : Bool)
      : Bool × Pending → Type 0 where
    inserted :
        (s' : Pending) → IsPending s' (b ∷ queue) → PendingInserted s queue b memory_ok (true, s')
    failed : memory_ok ≡ false → PendingInserted s queue b memory_ok (false, s)

  module _ (rb : RbTree (List ℕ)) (s : Pending) (queue : List ℕ) (i : IsPending s queue)
      (b : ℕ) where
    -- With the invariant, and a bio wrapper that is new: pending_insert puts it into the multimap and
    -- keeps the invariant; or memory was lacking, and nothing changes.
    pub pending_insert-PendingInserted :
        count (λ u. u == b) queue ≡ 0
        → b ≢ invalid_val
        → (info b).pos + (info b).len < u64_mod
        → (cell_ok head_ok node_ok : Bool)
        → PendingInserted s queue b
            (cell_ok && head_ok && node_ok)
            (pending_insert info rb s b cell_ok head_ok node_ok)
    unfolding pending_insert
    pending_insert-PendingInserted new pointer fits cell_ok head_ok node_ok =
        go (multimap_add rb s.data_map ((info b).pos) b cell_ok head_ok node_ok) (
          multimap_add-MultimapAdded rb s.data_map i.holds.sorted i.holds.full ((info b).pos) b
            cell_ok head_ok node_ok)
      where
        go :
            (r : Status × Multimap)
            → MultimapAdded s.data_map ((info b).pos) b cell_ok head_ok node_ok r
            → PendingInserted s queue b
                (cell_ok && head_ok && node_ok)
                (inserted_pending info s b r)
        go r (refused x) = absurd (pointer x)
        go r (exists x) = absurd (contains-absent info i.holds b ((info b).pos) new x)
        go r (no_memory x) = failed (ground (arith, x))
        go r (added t' x y c) =
            inserted (record { data_map = t'; max_sectors = max s.max_sectors ((info b).len) })
              (record {
                holds = Holds-added info i.holds b new c;
                bounded = (
                  (fits, omega arith),
                  Bounded-mono info s.max_sectors (max s.max_sectors ((info b).len)) queue
                      (omega arith) i.bounded,
                );
              })

    -- With the invariant, and a bio wrapper that is there: pending_delete takes it out, keeps the
    -- others, and keeps the invariant.
    pub pending_delete-IsPending :
        count (λ u. u == b) queue ≡ 1 → IsPending (pending_delete info rb s b) (delete b queue)
    unfolding pending_delete
    pending_delete-IsPending there =
        let held =
          Holds-deleted info i.holds b there
            (multimap_del-Changed rb s.data_map i.holds.sorted i.holds.full ((info b).pos) b).1 in
        record {
          holds = held;
          bounded = Bounded-delete info rb s.max_sectors b queue i.bounded held;
        }
