-- ===== src/Backlog/Account.antt =====
-- pending_sectors (module/io.c) is the sum over the writes in flight, and the pending data has those of them
-- that are no discards and not overwritten.
use mathlib.Core.Option
use walb_driver.Common.{
  ℕ, ◌+◌, ◌-◌, ◌%◌, ◌≤◌, ◌<◌, ◌≡◌, ◌≢◌, refl, sym, ap, subst, ◌∙◌, inl, inr, Bool, true, false,
  ◌&&◌, ◌||◌, Option, some, List, ◌∷◌, arith, Bool-cases, length, ◌==◌, if◌then◌else◌, u64_mod,
  u32_mod,
}
use walb_driver.Biow.{Biow}
use walb_driver.Treemap.{RbTree}
use walb_driver.Treemap.Map.{invalid_val}
use walb_driver.Treemap.Multimap.{contains, delete}
use walb_driver.Treemap.Tally.{count, count-delete}
use walb_driver.Pending.{
  Pending, Overwriting, is_fully_overwritten, pending_insert, pending_delete,
  pending_delete_fully_overwritten, pending_insert_and_delete_fully_overwritten,
}
use walb_driver.Pending.Keep.{
  IsPending, PendingInserted, inserted, failed, pending_insert-PendingInserted,
  pending_delete-IsPending,
}
use walb_driver.Pending.Overwritten.{survivors, pending_delete_fully_overwritten-Overwrote}
use walb_driver.Overlapped.Members.{delete-same, All-delete, All-members, count-once}
use walb_driver.Backlog.{Backlog, account, insert_pending, delete_bio_wrapper_from_pending_data}
use walb_driver.Backlog.Alive.{
  total, alive, IsBacklog, count-alive, length-alive, All-alive, count-alive_same, alive-survivors,
  alive-delete, count-dead, total-delete,
}

module _ (info : ℕ → Biow) where
  -- What an attempt to insert can come to.
  pub data Attempted (flight : List ℕ) (b : ℕ) (memory_ok : Bool)
      : Option (Bool × Backlog) → Type 0 where
    done :
        (s : Backlog)
        → IsBacklog info s (b ∷ flight)
        → Attempted flight b memory_ok (some (true, s))
    lacking :
        (s : Backlog)
        → memory_ok ≡ false
        → IsBacklog info s flight
        → Attempted flight b memory_ok (some (false, s))

  module _ (rb : RbTree (List ℕ)) (s : Backlog) (flight : List ℕ) (i : IsBacklog info s flight)
      (b : ℕ) where
    module _ (new : count (λ u. u == b) flight ≡ 0) (pointer : b ≢ invalid_val)
        (fits : (info b).pos + (info b).len < u64_mod) (long : 0 < (info b).len)
        (fresh : s.overwritten b ≡ false) (room : total info flight + (info b).len < u32_mod)
        (fuel : ℕ) (enough : length flight < fuel) where
      insert_discard :
          (info b).discard ≡ true
          → IsBacklog info
              (record s { pending_sectors = (s.pending_sectors + 1) % u32_mod })
              (b ∷ flight)
      insert_discard d = record {
        sectors = rw d (omega (arith, i.sectors, room, long));
        pending = rw d i.pending;
        once = λ v. ground (arith, i.once v, new);
        small = rw d (omega (arith, room, long));
        positive = (long, i.positive);
      }

      -- The flags after pending_delete_fully_overwritten for `b`.
      Marks : (o' : ℕ → Bool) → Type 0
      Marks o' =
          (u : ℕ)
          → o' u ≡ (
              s.overwritten u
              || (contains u (b ∷ alive info s.overwritten flight)
                  && is_fully_overwritten info b u))

      alive_after :
          (o' : ℕ → Bool)
          → (info b).discard ≡ false
          → Marks o'
          → alive info o' (b ∷ flight) ≡ survivors info b (b ∷ alive info s.overwritten flight)
      unfolding Marks
      alive_after o' d m =
          alive-survivors info b s.overwritten o' (b ∷ flight) (b ∷ alive info s.overwritten flight)
            m ((λ e. ground arith), All-members members flight member)
          ∙ ap (survivors info b) {y = b ∷ alive info s.overwritten flight} (rw (d, fresh) refl)
        where
          members : ℕ → Type 0
          members u =
              ((info u).discard || s.overwritten u) ≡ false
              → contains u (b ∷ alive info s.overwritten flight) ≡ true

          member : (u : ℕ) → 1 ≤ count (λ v. v == u) flight → members u
          member u l e = ground (
            arith,
            l,
            count-alive_same info s.overwritten u flight e,
            count-once u (alive info s.overwritten flight),
            count-alive info s.overwritten u flight,
            i.once u,
          )

      -- The pending data after pending_insert.
      pruned :
          (memory_ok : Bool) (p : Pending)
          → (info b).discard ≡ false
          → IsPending info p (b ∷ alive info s.overwritten flight)
          → Attempted flight b memory_ok (
              Option.map (account info rb s b) (
                Option.map
                  (λ (r : Overwriting). (true, record p { data_map = r.data_map }, r.overwritten))
                  (pending_delete_fully_overwritten info rb fuel
                    (record { data_map = p.data_map; overwritten = s.overwritten })
                    b)))
      unfolding Marks
      pruned memory_ok p d k =
          let w =
            pending_delete_fully_overwritten-Overwrote info b rb fuel p s.overwritten
              (b ∷ alive info s.overwritten flight) k fits
              (long, All-alive info (λ u. 0 < (info u).len) s.overwritten flight i.positive)
              (omega (arith, length-alive info s.overwritten flight)) in
          rw w.returns (
            done
              (account info rb s b
                (true, record p { data_map = w.result.data_map }, w.result.overwritten)).1
              (record {
                sectors = rw d (omega (arith, i.sectors, room));
                pending =
                    subst (IsPending info (record p { data_map = w.result.data_map }))
                      (sym (alive_after w.result.overwritten d w.marked)) w.pending;
                once = λ v. ground (arith, i.once v, new);
                small = rw d (omega (arith, room));
                positive = (long, i.positive);
              }))

      -- With the invariant, a write that is new, not empty and not marked, room for its sectors below 2 ^ 32,
      -- and fuel for one step per write in flight: an attempt returns. It succeeds and keeps the invariant,
      -- with the write in flight; or memory was lacking, and the invariant holds without the write.
      pub insert_pending-Attempted :
          (cell_ok head_ok node_ok : Bool)
          → Attempted flight b
              (cell_ok && head_ok && node_ok)
              (insert_pending info rb fuel s b cell_ok head_ok node_ok)
      unfolding insert_pending pending_insert_and_delete_fully_overwritten
      insert_pending-Attempted cell_ok head_ok node_ok = elim (Bool-cases (info b).discard) [
        | inl d ↦ rw d (
            done (record s { pending_sectors = (s.pending_sectors + 1) % u32_mod })
              (insert_discard d))
        | inr d ↦ rw d (
            go d (pending_insert info rb s.pending b cell_ok head_ok node_ok) (
              pending_insert-PendingInserted info rb s.pending (alive info s.overwritten flight)
                i.pending b (omega (arith, count-alive info s.overwritten b flight, new)) pointer
                fits cell_ok head_ok node_ok))
      ]
        where
          go :
              (info b).discard ≡ false
              → (r : Bool × Pending)
              → PendingInserted info s.pending
                  (alive info s.overwritten flight)
                  b
                  (cell_ok && head_ok && node_ok)
                  r
              → Attempted flight b (cell_ok && head_ok && node_ok) (
                  Option.map (account info rb s b) (
                    if r.0
                    then Option.map
                        (λ (x : Overwriting).
                          (true, record (r.1) { data_map = x.data_map }, x.overwritten))
                        (pending_delete_fully_overwritten info rb fuel
                          (record { data_map = r.1.data_map; overwritten = s.overwritten })
                          b)
                    else some (false, r.1, s.overwritten)))
          go d r (inserted p k) = pruned (cell_ok && head_ok && node_ok) p d k
          go d r (failed e) =
              lacking (account info rb s b (false, s.pending, s.overwritten)).1 e (record {
                sectors = omega (arith, i.sectors, room);
                pending = i.pending;
                once = i.once;
                small = i.small;
                positive = i.positive;
              })

    module _ (there : count (λ u. u == b) flight ≡ 1) where
      small_again : total info (delete b flight) < u32_mod
      small_again = omega (arith, i.small, total-delete info b flight there)

      -- A write that stands no more in the pending data.
      dead_same :
          ((info b).discard || s.overwritten b) ≡ true
          → alive info s.overwritten (delete b flight) ≡ alive info s.overwritten flight
      dead_same e =
          alive-delete info s.overwritten b flight
          ∙ delete-same b (alive info s.overwritten flight)
              (count-dead info s.overwritten b flight e)

      still_pending :
          ((info b).discard || s.overwritten b) ≡ true
          → IsPending info s.pending (alive info s.overwritten (delete b flight))
      still_pending e = subst (IsPending info s.pending) (sym (dead_same e)) i.pending

      taken_out :
          ((info b).discard || s.overwritten b) ≡ false
          → IsPending info
              (pending_delete info rb s.pending b)
              (alive info s.overwritten (delete b flight))
      taken_out e =
          subst (IsPending info (pending_delete info rb s.pending b))
            (sym (alive-delete info s.overwritten b flight))
            (pending_delete-IsPending info rb s.pending (alive info s.overwritten flight) i.pending
              b (count-alive_same info s.overwritten b flight e ∙ there))

      without :
          (pending : Pending) (sectors : ℕ)
          → sectors ≡ total info (delete b flight)
          → IsPending info pending (alive info s.overwritten (delete b flight))
          → IsBacklog info
              (record s { pending_sectors = sectors; pending = pending })
              (delete b flight)
      without pending sectors e k = record {
        sectors = e;
        pending = k;
        once = λ v. omega (arith, count-delete (λ u. u == v) b flight, i.once v);
        small = small_again;
        positive = All-delete b (λ u. 0 < (info u).len) flight i.positive;
      }

      -- With the invariant and a write in flight: delete_bio_wrapper_from_pending_data takes it out and
      -- keeps the invariant.
      pub delete_bio_wrapper_from_pending_data-IsBacklog :
          (jiffies min_pending_sectors : ℕ)
          → IsBacklog info
              (delete_bio_wrapper_from_pending_data info rb jiffies min_pending_sectors s b).1
              (delete b flight)
      unfolding delete_bio_wrapper_from_pending_data
      delete_bio_wrapper_from_pending_data-IsBacklog jiffies min =
          elim (Bool-cases (info b).discard) [
            | inl d ↦ rw d (
                without s.pending ((s.pending_sectors + u32_mod - 1) % u32_mod)
                  (ground (arith, i.sectors, i.small, total-delete info b flight there, d))
                  (still_pending (ground (arith, d))))
            | inr d ↦ elim (Bool-cases (s.overwritten b)) [
              | inl o ↦
                  rw (d, o)
                    (without s.pending ((s.pending_sectors + u32_mod - (info b).len) % u32_mod)
                      (ground (arith, i.sectors, i.small, total-delete info b flight there, d))
                      (still_pending (ground (arith, d, o))))
              | inr o ↦
                  rw (d, o)
                    (without (pending_delete info rb s.pending b)
                      ((s.pending_sectors + u32_mod - (info b).len) % u32_mod)
                      (ground (arith, i.sectors, i.small, total-delete info b flight there, d))
                      (taken_out (ground (arith, d, o))))
            ]
          ]
