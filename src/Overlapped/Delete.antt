-- ===== src/Overlapped/Delete.antt =====
-- overlapped_delete_and_notify of module/overlapped_io.c keeps the invariant of the overlapped data and
-- submits the bio wrappers that wait no more.
use mathlib.Core.Option
use walb_driver.Common.{
  ℕ, ◌+◌, ◌≤◌, ◌<◌, ◌≡◌, sym, ap, ◌∙◌, Bool, true, false, ◌&&◌, Option, some, List, All, arith,
  length, ◌==◌, if◌then◌else◌, u64_mod,
}
use walb_driver.Biow.{Biow, bio_wrapper_end}
use walb_driver.Treemap.{to_list, RbTree}
use walb_driver.Treemap.Scan.{flat, scan}
use walb_driver.Treemap.Multimap.{Multimap, delete, contains, multimap_del, multimap_is_empty}
use walb_driver.Treemap.Stored.{multimap_del-Changed}
use walb_driver.Treemap.Tally.{one_if, count, in_range, fold_where}
use walb_driver.Treemap.Range.{scan-fold_where}
use walb_driver.Overlapped.{
  Notified, notify_overlap, overlapped_delete_and_notify, Overlapped, start_pos,
}
use walb_driver.Overlapped.Members.{
  Bounded-delete, Bounded-kept, delete-length, All-members, count-once, visits-count, Holds-deleted,
  Waits-delete, Lowered,
}
use walb_driver.Overlapped.Notify.{Met, fold-Met, fold-length}
use walb_driver.Overlapped.Insert.{Holds-length}
use walb_driver.Overlapped.Serial.{overlaps, Holds, Bounded, Serial}

module _ (info : ℕ → Biow) where
  -- What the deletion of a bio wrapper gives.
  pub record Deleted (s : Overlapped) (queue submit : List ℕ) (b : ℕ)
      (r : Option (ℕ × List ℕ × Overlapped)) : Type 0 where
    pub n_should_submit : ℕ
    pub submitted : List ℕ
    pub after : Overlapped
    pub returns : r ≡ some (n_should_submit, submitted, after)
    pub serial : Serial info after (delete b queue)
    pub number : length submitted ≡ n_should_submit + length submit
    pub woken :
        (u : ℕ)
        → count (λ v. v == u) submitted
          ≡ count (λ v. v == u) submit
            + one_if
                (contains u (delete b queue) && overlaps info b u && (after.n_overlapped u == 0))

  module _ (rb : RbTree (List ℕ)) (fuel : ℕ) {s : Overlapped} {queue : List ℕ}
      (i : Serial info s queue) (submit : List ℕ) (b : ℕ) (there : count (λ u. u == b) queue ≡ 1)
      (ready : s.n_overlapped b ≡ 0) (fits : (info b).pos + (info b).len < u64_mod)
      (enough : length queue ≤ fuel) where
    abbrev t' : Multimap
    t' = (multimap_del rb s.data_map ((info b).pos) b).1

    abbrev begin : Notified
    begin = record { waits = s.n_overlapped; submit = submit; n_should_submit = 0 }

    abbrev test : ℕ → ℕ → Bool
    test = in_range (start_pos s.max_sectors (info b)) (bio_wrapper_end (info b))

    abbrev done : Notified
    done = fold_where test (notify_overlap info b) begin (flat (to_list t'))

    held : Holds info t' (delete b queue)
    held =
        Holds-deleted info i.holds b there
          (multimap_del-Changed rb s.data_map i.holds.sorted i.holds.full ((info b).pos) b).1

    short : length (delete b queue) ≤ length queue
    short = delete-length b queue

    looped :
        scan rb t' fuel
          (start_pos s.max_sectors (info b))
          (bio_wrapper_end (info b))
          (notify_overlap info b)
          begin
        ≡ some done
    looped =
        scan-fold_where (start_pos s.max_sectors (info b)) (bio_wrapper_end (info b))
          (notify_overlap info b) rb t' fuel begin held.sorted held.full
          (omega (arith, Holds-length info held, short, enough))

    kept : Bounded info s.max_sectors (delete b queue)
    kept = Bounded-kept info s.max_sectors b queue i.bounded

    -- What the loop does to each bio wrapper.
    met : (u : ℕ) → Met info b test u (contains u (delete b queue) && overlaps info b u) begin done
    met u =
        fold-Met info b test u (contains u (delete b queue) && overlaps info b u) begin
          (flat (to_list t'))
          (visits-count info held b s.max_sectors u fits kept
            ∙ ground (arith, count-once u (delete b queue) (held.once u)))

    lowered : All (Lowered info s.n_overlapped done.waits b) (delete b queue)
    lowered =
        All-members (Lowered info s.n_overlapped done.waits b) (delete b queue)
          (λ u l. ground (arith, (met u).0, count-once u (delete b queue) (held.once u), l))

    put_on_list :
        (u : ℕ)
        → count (λ v. v == u) done.submit
          ≡ count (λ v. v == u) submit
            + one_if (contains u (delete b queue) && overlaps info b u && (done.waits u == 0))
    put_on_list u = go (contains u (delete b queue) && overlaps info b u) (met u)
      where
        go :
            (x : Bool)
            → Met info b test u x begin done
            → count (λ v. v == u) done.submit
              ≡ count (λ v. v == u) submit + one_if (x && (done.waits u == 0))
        go true m = m.1 ∙ ap (λ n. count (λ v. v == u) submit + one_if (n == 0)) (sym m.0)
        go false m = m.1

    -- With the invariant, a bio wrapper that is there and waits for none, and fuel for one step per bio
    -- wrapper there: overlapped_delete_and_notify returns; it takes out the bio wrapper and keeps the
    -- invariant; it puts on the list exactly the bio wrappers left that overlap and now wait for none,
    -- once each, and returns how many these are.
    pub overlapped_delete_and_notify-Serial :
        Deleted s queue submit b (overlapped_delete_and_notify info rb fuel s submit b)
    unfolding overlapped_delete_and_notify
    overlapped_delete_and_notify-Serial = record {
      n_should_submit = done.n_should_submit;
      submitted = done.submit;
      after = record {
        data_map = t';
        max_sectors = if multimap_is_empty rb t' then 0 else s.max_sectors;
        n_overlapped = done.waits;
        delayed = s.delayed;
      };
      returns =
          ap
            (Option.map (λ (r : Notified). (
              r.n_should_submit,
              r.submit,
              record {
                data_map = t';
                max_sectors = if multimap_is_empty rb t' then 0 else s.max_sectors;
                n_overlapped = r.waits;
                delayed = s.delayed;
              },
            )))
            looped;
      serial = record {
        holds = held;
        bounded = Bounded-delete info rb s.max_sectors b queue i.bounded held;
        waits =
            Waits-delete info s.n_overlapped done.waits b queue there ready i.few lowered i.waits;
        few = omega (arith, short, i.few);
      };
      number = omega (
        arith,
        fold-length info b test begin (flat (to_list t'))
            (omega (arith, Holds-length info held, short, i.few)),
      );
      woken = put_on_list;
    }
