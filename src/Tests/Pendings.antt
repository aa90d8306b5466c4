-- ===== src/Tests/Pendings.antt =====
-- Writes in flight (module/pending_io.c and module/io.c), of which a new one hides two.
use walb_driver.Common.{
  ℕ, ◌&&◌, ◌<◌, ◌≡◌, refl, true, false, Bool, some, List, [], ◌∷◌, All, arith, if◌then◌else◌, ◌==◌,
}
use walb_driver.Biow.{Biow}
use walb_driver.Treemap.{leaf, node}
use walb_driver.Treemap.Multimap.{delete}
use walb_driver.Pending.{Pending, Overwriting, pending_sources, pending_delete_fully_overwritten}
use walb_driver.Pending.Keep.{IsPending}
use walb_driver.Pending.Newest.{covers, last_covering, ReadFrom}
use walb_driver.Pending.Overwritten.{Overwrote, pending_delete_fully_overwritten-Overwrote}
use walb_driver.Pending.Hidden.{pending_delete_fully_overwritten-sources}
use walb_driver.Backlog.{Backlog, insert_pending, delete_bio_wrapper_from_pending_data}
use walb_driver.Backlog.Alive.{IsBacklog}
use walb_driver.Backlog.Account.{
  Attempted, insert_pending-Attempted, delete_bio_wrapper_from_pending_data-IsBacklog,
}
use walb_driver.Backlog.Restart.{delete_bio_wrapper_from_pending_data-starts}
use walb_driver.Tests.Trees.{unbalanced}

abbrev write_of : ℕ → ℕ → ℕ → Biow
write_of pos len lsid = record { pos = pos; len = len; lsid = lsid; discard = false }

-- The bio wrappers by pointer: the fifth covers the first two; the fourth is a read.
abbrev info : ℕ → Biow
info p =
    if p == 1
    then write_of 100 8 7
    else if p == 2
    then write_of 104 8 5
    else if p == 4
    then write_of 102 8 0
    else if p == 5
    then write_of 96 24 11
    else write_of 200 8 9

abbrev flight : List ℕ
flight = 5 ∷ 3 ∷ 2 ∷ 1 ∷ []

abbrev stored : Pending
stored = record {
  data_map =
      node (node leaf 96 (5 ∷ []) (node leaf 100 (1 ∷ []) leaf)) 104 (2 ∷ [])
        (node leaf 200 (3 ∷ []) leaf);
  max_sectors = 24;
}

abbrev unmarked : ℕ → Bool
unmarked p = false

stored-IsPending : IsPending info stored flight
stored-IsPending = record {
  holds = record {
    sorted = (
      (omega arith, (omega arith, (omega arith, tt))),
      ((omega arith, (omega arith, tt)), ((omega arith, tt), (tt, tt))),
    );
    full = (
      (λ e. ground (arith, e)),
      ((λ e. ground (arith, e)), ((λ e. ground (arith, e)), ((λ e. ground (arith, e)), tt))),
    );
    bag = λ p. omega arith;
    once = λ v. ground arith;
  };
  bounded = (
    (omega arith, omega arith),
    ((omega arith, omega arith), ((omega arith, omega arith), ((omega arith, omega arith), tt))),
  );
}

positive : All (λ u. 0 < (info u).len) flight
positive = (omega arith, (omega arith, (omega arith, (omega arith, tt))))

pending_delete_fully_overwritten-Overwrote_example :
    Overwrote info 5 unbalanced 9 stored unmarked flight (
      pending_delete_fully_overwritten info unbalanced 9
        (record { data_map = stored.data_map; overwritten = unmarked })
        5)
pending_delete_fully_overwritten-Overwrote_example =
    pending_delete_fully_overwritten-Overwrote info 5 unbalanced 9 stored unmarked flight
      stored-IsPending (omega arith) positive (omega arith)

pending_delete_fully_overwritten-sources_example :
    (t : Overwriting) × (pending_delete_fully_overwritten info unbalanced 9
        (record { data_map = stored.data_map; overwritten = unmarked })
        5
      ≡ some t)
    × (l : List ℕ) × (pending_sources info unbalanced 9 (record stored { data_map = t.data_map }) 4
        ≡ some l)
    × ((x : ℕ) → covers info 4 x ≡ true → ReadFrom info flight x (last_covering info x l))
pending_delete_fully_overwritten-sources_example =
    pending_delete_fully_overwritten-sources info 5 flight refl refl (λ v c. ground (arith, c))
      unbalanced 9 stored unmarked stored-IsPending (omega arith) positive (omega arith) 4
      (omega arith)

abbrev backlog : Backlog
backlog = record {
  pending = stored;
  overwritten = unmarked;
  pending_sectors = 48;
  queue_stopped = true;
  queue_restart_jiffies = 0;
}

backlog-IsBacklog : IsBacklog info backlog flight
backlog-IsBacklog = record {
  sectors = refl;
  pending = stored-IsPending;
  once = λ v. ground arith;
  small = omega arith;
  positive = positive;
}

-- A write beside the third.
insert_pending-Attempted_example :
    Attempted info flight 6
      (true && true && true)
      (insert_pending info unbalanced 9 backlog 6 true true true)
insert_pending-Attempted_example =
    insert_pending-Attempted info unbalanced backlog flight backlog-IsBacklog 6 refl
      (λ e. ground (arith, e)) (omega arith) (omega arith) refl (omega arith) 9 (omega arith) true
      true true

delete_bio_wrapper_from_pending_data-IsBacklog_example :
    IsBacklog info
      (delete_bio_wrapper_from_pending_data info unbalanced 7 4 backlog 2).1
      (delete 2 flight)
delete_bio_wrapper_from_pending_data-IsBacklog_example =
    delete_bio_wrapper_from_pending_data-IsBacklog info unbalanced backlog flight backlog-IsBacklog
      2 refl 7 4

abbrev last_one : Backlog
last_one = record backlog {
  pending = record { data_map = node leaf 96 (5 ∷ []) leaf; max_sectors = 24 };
  pending_sectors = 24;
}

last_one-IsBacklog : IsBacklog info last_one (5 ∷ [])
last_one-IsBacklog = record {
  sectors = refl;
  pending = record {
    holds = record {
      sorted = (tt, tt);
      full = ((λ e. ground (arith, e)), tt);
      bag = λ p. omega arith;
      once = λ v. ground arith;
    };
    bounded = ((omega arith, omega arith), tt);
  };
  once = λ v. ground arith;
  small = omega arith;
  positive = (omega arith, tt);
}

delete_bio_wrapper_from_pending_data-starts_example :
    (delete_bio_wrapper_from_pending_data info unbalanced 7 4 last_one 5).0 ≡ true
delete_bio_wrapper_from_pending_data-starts_example =
    delete_bio_wrapper_from_pending_data-starts info unbalanced last_one 5 7 4 last_one-IsBacklog
      refl (omega arith)
