-- ===== src/Tests/Reads.antt =====
-- The pending data (module/pending_io.c) with three writes, of which two cover the same sectors.
use walb_driver.Common.{ℕ, ◌≡◌, refl, true, false, some, List, [], ◌∷◌, arith, if◌then◌else◌, ◌==◌}
use walb_driver.Biow.{Biow}
use walb_driver.Treemap.{leaf, node}
use walb_driver.Treemap.Multimap.{delete}
use walb_driver.Pending.{Pending, pending_insert, pending_delete, pending_sources}
use walb_driver.Pending.Keep.{
  IsPending, PendingInserted, pending_insert-PendingInserted, pending_delete-IsPending,
}
use walb_driver.Pending.Newest.{covers, last_covering, ReadFrom, pending_sources-newest}
use walb_driver.Tests.Trees.{unbalanced}

abbrev write_at : ℕ → ℕ → Biow
write_at pos lsid = record { pos = pos; len = 8; lsid = lsid; discard = false }

-- The bio wrappers by pointer; the fourth is a read.
abbrev writes : ℕ → Biow
writes p =
    if p == 1
    then write_at 100 7
    else if p == 2
    then write_at 104 5
    else if p == 4
    then write_at 102 0
    else write_at 200 9

abbrev in_memory : Pending
in_memory = record {
  data_map = node (node leaf 100 (1 ∷ []) leaf) 104 (2 ∷ []) (node leaf 200 (3 ∷ []) leaf);
  max_sectors = 8;
}

abbrev members : List ℕ
members = 3 ∷ 2 ∷ 1 ∷ []

in_memory-IsPending : IsPending writes in_memory members
in_memory-IsPending = record {
  holds = record {
    sorted = ((omega arith, (omega arith, tt)), ((omega arith, tt), (tt, tt)));
    full = ((λ e. ground (arith, e)), ((λ e. ground (arith, e)), ((λ e. ground (arith, e)), tt)));
    bag = λ p. omega arith;
    once = λ v. ground arith;
  };
  bounded =
      ((omega arith, omega arith), ((omega arith, omega arith), ((omega arith, omega arith), tt)));
}

pending_insert-PendingInserted_example :
    PendingInserted writes in_memory members 4 true
      (pending_insert writes unbalanced in_memory 4 true true true)
pending_insert-PendingInserted_example =
    pending_insert-PendingInserted writes unbalanced in_memory members in_memory-IsPending 4 refl
      (λ e. ground (arith, e)) (omega arith) true true true

pending_delete-IsPending_example :
    IsPending writes (pending_delete writes unbalanced in_memory 2) (delete 2 members)
pending_delete-IsPending_example =
    pending_delete-IsPending writes unbalanced in_memory members in_memory-IsPending 2 refl

pending_sources-newest_example :
    (l : List ℕ) × (pending_sources writes unbalanced 3 in_memory 4 ≡ some l)
    × ((x : ℕ) → covers writes 4 x ≡ true → ReadFrom writes members x (last_covering writes x l))
pending_sources-newest_example =
    pending_sources-newest writes unbalanced 3 in_memory in_memory-IsPending.holds
      in_memory-IsPending.bounded 4 (omega arith) (omega arith)
