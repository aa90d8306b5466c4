-- ===== src/Tests/Flight.antt =====
-- The overlapped data (module/overlapped_io.c) with three bio wrappers, of which two overlap.
use walb_driver.Common.{ℕ, refl, true, false, List, [], ◌∷◌, arith, if◌then◌else◌, ◌==◌}
use walb_driver.Biow.{Biow}
use walb_driver.Treemap.{leaf, node}
use walb_driver.Overlapped.{Overlapped, overlapped_check_and_insert, overlapped_delete_and_notify}
use walb_driver.Overlapped.Serial.{Serial}
use walb_driver.Overlapped.Insert.{CheckedInserted, overlapped_check_and_insert-Serial}
use walb_driver.Overlapped.Delete.{Deleted, overlapped_delete_and_notify-Serial}
use walb_driver.Tests.Trees.{unbalanced}

abbrev biow_at : ℕ → Biow
biow_at pos = record { pos = pos; len = 8; lsid = 0; discard = false }

-- The bio wrappers by pointer: the second overlaps the first, the fourth both.
abbrev info : ℕ → Biow
info p =
    if p == 1
    then biow_at 100
    else if p == 2
    then biow_at 104
    else if p == 4
    then biow_at 102
    else biow_at 200

abbrev in_flight : Overlapped
in_flight = record {
  data_map = node (node leaf 100 (1 ∷ []) leaf) 104 (2 ∷ []) (node leaf 200 (3 ∷ []) leaf);
  max_sectors = 8;
  n_overlapped = λ p. if p == 2 then 1 else 0;
  delayed = λ p. p == 2;
}

abbrev queue : List ℕ
queue = 3 ∷ 2 ∷ 1 ∷ []

in_flight-Serial : Serial info in_flight queue
in_flight-Serial = record {
  holds = record {
    sorted = ((omega arith, (omega arith, tt)), ((omega arith, tt), (tt, tt)));
    full = ((λ e. ground (arith, e)), ((λ e. ground (arith, e)), ((λ e. ground (arith, e)), tt)));
    bag = λ p. omega arith;
    once = λ v. ground arith;
  };
  bounded =
      ((omega arith, omega arith), ((omega arith, omega arith), ((omega arith, omega arith), tt)));
  waits = (refl, (refl, (refl, tt)));
  few = omega arith;
}

overlapped_check_and_insert-Serial_example :
    CheckedInserted info in_flight queue 4 true
      (overlapped_check_and_insert info unbalanced 3 in_flight 4 true true true)
overlapped_check_and_insert-Serial_example =
    overlapped_check_and_insert-Serial info unbalanced 3 in_flight-Serial 4 refl
      (λ e. ground (arith, e)) (omega arith) refl (omega arith) (omega arith) true true true

overlapped_delete_and_notify-Serial_example :
    Deleted info in_flight queue [] 1
      (overlapped_delete_and_notify info unbalanced 3 in_flight [] 1)
overlapped_delete_and_notify-Serial_example =
    overlapped_delete_and_notify-Serial info unbalanced 3 in_flight-Serial [] 1 refl refl
      (omega arith) (omega arith)
