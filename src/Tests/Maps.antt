-- ===== src/Tests/Maps.antt =====
-- Maps and multimaps (module/treemap.c) with concrete entries.
use walb_driver.Common.{ℕ, ◌≡◌, refl, true, some, List, [], ◌∷◌, ◌++◌, arith, if◌then◌else◌}
use walb_driver.Treemap.{Tree, to_list, keys}
use walb_driver.Treemap.Lists.{IsSorted}
use walb_driver.Treemap.Lookup.{map_lookup_node_detail, search_le}
use walb_driver.Treemap.Search.{wanted}
use walb_driver.Treemap.Found.{map_lookup_node_detail-wanted}
use walb_driver.Treemap.Map.{invalid_val, map_empty, map_is_empty}
use walb_driver.Treemap.Walks.{map_empty-empties}
use walb_driver.Treemap.Multimap.{multimap_del, contains, delete}
use walb_driver.Treemap.Scan.{IsFull, flat, scan}
use walb_driver.Treemap.Values.{Changed, cells_of}
use walb_driver.Treemap.Stored.{multimap_del-Changed}
use walb_driver.Treemap.Tally.{in_range, fold_where}
use walb_driver.Treemap.Cursor.{at_data}
use walb_driver.Treemap.MultiCursor.{MultimapCursor, multimap_cursor_del}
use walb_driver.Treemap.Position.{Stands}
use walb_driver.Treemap.Deletion.{Deleted, multimap_cursor_del-Deleted}
use walb_driver.Treemap.Range.{scan-fold_where}
use walb_driver.Tests.Trees.{unbalanced, three_keys}

keys-IsSorted : IsSorted (to_list three_keys)
keys-IsSorted = ((omega arith, (omega arith, tt)), ((omega arith, tt), (tt, tt)))

keys-IsFull : IsFull (to_list three_keys)
keys-IsFull = ((λ e. ground (arith, e)), ((λ e. ground (arith, e)), ((λ e. ground (arith, e)), tt)))

map_lookup_node_detail-wanted_example :
    map_lookup_node_detail unbalanced three_keys 25 search_le
    ≡ wanted search_le 25 (keys (to_list three_keys))
map_lookup_node_detail-wanted_example =
    map_lookup_node_detail-wanted unbalanced three_keys keys-IsSorted 25 search_le

map_empty-empties_example :
    (t' : Tree (List ℕ)) × (map_empty unbalanced 3 three_keys ≡ some t')
    × (map_is_empty unbalanced t' ≡ true)
map_empty-empties_example = map_empty-empties unbalanced three_keys 3 (omega arith)

multimap_del-Changed_example :
    ((multimap_del unbalanced three_keys 20 2).0
      ≡ (if contains 2 (cells_of 20 (to_list three_keys)) then 2 else invalid_val))
    × Changed 20
        (cells_of 20 (to_list three_keys))
        (delete 2 (cells_of 20 (to_list three_keys)))
        (to_list three_keys)
        (to_list (multimap_del unbalanced three_keys 20 2).1)
multimap_del-Changed_example =
    multimap_del-Changed unbalanced three_keys keys-IsSorted keys-IsFull 20 2

scan-fold_where_example :
    scan unbalanced three_keys 4 15 31 (λ s v. s ++ v ∷ []) []
    ≡ some (fold_where (in_range 15 31) (λ s v. s ++ v ∷ []) [] (flat (to_list three_keys)))
scan-fold_where_example =
    scan-fold_where 15 31 (λ s v. s ++ v ∷ []) unbalanced three_keys 4 [] keys-IsSorted keys-IsFull
      (omega arith)

-- A cursor at the first of the two values of a key.
abbrev at_twenty : MultimapCursor
at_twenty = record {
  curt = record { state = at_data; prev = some 10; curr = some 20; next = some 30 };
  head = some 20;
  cell = 3 ∷ 2 ∷ [];
}

at_twenty-Stands : Stands three_keys at_twenty 20 3 ((20, 2) ∷ (30, 4) ∷ [])
at_twenty-Stands = record {
  pre = (10, 1 ∷ []) ∷ [];
  us = [];
  more = 2 ∷ [];
  post = (30, 4 ∷ []) ∷ [];
  eq = refl;
  state = refl;
  curr = refl;
  next = refl;
  head = refl;
  cell = refl;
  rest = refl;
}

multimap_cursor_del-Deleted_example :
    Deleted 20 3
      ((20, 2) ∷ (30, 4) ∷ [])
      three_keys
      (multimap_cursor_del unbalanced three_keys at_twenty)
multimap_cursor_del-Deleted_example =
    multimap_cursor_del-Deleted unbalanced three_keys keys-IsSorted keys-IsFull at_twenty-Stands
