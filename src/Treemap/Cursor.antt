-- ===== src/Treemap/Cursor.antt =====
-- The map_cursor_* functions of module/treemap.c. A cursor holds pointers to nodes; the map that it
-- points to is an argument.
use mathlib.Core.Option
use walb_driver.Common.{ℕ, ◌-◌, ◌^◌, Bool, true, false, ◌&&◌, Option, none, some, if◌then◌else◌}
use walb_driver.Treemap.{Tree, RbTree}
use walb_driver.Treemap.Lookup.{
  SearchFlag, search_begin, search_end, map_lookup_node_detail, map_first, map_last, map_next,
  map_prev,
}
use walb_driver.Treemap.Map.{node_val, invalid_val}

-- MAP_CURSOR_BEGIN, MAP_CURSOR_END, MAP_CURSOR_DATA, MAP_CURSOR_INVALID
pub data CursorState : Type 0 where
  at_begin at_end at_data invalid : CursorState

-- TREEMAP_INVALID_KEY
abbrev pub invalid_key : ℕ
invalid_key = 2 ^ 64 - 1

pub record MapCursor : Type 0 where
  pub state : CursorState
  pub prev : Option ℕ
  pub curr : Option ℕ
  pub next : Option ℕ

abbrev pub is_data : CursorState → Bool
is_data at_data = true
is_data _ = false

abbrev pub is_null : Option ℕ → Bool
is_null none = true
is_null (some n) = false

abbrev pub is_set : Option ℕ → Bool
is_set none = false
is_set (some n) = true

unfoldable pub is_valid_map_cursor : MapCursor → Bool
is_valid_map_cursor c = elim c.state [
  | at_begin ↦ is_null c.prev && is_null c.curr
  | at_end ↦ is_null c.curr && is_null c.next
  | at_data ↦ is_set c.curr
  | invalid ↦ true
]

-- map_cursor_init, and make_map_cursor_invalid, which writes the same fields.
abbrev pub map_cursor_init : MapCursor
map_cursor_init = record { state = invalid; prev = none; curr = none; next = none }

module _ {A : Type 0} (rb : RbTree A) (map : Tree A) where
  unfoldable pub map_cursor_begin : MapCursor
  map_cursor_begin = record { state = at_begin; prev = none; curr = none; next = map_first rb map }

  unfoldable pub map_cursor_end : MapCursor
  map_cursor_end = record { state = at_end; prev = map_last rb map; curr = none; next = none }

  -- The default branch of map_cursor_search.
  unfoldable pub seek : Option ℕ → MapCursor
  seek none = map_cursor_init
  seek (some n) = record {
    state = at_data;
    prev = map_prev rb map (some n);
    curr = some n;
    next = map_next rb map (some n);
  }

  unfoldable pub map_cursor_search : ℕ → SearchFlag → MapCursor
  unfolding map_cursor_begin map_cursor_end seek
  map_cursor_search key search_begin = map_cursor_begin
  map_cursor_search key search_end = map_cursor_end
  map_cursor_search key flag = seek (map_lookup_node_detail rb map key flag)

  -- The step forward from the beginning or from data.
  unfoldable pub forward : MapCursor → MapCursor
  forward c = record {
    state = elim c.next [ none ↦ at_end | some n ↦ at_data ];
    prev = c.curr;
    curr = c.next;
    next = map_next rb map c.next;
  }

  unfoldable pub map_cursor_next : MapCursor → MapCursor
  unfolding forward
  map_cursor_next c = elim c.state [
    | at_begin ↦ forward c
    | at_data ↦ forward c
    | at_end ↦ c
    | invalid ↦ c
  ]

  unfoldable pub backward : MapCursor → MapCursor
  backward c = record {
    state = elim c.prev [ none ↦ at_begin | some n ↦ at_data ];
    prev = map_prev rb map c.prev;
    curr = c.prev;
    next = c.curr;
  }

  unfoldable pub map_cursor_prev : MapCursor → MapCursor
  unfolding backward
  map_cursor_prev c = elim c.state [
    | at_end ↦ backward c
    | at_data ↦ backward c
    | at_begin ↦ c
    | invalid ↦ c
  ]

  unfoldable pub map_cursor_key : MapCursor → ℕ
  map_cursor_key c = if is_data c.state then Option.get_or c.curr invalid_key else invalid_key

  -- The deletion steps forward, keeps the previous node, and erases the node.
  unfoldable pub map_cursor_del : MapCursor → Bool × MapCursor × Tree A
  map_cursor_del c = elim c.state [
    | at_data ↦ elim c.curr [
      | none ↦ (false, c, map)
      | some n ↦ (true, record (map_cursor_next c) { prev = c.prev }, rb.erase n map)
    ]
    | other ↦ (false, c, map)
  ]

unfoldable pub map_cursor_val : Tree ℕ → MapCursor → ℕ
map_cursor_val map c =
    if is_data c.state
    then Option.get_or (Option.bind c.curr (λ n. node_val map n)) invalid_val
    else invalid_val
