-- ===== src/Treemap/MultiCursor.antt =====
-- The multimap_cursor_* functions of module/treemap.c. `head` is the cell head, told apart by its key;
-- `cell` is the pointer into the list of cells, as what is left of the list from that cell on.
use mathlib.Core.Option
use walb_driver.Common.{
  ℕ, Bool, true, false, Option, none, some, List, [], ◌∷◌, ◌++◌, ◌-◌, take, length, ◌==◌,
  if◌then◌else◌,
}
use walb_driver.Treemap.{RbTree}
use walb_driver.Treemap.Lookup.{SearchFlag}
use walb_driver.Treemap.Map.{node_val, invalid_val}
use walb_driver.Treemap.Multimap.{Multimap, set_cells}
use walb_driver.Treemap.Cursor.{
  at_begin, at_end, at_data, invalid, MapCursor, is_data, map_cursor_init, map_cursor_begin,
  map_cursor_end, map_cursor_search, map_cursor_next, map_cursor_del, invalid_key,
}

pub record MultimapCursor : Type 0 where
  pub curt : MapCursor
  pub head : Option ℕ
  pub cell : List ℕ

-- The cells of the node that a map cursor stands at.
abbrev pub cells_at : Multimap → Option ℕ → List ℕ
cells_at t n = Option.get_or (Option.bind n (λ k. node_val t k)) []

-- get_tree_cell_end
abbrev pub last_cell : List ℕ → List ℕ
last_cell [] = []
last_cell (v ∷ []) = v ∷ []
last_cell (v ∷ u ∷ us) = last_cell (u ∷ us)

-- get_tree_cell_next
abbrev pub next_cell : List ℕ → List ℕ
next_cell [] = []
next_cell (v ∷ vs) = vs

abbrev pub multimap_cursor_init : MultimapCursor
multimap_cursor_init = record { curt = map_cursor_init; head = none; cell = [] }

-- A cursor at the first cell of the node that its map cursor stands at, if it stands at one.
unfoldable pub at_first_cell : Multimap → MapCursor → MultimapCursor
at_first_cell t c =
    if is_data c.state
    then record { curt = c; head = c.curr; cell = cells_at t c.curr }
    else record { curt = c; head = none; cell = [] }

-- hlist_del: the list without the cell that is pointed to.
abbrev pub without_cell : List ℕ → List ℕ → List ℕ
without_cell vs cell = take (length vs - length cell) vs ++ next_cell cell

abbrev pub unlink_cell : Multimap → Option ℕ → List ℕ → List ℕ → Multimap
unlink_cell t none vs cell = t
unlink_cell t (some k) vs cell = set_cells t k (without_cell vs cell)

module _ (rb : RbTree (List ℕ)) (t : Multimap) where
  -- The switch on the state that the search of the map has left.
  abbrev pub searched : MultimapCursor → Bool → MapCursor → Bool × MultimapCursor
  searched c is_end cur = elim cur.state [
    | invalid ↦ (false, record c { curt = cur })
    | at_data ↦ (
      true,
      record {
        curt = cur;
        head = cur.curr;
        cell = if is_end then last_cell (cells_at t cur.curr) else cells_at t cur.curr;
      },
    )
    | other ↦ (true, record { curt = cur; head = none; cell = [] })
  ]

  -- The result is whether the key was found; then the cursor stands at its first or last cell.
  unfoldable pub multimap_cursor_search :
      MultimapCursor → ℕ → SearchFlag → Bool → Bool × MultimapCursor
  multimap_cursor_search c key flag is_end = searched c is_end (map_cursor_search rb t key flag)

  -- From data: the next cell of the list, or else the first cell of the next node.
  unfoldable pub step_cell : MultimapCursor → List ℕ → MultimapCursor
  step_cell c [] = at_first_cell t (map_cursor_next rb t c.curt)
  step_cell c (v ∷ vs) = record c { cell = v ∷ vs }

  unfoldable pub multimap_cursor_next : MultimapCursor → MultimapCursor
  unfolding at_first_cell step_cell
  multimap_cursor_next c = elim c.curt.state [
    | at_begin ↦ at_first_cell t (map_cursor_next rb t c.curt)
    | at_data ↦ step_cell c (next_cell c.cell)
    | at_end ↦ c
    | invalid ↦ c
  ]

  -- The deletion of the cell that the cursor stands at. The cursor goes on to the next cell; the
  -- last cell of a node goes with the node.
  unfoldable pub multimap_cursor_del : MultimapCursor → Bool × MultimapCursor × Multimap
  multimap_cursor_del c = elim c.curt.state [
    | at_data ↦
        if length (cells_at t c.head) == 1
        then (let (done, curt', t') = map_cursor_del rb t c.curt in
            (true, record (multimap_cursor_next c) { curt = curt' }, t'))
        else (true, multimap_cursor_next c, unlink_cell t c.head (cells_at t c.head) c.cell)
    | other ↦ (false, c, t)
  ]

  unfoldable pub multimap_cursor_begin : MultimapCursor
  multimap_cursor_begin = record { curt = map_cursor_begin rb t; head = none; cell = [] }

  unfoldable pub multimap_cursor_end : MultimapCursor
  multimap_cursor_end = record { curt = map_cursor_end rb t; head = none; cell = [] }

unfoldable pub multimap_cursor_is_data : MultimapCursor → Bool
multimap_cursor_is_data c = is_data c.curt.state

unfoldable pub multimap_cursor_key : MultimapCursor → ℕ
multimap_cursor_key c =
    if is_data c.curt.state then Option.get_or c.head invalid_key else invalid_key

unfoldable pub multimap_cursor_val : MultimapCursor → ℕ
multimap_cursor_val c = if is_data c.curt.state then cell_val c.cell else invalid_val
  where
    cell_val : List ℕ → ℕ
    cell_val [] = invalid_val
    cell_val (v ∷ vs) = v
