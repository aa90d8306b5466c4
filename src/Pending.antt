-- ===== src/Pending.antt =====
-- module/pending_io.c: the writes whose data is not on the data device yet. A read copies from them, in
-- the order of their lsids.
pub mod Keep
pub mod Sources
pub mod Newest
pub mod Prune
pub mod Overwritten
pub mod Hidden
use mathlib.Core.Option
use walb_driver.Common.{
  ℕ, zero, suc, max, Bool, true, false, not, ◌&&◌, Option, List, [], ◌∷◌, add_u32, ltb, ◌==◌, none,
  some, if◌then◌else◌,
}
use walb_driver.Biow.{
  Biow, bio_wrapper_end, bio_wrapper_is_overlap, bio_wrapper_is_overwritten_by, put,
}
use walb_driver.Treemap.Lookup.{search_ge}
use walb_driver.Treemap.MultiCursor.{
  MultimapCursor, multimap_cursor_init, multimap_cursor_search, multimap_cursor_next,
  multimap_cursor_del, multimap_cursor_is_data, multimap_cursor_key, multimap_cursor_val,
}
use walb_driver.Treemap.{RbTree}
use walb_driver.Treemap.Map.{Status, ok}
use walb_driver.Treemap.Multimap.{Multimap, multimap_add, multimap_del, multimap_is_empty}
use walb_driver.Treemap.Scan.{scan}
use walb_driver.Overlapped.{start_pos}

-- pending_data and max_sectors_in_pending.
pub record Pending : Type 0 where
  pub data_map : Multimap
  pub max_sectors : ℕ

-- The multimap and the flag BIO_WRAPPER_OVERWRITTEN of all bio wrappers.
pub record Overwriting : Type 0 where
  pub data_map : Multimap
  pub overwritten : ℕ → Bool

-- What the counting loop of pending_check_and_copy changes.
pub record Found : Type 0 where
  pub n_overlapped_bios : ℕ
  pub biow_list : List ℕ

module _ (info : ℕ → Biow) where
  -- insert_to_sorted_bio_wrapper_list_by_lsid: its loop, and before it the check of the first entry.
  abbrev pub insert_by_loop : ℕ → List ℕ → List ℕ
  insert_by_loop b [] = b ∷ []
  insert_by_loop b (v ∷ vs) =
      if ltb ((info b).lsid) ((info v).lsid) then b ∷ v ∷ vs else v ∷ insert_by_loop b vs

  abbrev pub insert_to_sorted : ℕ → List ℕ → List ℕ
  insert_to_sorted b [] = insert_by_loop b []
  insert_to_sorted b (v ∷ vs) =
      if ltb ((info b).lsid) ((info v).lsid) then b ∷ v ∷ vs else insert_by_loop b (v ∷ vs)

  -- The body of the loop that collects the bio wrappers to copy from.
  abbrev pub collect : ℕ → Found → ℕ → Found
  collect b s v =
      if not ((info v).discard) && bio_wrapper_is_overlap (info b) (info v)
      then record {
        n_overlapped_bios = add_u32 s.n_overlapped_bios 1;
        biow_list = insert_to_sorted v s.biow_list;
      }
      else s

  -- The test of the loop of pending_delete_fully_overwritten.
  abbrev pub is_fully_overwritten : ℕ → ℕ → Bool
  is_fully_overwritten b v = not (v == b) && bio_wrapper_is_overwritten_by (info v) (info b)

  -- What pending_insert makes of the result of multimap_add.
  abbrev pub inserted_pending : Pending → ℕ → Status × Multimap → Bool × Pending
  inserted_pending s b (ok, t) =
      (true, record { data_map = t; max_sectors = max s.max_sectors ((info b).len) })
  inserted_pending s b (e, t) = (false, record s { data_map = t })

  module _ (rb : RbTree (List ℕ)) where
    unfoldable pub pending_insert : Pending → ℕ → (cell_ok head_ok node_ok : Bool) → Bool × Pending
    pending_insert s b cell_ok head_ok node_ok =
        inserted_pending s b (multimap_add rb s.data_map ((info b).pos) b cell_ok head_ok node_ok)

    unfoldable pub pending_delete : Pending → ℕ → Pending
    pending_delete s b =
        let (v, t) = multimap_del rb s.data_map ((info b).pos) b in
        record { data_map = t; max_sectors = if multimap_is_empty rb t then 0 else s.max_sectors }

    -- pending_check_and_copy as far as the list of the bio wrappers to copy from, in the order in
    -- which they are copied. none: the fuel ran out.
    unfoldable pub pending_sources : ℕ → Pending → ℕ → Option (List ℕ)
    pending_sources fuel s b =
        Option.map (λ (r : Found). r.biow_list)
          (scan rb s.data_map fuel (start_pos s.max_sectors (info b)) (bio_wrapper_end (info b))
            (collect b) (record { n_overlapped_bios = 0; biow_list = [] }))

    -- That loop, from a cursor at data. none: the fuel ran out.
    unfoldable pub delete_before : ℕ → ℕ → ℕ → MultimapCursor → Overwriting → Option Overwriting
    delete_before end b zero c s = none
    delete_before end b (suc fuel) c s =
        let v = multimap_cursor_val c in
        let (done, c', t') = multimap_cursor_del rb s.data_map c in
        let s' : Overwriting = record { data_map = t'; overwritten = put s.overwritten v true } in
        let deleted =
          if multimap_cursor_is_data c' then delete_before end b fuel c' s' else some s' in
        let c'' = multimap_cursor_next rb s.data_map c in
        let kept = if multimap_cursor_is_data c'' then delete_before end b fuel c'' s else some s in
        if ltb (multimap_cursor_key c) end
        then (if is_fully_overwritten b v then deleted else kept)
        else some s

    unfoldable pub pending_delete_fully_overwritten : ℕ → Overwriting → ℕ → Option Overwriting
    pending_delete_fully_overwritten fuel s b =
        let (found, c) =
          multimap_cursor_search rb s.data_map multimap_cursor_init ((info b).pos) search_ge
            false in
        if found then delete_before (bio_wrapper_end (info b)) b fuel c s else some s

    -- The state after pending_insert_and_delete_fully_overwritten, and whether it succeeded.
    unfoldable pub pending_insert_and_delete_fully_overwritten :
        ℕ
        → Pending
        → (ℕ → Bool)
        → ℕ
        → (cell_ok head_ok node_ok : Bool) → Option (Bool × Pending × (ℕ → Bool))
    unfolding pending_insert pending_delete_fully_overwritten
    pending_insert_and_delete_fully_overwritten fuel s overwritten b cell_ok head_ok node_ok =
        let (inserted, s') = pending_insert s b cell_ok head_ok node_ok in
        if inserted
        then Option.map
            (λ (r : Overwriting). (true, record s' { data_map = r.data_map }, r.overwritten))
            (pending_delete_fully_overwritten fuel
              (record { data_map = s'.data_map; overwritten = overwritten }) b)
        else some (false, s', overwritten)
