-- ===== src/Overlapped.antt =====
-- module/overlapped_io.c: the bio wrappers in flight to the data device. A bio wrapper waits while
-- bio wrappers that came before it overlap it: n_overlapped is their number.
pub mod Serial
pub mod Insert
pub mod Notify
pub mod Members
pub mod Delete
use mathlib.Core.Option
use walb_driver.Common.{
  ℕ, ◌+◌, ◌-◌, ◌^◌, max, Bool, true, false, ◌&&◌, Option, none, some, List, [], ◌∷◌, ◌++◌, add_u32,
  sub_u32, ltb, ◌==◌, if◌then◌else◌,
}
use walb_driver.Biow.{Biow, bio_wrapper_end, bio_wrapper_is_overlap, put}
use walb_driver.Treemap.{RbTree}
use walb_driver.Treemap.Map.{Status, ok, enomem, eexist, einval}
use walb_driver.Treemap.Multimap.{Multimap, multimap_add, multimap_del, multimap_is_empty}
use walb_driver.Treemap.Scan.{scan}

-- overlapped_data, max_sectors_in_overlapped, and the fields n_overlapped and BIO_WRAPPER_DELAYED of
-- all bio wrappers. n_overlapped is an `int`, in two's complement.
pub record Overlapped : Type 0 where
  pub data_map : Multimap
  pub max_sectors : ℕ
  pub n_overlapped : ℕ → ℕ
  pub delayed : ℕ → Bool

-- The search start position.
abbrev pub start_pos : ℕ → Biow → ℕ
start_pos max_io_size b = if ltb max_io_size b.pos then b.pos - max_io_size else 0

-- `n > 0` for an `int`.
abbrev pub is_positive : ℕ → Bool
is_positive n = ltb 0 n && ltb n (2 ^ 31)

-- The list of bio wrappers to submit, and what the loop of overlapped_delete_and_notify changes.
pub record Notified : Type 0 where
  pub waits : ℕ → ℕ
  pub submit : List ℕ
  pub n_should_submit : ℕ

module _ (info : ℕ → Biow) where
  -- The body of the counting loop.
  abbrev pub count_overlap : ℕ → ℕ → ℕ → ℕ
  count_overlap b n v = if bio_wrapper_is_overlap (info b) (info v) then add_u32 n 1 else n

  -- The body of the notifying loop, where `n` is the decremented count.
  abbrev pub notify : Notified → ℕ → ℕ → Notified
  notify s v n = record {
    waits = put s.waits v n;
    submit = if n == 0 then s.submit ++ v ∷ [] else s.submit;
    n_should_submit = if n == 0 then add_u32 s.n_should_submit 1 else s.n_should_submit;
  }

  abbrev pub notify_overlap : ℕ → Notified → ℕ → Notified
  notify_overlap b s v =
      if bio_wrapper_is_overlap (info b) (info v) then notify s v (sub_u32 (s.waits v) 1) else s

  module _ (rb : RbTree (List ℕ)) (fuel : ℕ) where
    -- The end of overlapped_check_and_insert: multimap_add and what follows.
    abbrev pub insert_counted : Overlapped → ℕ → Status × Multimap → Bool × Overlapped
    insert_counted s b (ok, t) =
        (true, record s { data_map = t; max_sectors = max s.max_sectors ((info b).len) })
    insert_counted s b (e, t) = (false, record s { data_map = t })

    -- none: the fuel ran out. The last three arguments are the outcomes of the allocations.
    unfoldable pub overlapped_check_and_insert :
        Overlapped → ℕ → (cell_ok head_ok node_ok : Bool) → Option (Bool × Overlapped)
    overlapped_check_and_insert s b cell_ok head_ok node_ok =
        Option.map
          (λ n.
            insert_counted
              (record s {
                n_overlapped = put s.n_overlapped b n;
                delayed = if is_positive n then put s.delayed b true else s.delayed;
              })
              b (multimap_add rb s.data_map ((info b).pos) b cell_ok head_ok node_ok))
          (scan rb s.data_map fuel (start_pos s.max_sectors (info b)) (bio_wrapper_end (info b))
            (count_overlap b) 0)

    -- The result is the number of bio wrappers put on the list, the list and the state.
    unfoldable pub overlapped_delete_and_notify :
        Overlapped → List ℕ → ℕ → Option (ℕ × List ℕ × Overlapped)
    overlapped_delete_and_notify s submit b =
        let (v, t) = multimap_del rb s.data_map ((info b).pos) b in
        Option.map
          (λ (r : Notified). (
            r.n_should_submit,
            r.submit,
            record {
              data_map = t;
              max_sectors = if multimap_is_empty rb t then 0 else s.max_sectors;
              n_overlapped = r.waits;
              delayed = s.delayed;
            },
          ))
          (scan rb t fuel (start_pos s.max_sectors (info b)) (bio_wrapper_end (info b))
            (notify_overlap b)
            (record { waits = s.n_overlapped; submit = submit; n_should_submit = 0 }))
