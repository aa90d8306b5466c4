-- ===== src/Writepack/Retry.antt =====
-- What the retry of writepack_add_bio_wrapper (module/io.c) does when create_writepack has failed.
use walb_driver.Common.{
  ℕ, ◌<◌, ◌≡◌, ap, ◌∙◌, Bool, true, false, some, List, [], ◌∷◌, ◌++◌, arith, ◌==◌, if◌then◌else◌,
}
use walb_driver.Bio.{Bio}
use walb_driver.Logpack.{LogpackHeader, get_next_lsid_unsafe}
use walb_driver.Writepack.{
  Pack, Packing, writepack_check_and_set_zeroflush, add_to_current, finish, create_pack_with,
  close_pack, writepack_add_bio_wrapper,
}

-- A state with a current pack.
abbrev pub holding : List Pack → Pack → ℕ → Bool → Packing
holding packs p lsid f = record {
  wpack_list = packs;
  wpack = some p;
  latest_lsid = lsid;
  is_flush = f;
}

module _ (pbs ring max_logpack_pb : ℕ) (p : Pack) (bio : Bio)
    (some_records : 0 < p.header.n_records)
    (refused : add_to_current pbs ring max_logpack_pb p bio ≡ (p.header, false)) where
  abbrev next : Bool → Packing → LogpackHeader × Bool → Bool × Packing
  next pack_ok s r =
      if r.1
      then (true, finish pbs ring max_logpack_pb s (record p { header = r.0 }) bio)
      else create_pack_with pbs ring max_logpack_pb
          (close_pack pbs ring max_logpack_pb s (record p { header = r.0 })) bio pack_ok

  abbrev closed_with : List Pack → Pack × Bool → Packing
  closed_with packs r = holding (packs ++ r.0 ∷ []) r.0 (get_next_lsid_unsafe r.0.header) r.1

  flag : Bool → Bool → Pack × Bool
  flag f b = if b then (record p { zero_flush = true }, true) else (p, f)

  closed :
      (packs : List Pack) (lsid : ℕ) (f : Bool)
      → close_pack pbs ring max_logpack_pb (holding packs p lsid f) p
        ≡ holding (packs ++ p ∷ []) p (get_next_lsid_unsafe p.header) f
  unfolding close_pack writepack_check_and_set_zeroflush flag
  closed packs lsid f = ap (λ b. closed_with packs (flag f b)) not_empty
    where
      not_empty : (p.header.n_records == 0) ≡ false
      not_empty = ground arith

  -- The pack is put on the list, and then it depends on memory.
  step :
      (packs : List Pack) (lsid : ℕ) (f pack_ok : Bool)
      → writepack_add_bio_wrapper pbs ring max_logpack_pb (holding packs p lsid f) bio pack_ok
        ≡ create_pack_with pbs ring max_logpack_pb
            (holding (packs ++ p ∷ []) p (get_next_lsid_unsafe p.header) f)
            bio
            pack_ok
  unfolding writepack_add_bio_wrapper
  step packs lsid f pack_ok =
      ap (next pack_ok (holding packs p lsid f)) refused
      ∙ ap (λ s. create_pack_with pbs ring max_logpack_pb s bio pack_ok) (closed packs lsid f)

  -- A call that has to make a new pack and fails for lack of memory has put the current pack on the
  -- list already and leaves the pointer at it. The retry puts the same pack on the list once more. The
  -- pack has records and refuses the write without a change.
  pub writepack_add_bio_wrapper-retry :
      (packs : List Pack) (lsid : ℕ) (f : Bool)
      → ((writepack_add_bio_wrapper pbs ring max_logpack_pb (holding packs p lsid f) bio false).0
          ≡ false)
        × ((writepack_add_bio_wrapper pbs ring max_logpack_pb
              (writepack_add_bio_wrapper pbs ring max_logpack_pb
                (holding packs p lsid f)
                bio
                false).1
              bio
              true).1.wpack_list
            ≡ (packs ++ p ∷ []) ++ p ∷ [])
  unfolding create_pack_with finish
  writepack_add_bio_wrapper-retry packs lsid f =
      let failed = step packs lsid f false in
      (
        ap (λ r. r.0) failed,
        ap (λ r. (writepack_add_bio_wrapper pbs ring max_logpack_pb r.1 bio true).1.wpack_list)
              failed
            ∙ ap (λ r. r.1.wpack_list)
                (step (packs ++ p ∷ []) (get_next_lsid_unsafe p.header) f true),
      )
