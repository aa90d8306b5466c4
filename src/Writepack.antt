-- ===== src/Writepack.antt =====
-- The part of module/io.c that packs writes into logpacks: writepack_add_bio_wrapper and what it calls.
pub mod Chain
pub mod Retry
pub mod Contents
pub mod Written
pub mod Listed
pub mod Bulk
use walb_driver.Common.{
  ℕ, ◌+◌, ◌%◌, Bool, true, false, not, ◌&&◌, ◌||◌, Option, none, some, List, [], ◌∷◌, ◌++◌, ltb,
  ◌==◌, if◌then◌else◌, u32_mod, add_u32,
}
use walb_driver.Block.{capacity_pb}
use walb_driver.Bio.{Bio, BioOp, flush, bio_is_discard}
use walb_driver.Logpack.{LogpackHeader, get_next_lsid_unsafe}
use walb_driver.Logpack.Add.{header_add_bio}
use walb_driver.Logpack.Valid.{create_logpack_header}
use walb_driver.Logpack.Last.{update_biow_lsid}

-- `struct pack`: the header, the bios with the lsids that they were given, and the flags. The size of a
-- bio wrapper is that of its bio.
pub record Pack : Type 0 where
  pub header : LogpackHeader
  pub bios : List (Bio × Option ℕ)
  pub zero_flush : Bool
  pub fua_contained : Bool

-- wpack_list, *wpackp, *latest_lsidp and *is_flushp.
pub record Packing : Type 0 where
  pub wpack_list : List Pack
  pub wpack : Option Pack
  pub latest_lsid : ℕ
  pub is_flush : Bool

abbrev pub is_flush_op : BioOp → Bool
is_flush_op flush = true
is_flush_op _ = false

abbrev pub bio_has_flush : Bio → Bool
bio_has_flush bio = is_flush_op bio.op || bio.preflush

abbrev pub is_empty : {A : Type 0} → List A → Bool
is_empty [] = true
is_empty (x ∷ xs) = false

unfoldable pub is_zero_flush_only : Pack → Bool
is_zero_flush_only p = p.header.n_records == 0 && not (is_empty p.bios)

unfoldable pub is_pack_size_too_large : LogpackHeader → ℕ → ℕ → Bio → Bool
is_pack_size_too_large lhead pbs max_logpack_pb bio =
    not (max_logpack_pb == 0)
    && (not (bio_is_discard bio)
        && ltb max_logpack_pb (add_u32 (capacity_pb pbs bio.sectors % u32_mod) lhead.total_io_size))

-- Whether the pack has a zero flush only, and *is_flushp.
unfoldable pub writepack_check_and_set_zeroflush : Pack → Bool → Pack × Bool
writepack_check_and_set_zeroflush p is_flush =
    if p.header.n_records == 0 then (record p { zero_flush = true }, true) else (p, is_flush)

module _ (pbs ring_buffer_size max_logpack_pb : ℕ) where
  -- The checks on the current pack, and the attempt to add the bio to its header.
  unfoldable pub add_to_current : Pack → Bio → LogpackHeader × Bool
  add_to_current p bio =
      if is_zero_flush_only p
      then (p.header, false)
      else if ltb 0 p.header.n_records
          && (bio_has_flush bio || is_pack_size_too_large p.header pbs max_logpack_pb bio)
      then (p.header, false)
      else header_add_bio p.header bio pbs ring_buffer_size

  -- From the label fin on: `p` is the pack whose header has the bio.
  unfoldable pub finish : Packing → Pack → Bio → Packing
  finish s p bio = record s {
    wpack = some (record p {
      bios = p.bios ++ (bio, update_biow_lsid p.header) ∷ [];
      fua_contained = bio.fua || p.fua_contained;
    });
    is_flush = (bio_has_flush bio && not bio.fua) || s.is_flush;
  }

  -- What is asserted of a new pack that starts at `latest_lsid`: its header takes the bio.
  unfoldable pub new_pack_assertion : ℕ → Bio → Bool
  new_pack_assertion latest_lsid bio =
      (header_add_bio (create_logpack_header pbs latest_lsid) bio pbs ring_buffer_size).1

  -- From the label newpack on, after the current pack has been put on the list. The assertion on the result of
  -- header_add_bio, new_pack_assertion, warns in a debug build and is nothing in others: the code goes on with
  -- the header as it is.
  unfoldable pub create_pack_with : Packing → Bio → Bool → Bool × Packing
  create_pack_with s bio pack_ok =
      if pack_ok
      then (
        true,
        finish s
            (record {
              header =
                  (header_add_bio (create_logpack_header pbs s.latest_lsid) bio pbs
                    ring_buffer_size).0;
              bios = [];
              zero_flush = false;
              fua_contained = false;
            })
            bio,
      )
      else (false, s)

  -- The current pack goes to the end of the list. *wpackp still points to it.
  unfoldable pub close_pack : Packing → Pack → Packing
  close_pack s p =
      let (p', f) = writepack_check_and_set_zeroflush p s.is_flush in
      record s {
        wpack_list = s.wpack_list ++ p' ∷ [];
        wpack = some p';
        latest_lsid = get_next_lsid_unsafe p'.header;
        is_flush = f;
      }

  -- `pack_ok`: create_writepack succeeds.
  unfoldable pub writepack_add_bio_wrapper : Packing → Bio → Bool → Bool × Packing
  writepack_add_bio_wrapper s bio pack_ok = elim s.wpack [
    | none ↦ create_pack_with s bio pack_ok
    | some p ↦
        let (h, added) = add_to_current p bio in
        if added
        then (true, finish s (record p { header = h }) bio)
        else create_pack_with (close_pack s (record p { header = h })) bio pack_ok
  ]

  -- The first loop of create_logpack_list, while memory is there: every write is packed.
  unfoldable pub pack_writes : Packing → List Bio → Packing
  pack_writes s [] = s
  pack_writes s (bio ∷ bios) = pack_writes (writepack_add_bio_wrapper s bio true).1 bios

  -- The last pack goes on the list too.
  unfoldable pub finish_list : Packing → Packing
  finish_list s = elim s.wpack [ none ↦ s | some p ↦ close_pack s p ]

  -- create_logpack_list as far as the list of packs and the new latest lsid.
  unfoldable pub create_packs : ℕ → List Bio → Packing
  unfolding pack_writes finish_list
  create_packs latest_lsid bios = finish_list (
      pack_writes
        (record { wpack_list = []; wpack = none; latest_lsid = latest_lsid; is_flush = false })
        bios)
