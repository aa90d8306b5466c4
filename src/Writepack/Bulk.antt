-- ===== src/Writepack/Bulk.antt =====
-- The packs that create_logpack_list (module/io.c) makes of a list of writes.
use walb_driver.Common.{
  ℕ, ◌+◌, ◌*◌, ◌≤◌, ◌<◌, ◌≡◌, refl, ◌∙◌, Bool, true, false, Option, none, some, List, [], ◌∷◌, All,
  arith, length, ◌==◌, u16_mod, u64_mod,
}
use walb_driver.Block.{is_valid_pbs}
use walb_driver.Bio.{Bio}
use walb_driver.Logpack.{LogpackHeader, get_next_lsid_unsafe}
use walb_driver.Logpack.Shape.{IsOpen}
use walb_driver.Logpack.Valid.{IsNormal, get_next_lsid-eq}
use walb_driver.Writepack.{
  Pack, Packing, writepack_check_and_set_zeroflush, add_to_current, finish, new_pack_assertion,
  create_pack_with, close_pack, writepack_add_bio_wrapper, pack_writes, finish_list, create_packs,
}
use walb_driver.Writepack.Chain.{
  Chained, IsCurrent, IsPacking, current-IsOpen, close-Chained, writepack_add_bio_wrapper-IsPacking,
}
use walb_driver.Writepack.Contents.{
  bios_of, flagged, tried, packed, pack_writes-contents, finish_list-contents,
}
use walb_driver.Writepack.Listed.{
  IsListed, AllListed, IsHalf, new_pack_assertion-holds, writepack_add_bio_wrapper-AllListed,
  finish_list-AllListed,
}

module _ (pbs ring max_logpack_pb : ℕ) where
  module _ (block : is_valid_pbs pbs ≡ true) (block_small : pbs < u16_mod)
      (ring_large : u16_mod ≤ ring) where
    -- A pack that is closed moves the latest lsid by a logpack at most.
    close-grows :
        (s : Packing) (p : Pack)
        → IsOpen pbs ring p.header
        → p.header.logpack_lsid ≡ s.latest_lsid
        → (close_pack pbs ring max_logpack_pb s p).latest_lsid ≤ s.latest_lsid + 65536
    unfolding close_pack writepack_check_and_set_zeroflush
    close-grows s p o e = go (p.header.n_records == 0)
      where
        end : get_next_lsid_unsafe p.header ≤ s.latest_lsid + 65536
        end = ground (arith, get_next_lsid-eq o, o.small, e)

        go :
            (b : Bool)
            → get_next_lsid_unsafe (flagged p s.is_flush b).0.header ≤ s.latest_lsid + 65536
        go true = end
        go false = end

    add-grows :
        (first : ℕ) (s : Packing) (bio : Bio)
        → IsNormal bio
        → IsPacking pbs ring first s
        → (writepack_add_bio_wrapper pbs ring max_logpack_pb s bio true).1.latest_lsid
          ≤ s.latest_lsid + 65536
    unfolding writepack_add_bio_wrapper create_pack_with finish
    add-grows first s bio normal i = go s.wpack i.current
      where
        branch :
            (p : Pack) (h : LogpackHeader) (added : Bool)
            → IsOpen pbs ring h
            → h.logpack_lsid ≡ s.latest_lsid
            → (tried pbs ring max_logpack_pb s bio p (h, added)).1.latest_lsid
              ≤ s.latest_lsid + 65536
        branch p h true o e = omega arith
        branch p h false o e = close-grows s (record p { header = h }) o e

        go :
            (w : Option Pack)
            → IsCurrent pbs ring s.latest_lsid w
            → (packed pbs ring max_logpack_pb s bio w).1.latest_lsid ≤ s.latest_lsid + 65536
        go none c = omega arith
        go (some p) c =
            let r =
              current-IsOpen pbs ring block block_small ring_large max_logpack_pb bio normal p
                c.0 in
            branch p (add_to_current pbs ring max_logpack_pb p bio).0
              (add_to_current pbs ring max_logpack_pb p bio).1 r.0 (r.1 ∙ c.1)

    -- With room for a logpack a write, all writes are packed, and each has its record.
    pack_writes-IsPacking :
        (first : ℕ) (s : Packing) (bios : List Bio)
        → All IsNormal bios
        → All (IsHalf pbs) bios
        → IsPacking pbs ring first s
        → AllListed s
        → s.latest_lsid + 65536 * length bios + 65540 ≤ u64_mod
        → IsPacking pbs ring first (pack_writes pbs ring max_logpack_pb s bios)
          × AllListed (pack_writes pbs ring max_logpack_pb s bios)
    unfolding pack_writes
    pack_writes-IsPacking first s [] a half i l near = (i, l)
    pack_writes-IsPacking first s (bio ∷ bios) a half i l near =
        let next = writepack_add_bio_wrapper pbs ring max_logpack_pb s bio true in
        let grows = add-grows first s bio a.0 i in
        pack_writes-IsPacking first next.1 bios a.1 half.1
          (writepack_add_bio_wrapper-IsPacking pbs ring block block_small ring_large max_logpack_pb
            bio a.0 first s i (omega (arith, near))).1
          (writepack_add_bio_wrapper-AllListed pbs ring max_logpack_pb block block_small ring_large
            bio a.0 half.0 first s i (omega (arith, near)) l)
          (omega (arith, near, grows))

    finish_list-Chained :
        (first : ℕ) (s : Packing)
        → IsPacking pbs ring first s
        → Chained pbs ring first
            (finish_list pbs ring max_logpack_pb s).wpack_list
            (finish_list pbs ring max_logpack_pb s).latest_lsid
    unfolding finish_list
    finish_list-Chained first s i = go s.wpack i.current
      where
        go :
            (w : Option Pack)
            → IsCurrent pbs ring s.latest_lsid w
            → Chained pbs ring first
                (finish_list pbs ring max_logpack_pb (record s { wpack = w })).wpack_list
                (finish_list pbs ring max_logpack_pb (record s { wpack = w })).latest_lsid
        go none c = i.chained
        go (some p) c =
            close-Chained pbs ring max_logpack_pb first (record s { wpack = some p }) p i.chained
              c.0 c.1

    all_taken :
        (bios : List Bio)
        → All IsNormal bios
        → All (IsHalf pbs) bios
        → All (λ bio. (lsid : ℕ) → new_pack_assertion pbs ring max_logpack_pb lsid bio ≡ true) bios
    all_taken [] a half = tt
    all_taken (bio ∷ bios) a half = (
      λ lsid.
          new_pack_assertion-holds pbs ring max_logpack_pb block block_small ring_large bio a.0
            half.0 lsid,
      all_taken bios a.1 half.1,
    )

    -- create_logpack_list packs every write: the packs on the list hold the writes in their order; in each
    -- pack, the records of the header but the paddings are those of its writes with sectors, in order, each
    -- with the offset and the size of the write and the lsid that the write was given; a new header takes each of
    -- the writes, wherever it starts, as the driver asserts; the headers are valid,
    -- the first starts at the latest lsid, each other where the one before it ends, and the new latest lsid is
    -- the end of the last. While memory is there; the writes are no discards, have at most 65535 sectors, and
    -- take at most 32768 physical blocks each; the block size is valid and of sixteen bits, the ring buffer has
    -- at least 65536 blocks, and there are lsids for a logpack for each write.
    pub create_packs-packs :
        (latest_lsid : ℕ) (bios : List Bio)
        → All IsNormal bios
        → All (IsHalf pbs) bios
        → latest_lsid + 65536 * length bios + 65540 ≤ u64_mod
        → Chained pbs ring latest_lsid
            (create_packs pbs ring max_logpack_pb latest_lsid bios).wpack_list
            (create_packs pbs ring max_logpack_pb latest_lsid bios).latest_lsid
          × (bios_of (create_packs pbs ring max_logpack_pb latest_lsid bios).wpack_list ≡ bios)
          × All IsListed (create_packs pbs ring max_logpack_pb latest_lsid bios).wpack_list
          × All
              (λ bio. (lsid : ℕ) → new_pack_assertion pbs ring max_logpack_pb lsid bio ≡ true)
              bios
    unfolding create_packs
    create_packs-packs latest_lsid bios normal half near =
        let start : Packing = record {
          wpack_list = [];
          wpack = none;
          latest_lsid = latest_lsid;
          is_flush = false;
        } in
        let all =
          pack_writes-IsPacking latest_lsid start bios normal half
            (record { chained = refl; current = tt }) (record { list = tt; current = tt }) near in
        (
          finish_list-Chained latest_lsid (pack_writes pbs ring max_logpack_pb start bios) all.0,
          finish_list-contents pbs ring max_logpack_pb
                (pack_writes pbs ring max_logpack_pb start bios)
              ∙ pack_writes-contents pbs ring max_logpack_pb start bios,
          finish_list-AllListed pbs ring max_logpack_pb
              (pack_writes pbs ring max_logpack_pb start bios) all.1,
          all_taken bios normal half,
        )
