-- ===== src/Writepack/Listed.antt =====
-- The records in the packs that writepack_add_bio_wrapper (module/io.c) makes, against the writes in them.
use walb_driver.Common.{
  ℕ, ◌+◌, ◌*◌, ◌≤◌, ◌<◌, ◌≡◌, refl, sym, ap, ◌∙◌, inl, inr, Bool, Bool-cases, true, false, Option,
  none, some, [], ◌∷◌, ◌++◌, All, All-append, arith, ltb, if◌then◌else◌, ◌==◌, ◌&&◌, ◌||◌, u16_mod,
  u64_mod,
}
use walb_driver.Block.{is_valid_pbs, capacity_pb}
use walb_driver.Bio.{Bio}
use walb_driver.Logpack.{LogpackHeader}
use walb_driver.Logpack.Add.{header_add_bio}
use walb_driver.Logpack.Last.{update_biow_lsid}
use walb_driver.Logpack.Shape.{IsOpen}
use walb_driver.Logpack.Fill.{max_n_small}
use walb_driver.Logpack.Limits.{max_n_large, create_logpack_header-add_bio}
use walb_driver.Logpack.Valid.{create_logpack_header, create_logpack_header-IsOpen, IsNormal}
use walb_driver.Writepack.{
  Pack, Packing, bio_has_flush, is_zero_flush_only, is_pack_size_too_large,
  writepack_check_and_set_zeroflush, add_to_current, finish, new_pack_assertion, create_pack_with,
  close_pack, writepack_add_bio_wrapper, finish_list,
}
use walb_driver.Writepack.Chain.{IsCurrent, IsPacking, current-IsOpen, close_near}
use walb_driver.Writepack.Contents.{flagged, tried, packed}
use walb_driver.Writepack.Written.{recorded, listed, listed-append, header_add_bio-added}

-- The header's records but the paddings are those of the pack's writes, each with the offset and the size of
-- its write and the lsid that the write was given.
abbrev pub IsListed : Pack → Type 0
IsListed p = recorded p.header ≡ listed p.bios

abbrev pub IsListedIn : Option Pack → Type 0
IsListedIn none = Unit
IsListedIn (some p) = IsListed p

pub record AllListed (s : Packing) : Type 0 where
  pub list : All IsListed s.wpack_list
  pub current : IsListedIn s.wpack

-- The write takes half of the largest logpack at most, and so does a padding in front of it.
abbrev pub IsHalf : ℕ → Bio → Type 0
IsHalf pbs bio = 2 * capacity_pb pbs bio.sectors ≤ 65536

chosen : {A : Type 0} {x y : A} (z : A) (b : Bool) → b ≡ true → x ≡ (if b then y else z) → x ≡ y
chosen z true e p = p
chosen z false e p = cc

module _ (pbs ring max_logpack_pb : ℕ) where
  finish-AllListed :
      (s : Packing) (p : Pack) (bio : Bio)
      → All IsListed s.wpack_list
      → recorded p.header ≡ listed p.bios ++ listed ((bio, update_biow_lsid p.header) ∷ [])
      → AllListed (finish pbs ring max_logpack_pb s p bio)
  unfolding finish
  finish-AllListed s p bio a e = record {
    list = a;
    current = e ∙ sym (listed-append p.bios ((bio, update_biow_lsid p.header) ∷ []));
  }

  close-AllListed :
      (s : Packing) (p : Pack)
      → All IsListed s.wpack_list
      → IsListed p
      → All IsListed (close_pack pbs ring max_logpack_pb s p).wpack_list
  unfolding close_pack writepack_check_and_set_zeroflush
  close-AllListed s p a l = go (p.header.n_records == 0)
    where
      go : (b : Bool) → All IsListed (s.wpack_list ++ (flagged p s.is_flush b).0 ∷ [])
      go true = All-append IsListed s.wpack_list (record p { zero_flush = true } ∷ []) a (l, tt)
      go false = All-append IsListed s.wpack_list (p ∷ []) a (l, tt)

  module _ (block : is_valid_pbs pbs ≡ true) (block_small : pbs < u16_mod)
      (ring_large : u16_mod ≤ ring) (bio : Bio) (normal : IsNormal bio)
      (half : IsHalf pbs bio) where
    no_record :
        (lsid : ℕ)
        → bio.sectors == 0 ≡ true
        → (header_add_bio (create_logpack_header pbs lsid) bio pbs ring).1 ≡ true
    unfolding create_logpack_header header_add_bio
    no_record lsid z = ground (arith, z, max_n_large pbs block)

    -- The assertion on the new pack.
    pub new_pack_assertion-holds :
        (lsid : ℕ) → new_pack_assertion pbs ring max_logpack_pb lsid bio ≡ true
    unfolding new_pack_assertion
    new_pack_assertion-holds lsid = elim (Bool-cases (bio.sectors == 0)) [
      | inl z ↦ no_record lsid z
      | inr z ↦
          create_logpack_header-add_bio pbs ring lsid bio block block_small normal.0
            (ground (arith, z)) normal.1
          ∙ ground (arith, half)
    ]

    added :
        (h : LogpackHeader)
        → IsOpen pbs ring h
        → recorded (header_add_bio h bio pbs ring).0 ≡ (
            if (header_add_bio h bio pbs ring).1
            then recorded h
              ++ listed ((bio, update_biow_lsid (header_add_bio h bio pbs ring).0) ∷ [])
            else recorded h)
    added h o =
        header_add_bio-added pbs h o.slots o.room (omega (arith, max_n_small pbs block_small)) bio
          (omega (arith, normal.1)) ring

    create-AllListed :
        (s : Packing)
        → All IsListed s.wpack_list
        → s.latest_lsid + 65538 ≤ u64_mod
        → AllListed (create_pack_with pbs ring max_logpack_pb s bio true).1
    unfolding create_pack_with create_logpack_header new_pack_assertion
    create-AllListed s a near =
        finish-AllListed s
          (record {
            header = (header_add_bio (create_logpack_header pbs s.latest_lsid) bio pbs ring).0;
            bios = [];
            zero_flush = false;
            fua_contained = false;
          })
          bio a
          (chosen [] (header_add_bio (create_logpack_header pbs s.latest_lsid) bio pbs ring).1
            (new_pack_assertion-holds s.latest_lsid)
            (added (create_logpack_header pbs s.latest_lsid)
              (create_logpack_header-IsOpen pbs ring s.latest_lsid near)))

    -- What the attempt to add the write to a pack makes of the pack's records.
    abbrev IsTried : Pack → LogpackHeader × Bool → Type 0
    IsTried p (h, taken) = recorded h ≡ (
        if taken
        then recorded p.header ++ listed ((bio, update_biow_lsid h) ∷ [])
        else recorded p.header)

    current-IsTried :
        (p : Pack)
        → IsOpen pbs ring p.header
        → IsTried p (add_to_current pbs ring max_logpack_pb p bio)
    unfolding add_to_current
    current-IsTried p o = go (is_zero_flush_only p) (
        ltb 0 p.header.n_records
        && (bio_has_flush bio || is_pack_size_too_large p.header pbs max_logpack_pb bio))
      where
        go :
            (x y : Bool)
            → IsTried p (
                if x
                then (p.header, false)
                else if y
                then (p.header, false)
                else header_add_bio p.header bio pbs ring)
        go true y = refl
        go false true = refl
        go false false = added p.header o

    tried-AllListed :
        (s : Packing) (p : Pack) (h : LogpackHeader) (taken : Bool)
        → All IsListed s.wpack_list
        → IsListed p
        → IsTried p (h, taken)
        → (close_pack pbs ring max_logpack_pb s (record p { header = h })).latest_lsid + 65538
          ≤ u64_mod
        → AllListed (tried pbs ring max_logpack_pb s bio p (h, taken)).1
    tried-AllListed s p h true a l t near =
        finish-AllListed s (record p { header = h }) bio a
          (t ∙ ap (λ k. k ++ listed ((bio, update_biow_lsid h) ∷ [])) l)
    tried-AllListed s p h false a l t near =
        create-AllListed (close_pack pbs ring max_logpack_pb s (record p { header = h }))
          (close-AllListed s (record p { header = h }) a (t ∙ l)) near

    -- writepack_add_bio_wrapper keeps the records of each pack those of its writes.
    pub writepack_add_bio_wrapper-AllListed :
        (first : ℕ) (s : Packing)
        → IsPacking pbs ring first s
        → s.latest_lsid + 131076 ≤ u64_mod
        → AllListed s
        → AllListed (writepack_add_bio_wrapper pbs ring max_logpack_pb s bio true).1
    unfolding writepack_add_bio_wrapper
    writepack_add_bio_wrapper-AllListed first s i near a = go s.wpack i.current a.current
      where
        go :
            (w : Option Pack)
            → IsCurrent pbs ring s.latest_lsid w
            → IsListedIn w
            → AllListed (packed pbs ring max_logpack_pb s bio w).1
        go none c l = create-AllListed s a.list (omega (arith, near))
        go (some p) c l =
            let r =
              current-IsOpen pbs ring block block_small ring_large max_logpack_pb bio normal p
                c.0 in
            tried-AllListed s p (add_to_current pbs ring max_logpack_pb p bio).0
              (add_to_current pbs ring max_logpack_pb p bio).1 a.list l (current-IsTried p c.0)
              (close_near pbs ring block block_small ring_large max_logpack_pb bio normal s
                (record p { header = (add_to_current pbs ring max_logpack_pb p bio).0 }) r.0
                (r.1 ∙ c.1) near)

  pub finish_list-AllListed :
      (s : Packing) → AllListed s → All IsListed (finish_list pbs ring max_logpack_pb s).wpack_list
  unfolding finish_list
  finish_list-AllListed s a = go s.wpack a.current
    where
      go :
          (w : Option Pack)
          → IsListedIn w
          → All IsListed (finish_list pbs ring max_logpack_pb (record s { wpack = w })).wpack_list
      go none l = a.list
      go (some p) l = close-AllListed (record s { wpack = some p }) p a.list l
