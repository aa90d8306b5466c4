-- ===== src/Writepack/Chain.antt =====
-- The packs that writepack_add_bio_wrapper (module/io.c) makes: their headers are valid, and each starts
-- where the one before it ends.
use walb_driver.Common.{
  ℕ, ◌+◌, ◌≤◌, ◌<◌, ◌≡◌, refl, sym, ◌∙◌, inr, Bool, true, false, Option, none, some, List, [], ◌∷◌,
  ◌++◌, arith, ltb, if◌then◌else◌, ◌==◌, ◌&&◌, ◌||◌, u16_mod, u64_mod,
}
use walb_driver.Block.{is_valid_pbs}
use walb_driver.Bio.{Bio}
use walb_driver.Logpack.{LogpackHeader, get_next_lsid_unsafe}
use walb_driver.Logpack.Add.{
  header_add_bio, add_bio_in_ring, add_bio_fit, add_bio_padded, add_record, add_padding,
  bio_pb_size, padding_size,
}
use walb_driver.Logpack.Shape.{IsOpen}
use walb_driver.Logpack.Layout.{header_add_bio-IsOpen}
use walb_driver.Logpack.Valid.{
  create_logpack_header, create_logpack_header-IsOpen, IsNormal, get_next_lsid-eq,
}
use walb_driver.Writepack.{
  Pack, Packing, bio_has_flush, is_zero_flush_only, is_pack_size_too_large,
  writepack_check_and_set_zeroflush, add_to_current, finish, create_pack_with, close_pack,
  writepack_add_bio_wrapper,
}

module _ (pbs ring : ℕ) where
  -- The packs start at `lsid`, each behind the one before it, and end at `end`.
  abbrev pub Chained : ℕ → List Pack → ℕ → Type 0
  Chained lsid [] end = lsid ≡ end
  Chained lsid (p ∷ ps) end =
      IsOpen pbs ring p.header
      × (p.header.logpack_lsid ≡ lsid)
      × Chained (get_next_lsid_unsafe p.header) ps end

  abbrev pub IsCurrent : ℕ → Option Pack → Type 0
  IsCurrent lsid none = Unit
  IsCurrent lsid (some p) = IsOpen pbs ring p.header × (p.header.logpack_lsid ≡ lsid)

  pub record IsPacking (first : ℕ) (s : Packing) : Type 0 where
    pub chained : Chained first s.wpack_list s.latest_lsid
    pub current : IsCurrent s.latest_lsid s.wpack

  Chained-append :
      (lsid end : ℕ) (ps : List Pack) (p : Pack)
      → Chained lsid ps end
      → IsOpen pbs ring p.header
      → p.header.logpack_lsid ≡ end
      → Chained lsid (ps ++ p ∷ []) (get_next_lsid_unsafe p.header)
  Chained-append lsid end [] p c o e = (o, e ∙ sym c, refl)
  Chained-append lsid end (q ∷ ps) p c o e =
      (c.0, c.1, Chained-append (get_next_lsid_unsafe q.header) end ps p c.2 o e)

  -- The lsid of a header stays.
  fit_lsid :
      (h : LogpackHeader) (bio : Bio) (n : ℕ)
      → (add_bio_fit h bio n).0.logpack_lsid ≡ h.logpack_lsid
  unfolding add_bio_fit add_record
  fit_lsid h bio n = ground arith

  padded_lsid :
      (h : LogpackHeader) (bio : Bio) (p n : ℕ)
      → (add_bio_padded h bio pbs p n).0.logpack_lsid ≡ h.logpack_lsid
  unfolding add_bio_padded add_padding
  padded_lsid h bio p n = ground (arith, fit_lsid (add_padding h pbs p) bio n)

  same_lsid :
      (h : LogpackHeader) (bio : Bio)
      → (header_add_bio h bio pbs ring).0.logpack_lsid ≡ h.logpack_lsid
  unfolding header_add_bio add_bio_in_ring
  same_lsid h bio = ground (
    arith,
    fit_lsid h bio (bio_pb_size pbs bio),
    padded_lsid h bio (padding_size h ring) (bio_pb_size pbs bio),
  )

  abbrev flagged : Pack → Bool → Bool → Pack × Bool
  flagged p is_flush b = if b then (record p { zero_flush = true }, true) else (p, is_flush)

  -- The current pack on the list.
  pub close-Chained :
      (max_logpack_pb first : ℕ) (s : Packing) (p : Pack)
      → Chained first s.wpack_list s.latest_lsid
      → IsOpen pbs ring p.header
      → p.header.logpack_lsid ≡ s.latest_lsid
      → Chained first
          (close_pack pbs ring max_logpack_pb s p).wpack_list
          (close_pack pbs ring max_logpack_pb s p).latest_lsid
  unfolding close_pack writepack_check_and_set_zeroflush
  close-Chained max_logpack_pb first s p c o e = go (p.header.n_records == 0)
    where
      go :
          (b : Bool)
          → Chained first
              (s.wpack_list ++ (flagged p s.is_flush b).0 ∷ [])
              (get_next_lsid_unsafe (flagged p s.is_flush b).0.header)
      go true =
          Chained-append first s.latest_lsid s.wpack_list (record p { zero_flush = true }) c o e
      go false = Chained-append first s.latest_lsid s.wpack_list p c o e

  module _ (block : is_valid_pbs pbs ≡ true) (block_small : pbs < u16_mod)
      (ring_large : u16_mod ≤ ring) (max_logpack_pb : ℕ) (bio : Bio) (normal : IsNormal bio) where
    add-IsOpen :
        {h : LogpackHeader} → IsOpen pbs ring h → IsOpen pbs ring (header_add_bio h bio pbs ring).0
    add-IsOpen {h} o = header_add_bio-IsOpen o bio (record {
      block = block;
      block_small = block_small;
      ring_large = ring_large;
      sectors_small = omega (arith, normal.1);
      normal_small = inr normal.1;
      discards = λ d. ground (arith, normal.0);
    })

    pub current-IsOpen :
        (p : Pack)
        → IsOpen pbs ring p.header
        → IsOpen pbs ring (add_to_current pbs ring max_logpack_pb p bio).0
          × ((add_to_current pbs ring max_logpack_pb p bio).0.logpack_lsid ≡ p.header.logpack_lsid)
    unfolding add_to_current
    current-IsOpen p o = go (is_zero_flush_only p) (
        ltb 0 p.header.n_records
        && (bio_has_flush bio || is_pack_size_too_large p.header pbs max_logpack_pb bio))
      where
        go :
            (x y : Bool)
            → IsOpen pbs ring
                (if x
                  then (p.header, false)
                  else if y
                  then (p.header, false)
                  else header_add_bio p.header bio pbs ring).0
              × ((if x
                    then (p.header, false)
                    else if y
                    then (p.header, false)
                    else header_add_bio p.header bio pbs ring).0.logpack_lsid
                  ≡ p.header.logpack_lsid)
        go true y = (o, refl)
        go false true = (o, refl)
        go false false = (add-IsOpen o, same_lsid p.header bio)

    created : (s : Packing) → (create_pack_with pbs ring max_logpack_pb s bio true).0 ≡ true
    unfolding create_pack_with
    created s = refl

    -- A new pack behind the list.
    create-IsPacking :
        (first : ℕ) (s : Packing)
        → Chained first s.wpack_list s.latest_lsid
        → s.latest_lsid + 65538 ≤ u64_mod
        → IsPacking first (create_pack_with pbs ring max_logpack_pb s bio true).1
    unfolding create_pack_with finish create_logpack_header
    create-IsPacking first s c near = record {
      chained = c;
      current = (
        add-IsOpen (create_logpack_header-IsOpen pbs ring s.latest_lsid near),
        same_lsid (create_logpack_header pbs s.latest_lsid) bio,
      );
    }

    pub close_near :
        (s : Packing) (p : Pack)
        → IsOpen pbs ring p.header
        → p.header.logpack_lsid ≡ s.latest_lsid
        → s.latest_lsid + 131076 ≤ u64_mod
        → (close_pack pbs ring max_logpack_pb s p).latest_lsid + 65538 ≤ u64_mod
    unfolding close_pack writepack_check_and_set_zeroflush
    close_near s p o e near = go (p.header.n_records == 0)
      where
        end : get_next_lsid_unsafe p.header + 65538 ≤ u64_mod
        end = ground (arith, get_next_lsid-eq o, o.small, e, near)

        go : (b : Bool) → get_next_lsid_unsafe (flagged p s.is_flush b).0.header + 65538 ≤ u64_mod
        go true = end
        go false = end

    finish-IsPacking :
        (first : ℕ) (s : Packing) (p : Pack)
        → Chained first s.wpack_list s.latest_lsid
        → IsOpen pbs ring p.header
        → p.header.logpack_lsid ≡ s.latest_lsid
        → IsPacking first (finish pbs ring max_logpack_pb s p bio)
    unfolding finish
    finish-IsPacking first s p c o e = record { chained = c; current = (o, e) }

    -- The two branches behind the attempt to add the write to the current pack.
    abbrev taken : Packing → Pack → LogpackHeader × Bool → Bool × Packing
    taken s p r =
        if r.1
        then (true, finish pbs ring max_logpack_pb s (record p { header = r.0 }) bio)
        else create_pack_with pbs ring max_logpack_pb
            (close_pack pbs ring max_logpack_pb s (record p { header = r.0 })) bio true

    abbrev packed : Packing → Option Pack → Bool × Packing
    packed s none = create_pack_with pbs ring max_logpack_pb s bio true
    packed s (some p) = taken s p (add_to_current pbs ring max_logpack_pb p bio)

    taken-IsPacking :
        (first : ℕ) (s : Packing) (p : Pack) (h : LogpackHeader) (added : Bool)
        → Chained first s.wpack_list s.latest_lsid
        → s.latest_lsid + 131076 ≤ u64_mod
        → IsOpen pbs ring h
        → h.logpack_lsid ≡ s.latest_lsid
        → ((taken s p (h, added)).0 ≡ true) × IsPacking first (taken s p (h, added)).1
    taken-IsPacking first s p h true c near o e =
        (refl, finish-IsPacking first s (record p { header = h }) c o e)
    taken-IsPacking first s p h false c near o e =
        let closed = close_pack pbs ring max_logpack_pb s (record p { header = h }) in
        (
          created closed,
          create-IsPacking first closed
              (close-Chained max_logpack_pb first s (record p { header = h }) c o e)
              (close_near s (record p { header = h }) o e near),
        )

    -- While memory is there, writepack_add_bio_wrapper takes every write, keeps the headers of all packs
    -- valid, and starts each pack where the one before it ends. The write is no discard and has at most
    -- 65535 sectors, the block size is valid and of sixteen bits, the ring buffer is larger than a
    -- logpack, and the lsid is not near the end of the range.
    pub writepack_add_bio_wrapper-IsPacking :
        (first : ℕ) (s : Packing)
        → IsPacking first s
        → s.latest_lsid + 131076 ≤ u64_mod
        → ((writepack_add_bio_wrapper pbs ring max_logpack_pb s bio true).0 ≡ true)
          × IsPacking first (writepack_add_bio_wrapper pbs ring max_logpack_pb s bio true).1
    unfolding writepack_add_bio_wrapper
    writepack_add_bio_wrapper-IsPacking first s i near = go s.wpack i.current
      where
        go :
            (w : Option Pack)
            → IsCurrent s.latest_lsid w
            → ((packed s w).0 ≡ true) × IsPacking first (packed s w).1
        go none c = (created s, create-IsPacking first s i.chained (omega (arith, near)))
        go (some p) c =
            let r = current-IsOpen p c.0 in
            taken-IsPacking first s p (add_to_current pbs ring max_logpack_pb p bio).0
              (add_to_current pbs ring max_logpack_pb p bio).1 i.chained near r.0 (r.1 ∙ c.1)
