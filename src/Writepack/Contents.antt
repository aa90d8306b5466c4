-- ===== src/Writepack/Contents.antt =====
-- The writes in the packs that create_logpack_list (module/io.c) makes, in their order.
use mathlib.Core.List.{append_assoc, append-nil}
use walb_driver.Common.{
  ℕ, ◌≡◌, refl, sym, ap, ◌∙◌, Bool, true, false, Option, none, some, List, [], ◌∷◌, ◌++◌,
  if◌then◌else◌, ◌==◌,
}
use walb_driver.Bio.{Bio}
use walb_driver.Logpack.{LogpackHeader}
use walb_driver.Logpack.Last.{update_biow_lsid}
use walb_driver.Writepack.{
  Pack, Packing, writepack_check_and_set_zeroflush, add_to_current, finish, create_pack_with,
  close_pack, writepack_add_bio_wrapper, pack_writes, finish_list,
}

abbrev pub firsts : List (Bio × Option ℕ) → List Bio
firsts [] = []
firsts ((b, l) ∷ bs) = b ∷ firsts bs

-- The writes of packs, in order.
abbrev pub bios_of : List Pack → List Bio
bios_of [] = []
bios_of (p ∷ ps) = firsts p.bios ++ bios_of ps

abbrev pub bios_in : Option Pack → List Bio
bios_in none = []
bios_in (some p) = firsts p.bios

abbrev pub contents : Packing → List Bio
contents s = bios_of s.wpack_list ++ bios_in s.wpack

firsts-append : (xs ys : List (Bio × Option ℕ)) → firsts (xs ++ ys) ≡ firsts xs ++ firsts ys
firsts-append [] ys = refl
firsts-append ((b, l) ∷ xs) ys = ap (λ l. b ∷ l) (firsts-append xs ys)

bios_of-append : (xs ys : List Pack) → bios_of (xs ++ ys) ≡ bios_of xs ++ bios_of ys
bios_of-append [] ys = refl
bios_of-append (p ∷ xs) ys =
    ap (λ l. firsts p.bios ++ l) (bios_of-append xs ys)
    ∙ sym (append_assoc (firsts p.bios) (bios_of xs) (bios_of ys))

abbrev pub flagged : Pack → Bool → Bool → Pack × Bool
flagged p is_flush b = if b then (record p { zero_flush = true }, true) else (p, is_flush)

module _ (pbs ring max_logpack_pb : ℕ) where
  -- The current pack goes on the list with its writes.
  closed_bios :
      (s : Packing) (p : Pack)
      → bios_of (close_pack pbs ring max_logpack_pb s p).wpack_list
        ≡ bios_of s.wpack_list ++ firsts p.bios
  unfolding close_pack writepack_check_and_set_zeroflush
  closed_bios s p = go (p.header.n_records == 0)
    where
      go :
          (b : Bool)
          → bios_of (s.wpack_list ++ (flagged p s.is_flush b).0 ∷ [])
            ≡ bios_of s.wpack_list ++ firsts p.bios
      go true =
          bios_of-append s.wpack_list (record p { zero_flush = true } ∷ [])
          ∙ ap (λ l. bios_of s.wpack_list ++ l) (append-nil (firsts p.bios))
      go false =
          bios_of-append s.wpack_list (p ∷ [])
          ∙ ap (λ l. bios_of s.wpack_list ++ l) (append-nil (firsts p.bios))

  finish-contents :
      (s : Packing) (p : Pack) (bio : Bio)
      → contents (finish pbs ring max_logpack_pb s p bio)
        ≡ (bios_of s.wpack_list ++ firsts p.bios) ++ bio ∷ []
  unfolding finish
  finish-contents s p bio =
      ap (λ l. bios_of s.wpack_list ++ l)
        (firsts-append p.bios ((bio, update_biow_lsid p.header) ∷ []))
      ∙ sym (append_assoc (bios_of s.wpack_list) (firsts p.bios) (bio ∷ []))

  create-contents :
      (s : Packing) (bio : Bio)
      → contents (create_pack_with pbs ring max_logpack_pb s bio true).1
        ≡ bios_of s.wpack_list ++ bio ∷ []
  unfolding create_pack_with finish
  create-contents s bio = refl

  taken-contents :
      (s : Packing) (p : Pack) (h : LogpackHeader) (bio : Bio) (added : Bool)
      → contents
          (if added
            then (true, finish pbs ring max_logpack_pb s (record p { header = h }) bio)
            else create_pack_with pbs ring max_logpack_pb
                (close_pack pbs ring max_logpack_pb s (record p { header = h }))
                bio
                true).1
        ≡ (bios_of s.wpack_list ++ firsts p.bios) ++ bio ∷ []
  taken-contents s p h bio true = finish-contents s (record p { header = h }) bio
  taken-contents s p h bio false =
      create-contents (close_pack pbs ring max_logpack_pb s (record p { header = h })) bio
      ∙ ap (λ l. l ++ bio ∷ []) (closed_bios s (record p { header = h }))

  -- writepack_add_bio_wrapper, written out on the current pack.
  abbrev pub tried : Packing → Bio → Pack → LogpackHeader × Bool → Bool × Packing
  tried s bio p r =
      if r.1
      then (true, finish pbs ring max_logpack_pb s (record p { header = r.0 }) bio)
      else create_pack_with pbs ring max_logpack_pb
          (close_pack pbs ring max_logpack_pb s (record p { header = r.0 })) bio true

  abbrev pub packed : Packing → Bio → Option Pack → Bool × Packing
  packed s bio none = create_pack_with pbs ring max_logpack_pb s bio true
  packed s bio (some p) = tried s bio p (add_to_current pbs ring max_logpack_pb p bio)

  -- A write is added at the end.
  add-contents :
      (s : Packing) (bio : Bio)
      → contents (writepack_add_bio_wrapper pbs ring max_logpack_pb s bio true).1
        ≡ contents s ++ bio ∷ []
  unfolding writepack_add_bio_wrapper
  add-contents s bio = go s.wpack
    where
      go :
          (w : Option Pack)
          → contents (packed s bio w).1 ≡ (bios_of s.wpack_list ++ bios_in w) ++ bio ∷ []
      go none =
          create-contents s bio ∙ ap (λ l. l ++ bio ∷ []) (sym (append-nil (bios_of s.wpack_list)))
      go (some p) =
          taken-contents s p (add_to_current pbs ring max_logpack_pb p bio).0 bio
            (add_to_current pbs ring max_logpack_pb p bio).1

  pub pack_writes-contents :
      (s : Packing) (bios : List Bio)
      → contents (pack_writes pbs ring max_logpack_pb s bios) ≡ contents s ++ bios
  unfolding pack_writes
  pack_writes-contents s [] = sym (append-nil (contents s))
  pack_writes-contents s (bio ∷ bios) =
      pack_writes-contents (writepack_add_bio_wrapper pbs ring max_logpack_pb s bio true).1 bios
      ∙ ap (λ l. l ++ bios) (add-contents s bio)
      ∙ append_assoc (contents s) (bio ∷ []) bios

  pub finish_list-contents :
      (s : Packing) → bios_of (finish_list pbs ring max_logpack_pb s).wpack_list ≡ contents s
  unfolding finish_list
  finish_list-contents s = go s.wpack
    where
      go :
          (w : Option Pack)
          → bios_of (finish_list pbs ring max_logpack_pb (record s { wpack = w })).wpack_list
            ≡ bios_of s.wpack_list ++ bios_in w
      go none = sym (append-nil (bios_of s.wpack_list))
      go (some p) = closed_bios (record s { wpack = some p }) p
