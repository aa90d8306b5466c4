-- ===== src/Writepack/Written.antt =====
-- The record that walb_logpack_header_add_bio (module/logpack.c) makes for a write of a pack, and the lsid
-- that update_biow_lsid (module/io.c) gives the write from it.
use mathlib.Core.List.{append-nil}
use walb_driver.Common.{
  ℕ, zero, suc, ◌+◌, ◌%◌, ◌<◌, ◌≤◌, ◌≡◌, refl, sym, ap, ◌∙◌, inl, inr, Bool, Bool-cases, true,
  false, Option, some, List, [], ◌∷◌, ◌++◌, length, set, arith, if◌then◌else◌, not, ◌&&◌, ltb,
  add_u32, add_u64, ◌==◌, u16_mod, u32_mod, test_bit_u32,
}
use walb_driver.Bio.{Bio, bio_is_discard}
use walb_driver.Logpack.{
  LogRecord, LogpackHeader, log_record_padding, max_total_io_size, max_n_log_record_in_sector,
}
use walb_driver.Logpack.Add.{
  padding_record, padding_size, bio_pb_size, bio_record, add_record, add_padding, add_bio_fit,
  add_bio_padded, add_bio_in_ring, header_add_bio,
}
use walb_driver.Logpack.Last.{
  last_record, update_biow_lsid, last-add_record, n_records-add_record, io_size-bio_record,
  offset-bio_record, padding_bit-bio_record, add_padding-slots,
}

-- What a record says of its write: offset, size and lsid.
abbrev pub entry : LogRecord → ℕ × ℕ × Option ℕ
entry r = (r.offset, r.io_size, some r.lsid)

-- The first records but the paddings.
abbrev pub entries : ℕ → List LogRecord → List (ℕ × ℕ × Option ℕ)
entries zero rs = []
entries (suc n) [] = []
entries (suc n) (r ∷ rs) =
    if test_bit_u32 log_record_padding r.flags then entries n rs else entry r ∷ entries n rs

abbrev pub recorded : LogpackHeader → List (ℕ × ℕ × Option ℕ)
recorded h = entries h.n_records h.records

-- The writes of a pack that have sectors, with the lsids that they were given.
abbrev pub listed : List (Bio × Option ℕ) → List (ℕ × ℕ × Option ℕ)
listed [] = []
listed ((b, l) ∷ bs) = if b.sectors == 0 then listed bs else (b.bi_sector, b.sectors, l) ∷ listed bs

pub listed-append : (xs ys : List (Bio × Option ℕ)) → listed (xs ++ ys) ≡ listed xs ++ listed ys
listed-append [] ys = refl
listed-append ((b, l) ∷ xs) ys = elim (Bool-cases (b.sectors == 0)) [
  | inl e ↦ rw e (listed-append xs ys)
  | inr e ↦ rw e (ap (λ k. (b.bi_sector, b.sectors, l) ∷ k) (listed-append xs ys))
]

entries-set_data :
    (n : ℕ) (rs : List LogRecord) (r : LogRecord)
    → n < length rs
    → test_bit_u32 log_record_padding r.flags ≡ false
    → entries (suc n) (set rs n r) ≡ entries n rs ++ entry r ∷ []
entries-set_data n [] r h e = absurd (omega arith)
entries-set_data zero (x ∷ rs) r h e = rw e refl
entries-set_data (suc n) (x ∷ rs) r h e =
    elim (Bool-cases (test_bit_u32 log_record_padding x.flags)) [
      | inl f ↦ rw f (entries-set_data n rs r (omega arith) e)
      | inr f ↦ rw f (ap (λ k. entry x ∷ k) (entries-set_data n rs r (omega arith) e))
    ]

entries-set_padding :
    (n : ℕ) (rs : List LogRecord) (r : LogRecord)
    → n < length rs
    → test_bit_u32 log_record_padding r.flags ≡ true
    → entries (suc n) (set rs n r) ≡ entries n rs
entries-set_padding n [] r h e = absurd (omega arith)
entries-set_padding zero (x ∷ rs) r h e = rw e refl
entries-set_padding (suc n) (x ∷ rs) r h e =
    elim (Bool-cases (test_bit_u32 log_record_padding x.flags)) [
      | inl f ↦ rw f (entries-set_padding n rs r (omega arith) e)
      | inr f ↦ rw f (ap (λ k. entry x ∷ k) (entries-set_padding n rs r (omega arith) e))
    ]

-- What an attempt to add a bio with sectors makes of the records: one more if it succeeds.
abbrev Grown : Bio → LogpackHeader → LogpackHeader × Bool → Type 0
Grown bio h (h', added) = recorded h' ≡ (
    if added
    then recorded h ++ (bio.bi_sector, bio.sectors, update_biow_lsid h') ∷ []
    else recorded h)

lsid_of :
    (h : LogpackHeader) (r : LogRecord)
    → 0 < h.n_records
    → last_record h ≡ r
    → update_biow_lsid h ≡ some r.lsid
unfolding update_biow_lsid
lsid_of h r l e = elim (Bool-cases (h.n_records == 0)) [
  | inl z ↦ absurd (ground (arith, z, l))
  | inr z ↦ rw z (ap (λ x. some x.lsid) e)
]

padding-padding_record :
    (h : LogpackHeader) (pbs p : ℕ)
    → test_bit_u32 log_record_padding (padding_record h pbs p).flags ≡ true
unfolding padding_record
padding-padding_record h pbs p = ground arith

-- A header without its last slot filled.
module _ (h : LogpackHeader) (free : h.n_records < length h.records)
    (small : length h.records < u16_mod) where
  next_count : (h.n_records + 1) % u16_mod ≡ suc h.n_records
  next_count = omega arith

  recorded-add_padding : (pbs p : ℕ) → recorded (add_padding h pbs p) ≡ recorded h
  unfolding add_padding
  recorded-add_padding pbs p = rw next_count (
      entries-set_padding h.n_records h.records (padding_record h pbs p) free
        (padding-padding_record h pbs p))

  module _ (bio : Bio) (few : bio.sectors < u32_mod) (size : ℕ) where
    lsid-add_record : update_biow_lsid (add_record h bio size) ≡ some (bio_record h bio).lsid
    lsid-add_record =
        lsid_of (add_record h bio size) (bio_record h bio)
          (omega (arith, n_records-add_record h free small bio size))
          (last-add_record h free small bio size)

    appended : recorded (add_record h bio size) ≡ recorded h ++ entry (bio_record h bio) ∷ []
    unfolding add_record
    appended = rw next_count (
        entries-set_data h.n_records h.records (bio_record h bio) free
          (padding_bit-bio_record h free small bio))

    entry_lem :
        entry (bio_record h bio)
        ≡ (bio.bi_sector, bio.sectors, update_biow_lsid (add_record h bio size))
    entry_lem = λ i. (
      offset-bio_record h free small bio i,
      io_size-bio_record h free small bio few i,
      sym lsid-add_record i,
    )

    add_record-Grown : Grown bio h (add_record h bio size, true)
    add_record-Grown = appended ∙ ap (λ e. recorded h ++ e ∷ []) entry_lem

    add_bio_fit-Grown : Grown bio h (add_bio_fit h bio size)
    unfolding add_bio_fit
    add_bio_fit-Grown =
        go (not (bio_is_discard bio) && ltb max_total_io_size (add_u32 h.total_io_size size))
      where
        go : (b : Bool) → Grown bio h (if b then (h, false) else (add_record h bio size, true))
        go true = refl
        go false = add_record-Grown

Grown-trans :
    (bio : Bio) (h h' : LogpackHeader) (r : LogpackHeader × Bool)
    → recorded h' ≡ recorded h
    → Grown bio h' r
    → Grown bio h r
Grown-trans bio h h' (k, true) e g =
    g ∙ ap (λ l. l ++ (bio.bi_sector, bio.sectors, update_biow_lsid k) ∷ []) e
Grown-trans bio h h' (k, false) e g = g ∙ e

module _ (pbs : ℕ) (h : LogpackHeader) (slots : length h.records ≡ max_n_log_record_in_sector pbs)
    (room : h.n_records ≤ max_n_log_record_in_sector pbs)
    (small : max_n_log_record_in_sector pbs < u16_mod) (bio : Bio) (few : bio.sectors < u32_mod)
    (ring : ℕ) where
  abbrev padded : ℕ → LogpackHeader
  padded p = add_padding h pbs p

  add_bio_padded-Grown :
      (p size : ℕ)
      → h.n_records < max_n_log_record_in_sector pbs
      → Grown bio h (add_bio_padded h bio pbs p size)
  unfolding add_bio_padded
  add_bio_padded-Grown p size free = outer (ltb max_total_io_size (add_u64 h.total_io_size p))
    where
      e : recorded (padded p) ≡ recorded h
      e = recorded-add_padding h (omega (arith, slots, free)) (omega (arith, slots, small)) pbs p

      k :
          (length (padded p).records ≡ max_n_log_record_in_sector pbs)
          × ((padded p).n_records ≡ suc h.n_records)
      k = add_padding-slots pbs h slots small free p

      inner :
          (b : Bool)
          → ((padded p).n_records == max_n_log_record_in_sector pbs) ≡ b
          → Grown bio h (if b then (padded p, false) else add_bio_fit (padded p) bio size)
      inner true n = e
      inner false n = Grown-trans bio h (padded p) (add_bio_fit (padded p) bio size) e (
          add_bio_fit-Grown (padded p) (ground (arith, k, n, free)) (omega (arith, k, small)) bio
            few size)

      outer :
          (b : Bool)
          → Grown bio h (
              if b
              then (h, false)
              else if (padded p).n_records == max_n_log_record_in_sector pbs
              then (padded p, false)
              else add_bio_fit (padded p) bio size)
      outer true = refl
      outer false = inner ((padded p).n_records == max_n_log_record_in_sector pbs) refl

  add_bio_in_ring-Grown :
      h.n_records < max_n_log_record_in_sector pbs → Grown bio h (add_bio_in_ring h bio pbs ring)
  unfolding add_bio_in_ring
  add_bio_in_ring-Grown free =
      go (not (bio_is_discard bio) && ltb (padding_size h ring) (bio_pb_size pbs bio))
    where
      go :
          (b : Bool)
          → Grown bio h (
              if b
              then add_bio_padded h bio pbs (padding_size h ring) (bio_pb_size pbs bio)
              else add_bio_fit h bio (bio_pb_size pbs bio))
      go true = add_bio_padded-Grown (padding_size h ring) (bio_pb_size pbs bio) free
      go false =
          add_bio_fit-Grown h (omega (arith, slots, free)) (omega (arith, slots, small)) bio few
            (bio_pb_size pbs bio)

  -- What an attempt to add a write makes of the entries: the write's if it succeeds.
  pub header_add_bio-added : recorded (header_add_bio h bio pbs ring).0 ≡ (
      if (header_add_bio h bio pbs ring).1
      then recorded h ++ listed ((bio, update_biow_lsid (header_add_bio h bio pbs ring).0) ∷ [])
      else recorded h)
  unfolding header_add_bio
  header_add_bio-added = elim (Bool-cases (h.n_records == max_n_log_record_in_sector pbs)) [
    | inl f ↦ rw f refl
    | inr f ↦ elim (Bool-cases (bio.sectors == 0)) [
      | inl z ↦ rw (f, z) (sym (append-nil (recorded h)))
      | inr z ↦ rw (f, z) (add_bio_in_ring-Grown (ground (arith, f, room)))
    ]
  ]
