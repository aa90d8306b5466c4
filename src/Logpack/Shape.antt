-- ===== src/Logpack/Shape.antt =====
-- The shape of a logpack header under construction: the used records lie one behind the other in the
-- log, none crosses the end of the ring buffer, and the slots behind them are untouched.
use walb_driver.Common.{
  ℕ, zero, suc, ◌+◌, ◌%◌, ◌≤◌, ◌<◌, ◌≡◌, refl, ◌⊎◌, true, List, [], ◌∷◌, ◌++◌, length, take, set,
  get_or, if◌then◌else◌, u64_mod, arith, test_bit_u32,
}
use walb_driver.Block.{capacity_pb}
use walb_driver.Logpack.{
  LogRecord, LogpackHeader, log_record_init, log_record_discard, sector_type_logpack,
  max_total_io_size, max_n_log_record_in_sector, is_record_of, are_records_of,
}

-- Physical blocks that a record takes in the log: none for a discard.
abbrev pub physical_size : ℕ → LogRecord → ℕ
physical_size pbs r =
    if test_bit_u32 log_record_discard r.flags then 0 else capacity_pb pbs r.io_size

-- The records start at `lsid`, follow one another without a gap, end at `end`, and none of them
-- crosses the end of the ring buffer.
abbrev pub Laid : ℕ → ℕ → ℕ → List LogRecord → ℕ → Type 0
Laid pbs ring lsid [] end = lsid ≡ end
Laid pbs ring lsid (r ∷ rs) end =
    (r.lsid ≡ lsid)
    × (lsid % ring + physical_size pbs r ≤ ring)
    × Laid pbs ring (lsid + physical_size pbs r) rs end

pub Laid-append :
    (pbs ring lsid end : ℕ) (rs : List LogRecord) (r : LogRecord)
    → Laid pbs ring lsid rs end
    → r.lsid ≡ end
    → end % ring + physical_size pbs r ≤ ring
    → Laid pbs ring lsid (rs ++ r ∷ []) (end + physical_size pbs r)
Laid-append pbs ring lsid end [] r h e w = rw h (e, w, refl)
Laid-append pbs ring lsid end (x ∷ rs) r h e w =
    (h.0, h.1, Laid-append pbs ring (lsid + physical_size pbs x) end rs r h.2 e w)

-- The slots from the given one on are zero.
abbrev pub Unused : ℕ → List LogRecord → Type 0
Unused n [] = Unit
Unused zero (r ∷ rs) = (r ≡ log_record_init) × Unused zero rs
Unused (suc n) (r ∷ rs) = Unused n rs

pub Unused-slot :
    (n : ℕ) (rs : List LogRecord) → Unused n rs → get_or rs n log_record_init ≡ log_record_init
Unused-slot zero [] u = refl
Unused-slot (suc n) [] u = refl
Unused-slot zero (r ∷ rs) u = u.0
Unused-slot (suc n) (r ∷ rs) u = Unused-slot n rs u

Unused-tail : (rs : List LogRecord) (r : LogRecord) → Unused zero (r ∷ rs) → Unused 1 (r ∷ rs)
Unused-tail rs r u = u.1

pub Unused-set :
    (n : ℕ) (rs : List LogRecord) (r : LogRecord) → Unused n rs → Unused (suc n) (set rs n r)
Unused-set n [] r u = tt
Unused-set zero (x ∷ rs) r u = u.1
Unused-set (suc n) (x ∷ rs) r u = Unused-set n rs r u

-- Filling the next slot keeps the records valid.
pub are_records_of-set :
    (lsid n : ℕ) (rs : List LogRecord) (r : LogRecord)
    → are_records_of lsid n rs ≡ true
    → is_record_of lsid r ≡ true
    → n < length rs
    → are_records_of lsid (suc n) (set rs n r) ≡ true
unfolding are_records_of
are_records_of-set lsid n [] r a v h = absurd (omega arith)
are_records_of-set lsid zero (x ∷ rs) r a v h = rw v
are_records_of-set lsid (suc n) (x ∷ rs) r a v h = ground (arith, are_records_of-set lsid n rs r)

-- What holds of a header from its creation on. `crossed`: a header has at most one padding record,
-- and with it the records have reached the end of the ring buffer.
pub record IsOpen (pbs ring : ℕ) (h : LogpackHeader) : Type 0 where
  pub typed : h.sector_type ≡ sector_type_logpack
  pub slots : length h.records ≡ max_n_log_record_in_sector pbs
  pub room : h.n_records ≤ max_n_log_record_in_sector pbs
  pub small : h.total_io_size ≤ max_total_io_size
  pub near : h.logpack_lsid + 65538 ≤ u64_mod
  pub paddings : h.n_padding ≤ h.n_records
  pub crossed :
      (h.n_padding ≡ 0)
      ⊎ ((h.n_padding ≡ 1) × (ring ≤ (h.logpack_lsid + 1) % ring + h.total_io_size))
  pub empty : h.n_records ≡ 0 → h.total_io_size ≡ 0
  pub valid : are_records_of h.logpack_lsid h.n_records h.records ≡ true
  pub laid :
      Laid pbs ring
        (h.logpack_lsid + 1)
        (take h.n_records h.records)
        (h.logpack_lsid + 1 + h.total_io_size)
  pub unused : Unused h.n_records h.records
