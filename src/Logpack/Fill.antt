-- ===== src/Logpack/Fill.antt =====
-- One more record in a header: what walb_logpack_header_add_bio writes, without the wrap of the
-- sixteen-bit counters, and what it needs to keep the shape of the header.
use native.Mathlib.Nat.{mod-lt, mod-le, mod-add-mod, mod_self, mod-eq-sub-mod}
use walb_driver.Common.{
  ℕ, suc, ◌+◌, ◌-◌, ◌*◌, ◌%◌, ◌≤◌, ◌<◌, ◌≡◌, sym, ◌∙◌, ap, ◌⊎◌, inl, inr, true, length, set, take,
  take-set_end, length-set, u16_mod, arith, if◌then◌else◌, u32_mod,
}
use walb_driver.Block.{is_valid_pbs, n_lb_in_pb}
use walb_driver.Bio.{Bio, bio_is_discard}
use walb_driver.Logpack.{
  LogRecord, LogpackHeader, max_total_io_size, max_n_log_record_in_sector, is_record_of,
}
use walb_driver.Logpack.Add.{padding_record, add_padding, bio_record, add_record}
use walb_driver.Logpack.Shape.{physical_size, Laid-append, Unused-set, are_records_of-set, IsOpen}

-- A header after one more record.
abbrev pub filled : LogpackHeader → LogRecord → ℕ → ℕ → LogpackHeader
filled h r total padding = record h {
  records = set h.records h.n_records r;
  n_records = suc h.n_records;
  total_io_size = total;
  n_padding = padding;
}

module _ {pbs ring : ℕ} {h : LogpackHeader} (o : IsOpen pbs ring h) where
  pub filled-IsOpen :
      (r : LogRecord) (total padding : ℕ)
      → h.n_records < max_n_log_record_in_sector pbs
      → is_record_of h.logpack_lsid r ≡ true
      → r.lsid ≡ h.logpack_lsid + 1 + h.total_io_size
      → (h.logpack_lsid + 1 + h.total_io_size) % ring + physical_size pbs r ≤ ring
      → total ≡ h.total_io_size + physical_size pbs r
      → total ≤ max_total_io_size
      → padding ≤ suc h.n_records
      → ((padding ≡ 0) ⊎ ((padding ≡ 1) × (ring ≤ (h.logpack_lsid + 1) % ring + total)))
      → IsOpen pbs ring (filled h r total padding)
  filled-IsOpen r total padding free v e w t fits p c = record {
    typed = o.typed;
    slots = omega (arith, length-set h.records h.n_records r, o.slots);
    room = free;
    small = fits;
    near = o.near;
    paddings = p;
    crossed = c;
    empty = λ z. absurd (omega arith);
    valid = are_records_of-set h.logpack_lsid h.n_records h.records r o.valid v inside;
    laid =
        rw (take-set_end h.records h.n_records r inside, t, ← sum)
          (Laid-append pbs ring (h.logpack_lsid + 1) (h.logpack_lsid + 1 + h.total_io_size)
            (take h.n_records h.records) r o.laid e w);
    unused = Unused-set h.n_records h.records r o.unused;
  }
    where
      inside : h.n_records < length h.records
      inside = omega (arith, o.slots)

      sum :
          h.logpack_lsid + 1 + h.total_io_size + physical_size pbs r
          ≡ h.logpack_lsid + 1 + (h.total_io_size + physical_size pbs r)
      sum = omega arith

-- What the callers of walb_logpack_header_add_bio see to: a valid block size of 16 bits, a ring
-- buffer larger than a logpack, and a bio of legal size. `discards`: a discard is not added to a
-- header whose sizes already sum to 65535.
pub record IsLegal (pbs ring : ℕ) (h : LogpackHeader) (bio : Bio) : Type 0 where
  pub block : is_valid_pbs pbs ≡ true
  pub block_small : pbs < u16_mod
  pub ring_large : u16_mod ≤ ring
  pub sectors_small : bio.sectors < u32_mod
  pub normal_small : (bio_is_discard bio ≡ true) ⊎ (bio.sectors ≤ 65535)
  pub discards : bio_is_discard bio ≡ true → h.total_io_size < max_total_io_size

pub max_n_small : (pbs : ℕ) → pbs < u16_mod → max_n_log_record_in_sector pbs < 2048
unfolding max_n_log_record_in_sector
max_n_small pbs h = omega arith

pub n_lb_small : (pbs : ℕ) → pbs < u16_mod → n_lb_in_pb pbs ≤ 127
unfolding n_lb_in_pb
n_lb_small pbs h = omega arith

-- What `padding_pb < bio_pb` and the size limit give.
pub product_facts :
    (n cap sectors : ℕ)
    → 0 < n
    → n ≤ 127
    → sectors ≤ 65535
    → cap * n < sectors + n
    → (cap < 65663) × ((p : ℕ) → p < cap → p * n < 65536)
product_facts n cap sectors h k s c = (grind arith, λ p l. grind arith)

-- The start of the next lap.
pub lap : (e ring : ℕ) → 0 < ring → (e + (ring - e % ring)) % ring ≡ 0
lap e ring h =
    sym (mod-add-mod e ring (ring - e % ring))
    ∙ (ap (λ x. x % ring) (whole (e % ring) ring (mod-lt e h)) ∙ mod_self ring)
  where
    whole : (m r : ℕ) → m < r → m + (r - m) ≡ r
    whole m r l = omega arith

-- A padding record reaches the end of the ring buffer, and there is no second one in a header.
pub crossing :
    (l t ring n : ℕ)
    → 65536 ≤ ring
    → t + (ring - (l + 1 + t) % ring) ≤ 65535
    → ((n ≡ 0) ⊎ ((n ≡ 1) × (ring ≤ (l + 1) % ring + t)))
    → (n ≡ 0) × (ring ≤ (l + 1) % ring + (t + (ring - (l + 1 + t) % ring)))
crossing l t ring n big fits (inl z) =
    (z, omega (arith, mod-le ((l + 1) % ring + t) ring, mod-add-mod (l + 1) ring t))
crossing l t ring n big fits (inr (one, r)) = absurd (
    omega (
      arith,
      mod-eq-sub-mod {n = (l + 1) % ring + t} {m = ring} r,
      mod-le ((l + 1) % ring + t - ring) ring,
      mod-add-mod (l + 1) ring t,
      mod-lt (l + 1) {m = ring} (omega arith),
    ))

module _ {pbs ring : ℕ} {h : LogpackHeader} (o : IsOpen pbs ring h) where
  pub add_padding-filled :
      (p : ℕ)
      → pbs < u16_mod
      → h.total_io_size + p ≤ max_total_io_size
      → add_padding h pbs p
        ≡ filled h (padding_record h pbs p) (h.total_io_size + p) (suc h.n_padding)
  unfolding add_padding
  add_padding-filled p small t = λ i. record h {
    records = set h.records h.n_records (padding_record h pbs p);
    n_padding = one_more i;
    n_records = next i;
    total_io_size = sum i;
  }
    where
      one_more : (h.n_padding + 1) % u16_mod ≡ suc h.n_padding
      one_more = omega (arith, o.crossed)

      next : (h.n_records + 1) % u16_mod ≡ suc h.n_records
      next = omega (arith, o.room, max_n_small pbs small)

      sum : (h.total_io_size + p) % u16_mod ≡ h.total_io_size + p
      sum = omega arith

  pub add_record-filled :
      (bio : Bio) (bio_pb : ℕ)
      → pbs < u16_mod
      → ((bio_is_discard bio ≡ true) ⊎ (h.total_io_size + bio_pb ≤ max_total_io_size))
      → add_record h bio bio_pb
        ≡ filled h
            (bio_record h bio)
            (h.total_io_size + (if bio_is_discard bio then 0 else bio_pb))
            h.n_padding
  unfolding add_record
  add_record-filled bio bio_pb small t = λ i. record h {
    records = set h.records h.n_records (bio_record h bio);
    n_records = next i;
    total_io_size = sum i;
  }
    where
      next : (h.n_records + 1) % u16_mod ≡ suc h.n_records
      next = omega (arith, o.room, max_n_small pbs small)

      sum :
          (if bio_is_discard bio then h.total_io_size else (h.total_io_size + bio_pb) % u16_mod)
          ≡ h.total_io_size + (if bio_is_discard bio then 0 else bio_pb)
      sum = ground arith
