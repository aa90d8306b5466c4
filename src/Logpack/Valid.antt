-- ===== src/Logpack/Valid.antt =====
-- What the shape of a header is for: the header passes the driver's own validation, its next lsid
-- does not wrap, and a new header has the shape.
use walb_driver.Common.{
  ℕ, zero, suc, ◌+◌, ◌≤◌, ◌<◌, ◌≡◌, refl, true, false, List, [], ◌∷◌, All, replicate,
  length-replicate, u16_mod, u64_mod, arith, ◌==◌, inl, inr, if◌then◌else◌,
}
use walb_driver.Block.{is_valid_pbs}
use walb_driver.Bio.{Bio, bio_is_discard}
use walb_driver.Logpack.{
  LogpackHeader, log_record_init, sector_type_logpack, max_n_log_record_in_sector,
  is_valid_logpack_header, is_valid_logpack_header_and_records, are_records_of,
  get_next_lsid_unsafe,
}
use walb_driver.Logpack.Add.{header_add_bio}
use walb_driver.Logpack.Shape.{IsOpen, Unused}
use walb_driver.Logpack.Fill.{IsLegal}
use walb_driver.Logpack.Layout.{header_add_bio-IsOpen}

-- create_writepack of module/io.c: a zero sector with its type and lsid.
unfoldable pub create_logpack_header : ℕ → ℕ → LogpackHeader
create_logpack_header pbs logpack_lsid = record {
  checksum = 0;
  sector_type = sector_type_logpack;
  total_io_size = 0;
  logpack_lsid = logpack_lsid;
  n_records = 0;
  n_padding = 0;
  records = replicate (max_n_log_record_in_sector pbs) log_record_init;
}

pub replicate-Unused : (n : ℕ) → Unused 0 (replicate n log_record_init)
replicate-Unused zero = tt
replicate-Unused (suc n) = (refl, replicate-Unused n)

-- A new header has the shape of an open header, if its lsid is not near the end of the range.
pub create_logpack_header-IsOpen :
    (pbs ring logpack_lsid : ℕ)
    → logpack_lsid + 65538 ≤ u64_mod
    → IsOpen pbs ring (create_logpack_header pbs logpack_lsid)
unfolding create_logpack_header are_records_of
create_logpack_header-IsOpen pbs ring logpack_lsid h = record {
  typed = refl;
  slots = length-replicate (max_n_log_record_in_sector pbs) log_record_init;
  room = omega arith;
  small = omega arith;
  near = h;
  paddings = omega arith;
  crossed = inl refl;
  empty = λ _. refl;
  valid = refl;
  laid = omega arith;
  unused = replicate-Unused (max_n_log_record_in_sector pbs);
}

-- An open header passes the driver's validation of a header and its records.
pub IsOpen-valid :
    {pbs ring : ℕ} {h : LogpackHeader}
    → IsOpen pbs ring h
    → is_valid_logpack_header_and_records h ≡ true
unfolding is_valid_logpack_header_and_records is_valid_logpack_header
IsOpen-valid {h = h} o =
    rw o.valid (ground (arith, o.typed, o.small, o.near, o.paddings, o.crossed, o.empty))

-- The next logpack starts where the records of an open header end, without a wrap; a header with no
-- records takes no room.
pub get_next_lsid-eq :
    {pbs ring : ℕ} {h : LogpackHeader}
    → IsOpen pbs ring h
    → get_next_lsid_unsafe h
      ≡ (if h.n_records == 0 then h.logpack_lsid else h.logpack_lsid + 1 + h.total_io_size)
unfolding get_next_lsid_unsafe
get_next_lsid-eq {h = h} o = ground (arith, o.near, o.small, o.empty)

abbrev pub add_all : LogpackHeader → List Bio → ℕ → ℕ → LogpackHeader
add_all h [] pbs ring = h
add_all h (bio ∷ bios) pbs ring = add_all (header_add_bio h bio pbs ring).0 bios pbs ring

-- A bio that is no discard, of at most 65535 sectors.
abbrev pub IsNormal : Bio → Type 0
IsNormal bio = (bio_is_discard bio ≡ false) × (bio.sectors ≤ 65535)

add_all-IsOpen :
    (pbs ring : ℕ) (h : LogpackHeader) (bios : List Bio)
    → is_valid_pbs pbs ≡ true
    → pbs < u16_mod
    → u16_mod ≤ ring
    → All IsNormal bios
    → IsOpen pbs ring h
    → IsOpen pbs ring (add_all h bios pbs ring)
add_all-IsOpen pbs ring h [] v s r a o = o
add_all-IsOpen pbs ring h (bio ∷ bios) v s r a o =
    add_all-IsOpen pbs ring (header_add_bio h bio pbs ring).0 bios v s r a.1
      (header_add_bio-IsOpen o bio legal)
  where
    legal : IsLegal pbs ring h bio
    legal = record {
      block = v;
      block_small = s;
      ring_large = r;
      sectors_small = omega (arith, a.0.1);
      normal_small = inr a.0.1;
      discards = λ d. ground (arith, a.0.0);
    }

-- A new header to which writes were added, in any order and with any of them refused, passes the driver's
-- validation. The writes are no discards, of at most 65535 sectors each, the block size is valid and of
-- sixteen bits, the ring buffer has at least 65536 blocks, and the lsid of the header is at most
-- 2 ^ 64 - 65538.
pub add_all-valid :
    (pbs ring logpack_lsid : ℕ) (bios : List Bio)
    → is_valid_pbs pbs ≡ true
    → pbs < u16_mod
    → u16_mod ≤ ring
    → logpack_lsid + 65538 ≤ u64_mod
    → All IsNormal bios
    → is_valid_logpack_header_and_records
        (add_all (create_logpack_header pbs logpack_lsid) bios pbs ring)
      ≡ true
add_all-valid pbs ring logpack_lsid bios v s r l a = IsOpen-valid (
    add_all-IsOpen pbs ring (create_logpack_header pbs logpack_lsid) bios v s r a
      (create_logpack_header-IsOpen pbs ring logpack_lsid l))
