-- ===== src/Tests/Packs.antt =====
-- Logpack headers (include/linux/walb/log_record.h and module/logpack.c) with concrete bios.
use walb_driver.Common.{
  ℕ, ◌+◌, ◌-◌, ◌%◌, ◌≡◌, refl, inr, true, false, [], ◌∷◌, arith, ltb, leb, if◌then◌else◌, u64_mod,
}
use walb_driver.Block.{capacity_pb, is_valid_pbs}
use walb_driver.Bio.{Bio, discard, write}
use walb_driver.Logpack.{
  LogpackHeader, max_total_io_size, is_valid_logpack_header_and_records, max_n_log_record_in_sector,
}
use walb_driver.Logpack.Add.{
  header_add_bio, add_bio_in_ring, add_bio_fit, add_record, add_bio_padded, add_padding,
}
use walb_driver.Logpack.Shape.{IsOpen}
use walb_driver.Logpack.Fill.{IsLegal}
use walb_driver.Logpack.Layout.{header_add_bio-IsOpen}
use walb_driver.Logpack.Valid.{
  create_logpack_header, create_logpack_header-IsOpen, add_all, add_all-valid,
}
use walb_driver.Logpack.Last.{IsLast, header_add_bio-IsLast}
use walb_driver.Logpack.Limits.{header_add_discard_full, create_logpack_header-add_bio}

-- A ring buffer of 70000 physical blocks, and a header 40 blocks before its end.
abbrev ring : ℕ
ring = 70000

abbrev new_header : LogpackHeader
new_header = create_logpack_header 512 69959

abbrev small_write : Bio
small_write = record { op = write; bi_sector = 800; sectors = 24; preflush = false; fua = false }

abbrev big_write : Bio
big_write = record { op = write; bi_sector = 4096; sectors = 100; preflush = false; fua = false }

abbrev some_discard : Bio
some_discard = record { op = discard; bi_sector = 1; sectors = 9000; preflush = false; fua = false }

write-IsLegal : (h : LogpackHeader) → IsLegal 512 ring h small_write
unfolding is_valid_pbs
write-IsLegal h = record {
  block = refl;
  block_small = omega arith;
  ring_large = omega arith;
  sectors_small = omega arith;
  normal_small = inr (omega arith);
  discards = λ d. ground (arith, d);
}

new-IsOpen : IsOpen 512 ring new_header
new-IsOpen = create_logpack_header-IsOpen 512 ring 69959 (omega arith)

abbrev one_write : LogpackHeader
one_write = (header_add_bio new_header small_write 512 ring).0

one_write-IsOpen : IsOpen 512 ring one_write
one_write-IsOpen = header_add_bio-IsOpen new-IsOpen small_write (write-IsLegal new_header)

header_add_bio-IsOpen_example : IsOpen 512 ring (header_add_bio one_write small_write 512 ring).0
header_add_bio-IsOpen_example =
    header_add_bio-IsOpen one_write-IsOpen small_write (write-IsLegal one_write)

-- The second write crosses the end of the ring buffer.
add_all-valid_example :
    is_valid_logpack_header_and_records
      (add_all new_header (small_write ∷ big_write ∷ small_write ∷ []) 512 ring)
    ≡ true
unfolding is_valid_pbs
add_all-valid_example =
    add_all-valid 512 ring 69959 (small_write ∷ big_write ∷ small_write ∷ []) refl (omega arith)
      (omega arith) (omega arith)
      ((refl, omega arith), ((refl, omega arith), ((refl, omega arith), tt)))

header_add_bio-IsLast_example : IsLast big_write (header_add_bio one_write big_write 512 ring).0
unfolding is_valid_pbs header_add_bio create_logpack_header max_n_log_record_in_sector
    add_bio_in_ring capacity_pb add_bio_fit add_record add_bio_padded add_padding
header_add_bio-IsLast_example =
    header_add_bio-IsLast one_write big_write 512 ring refl (omega arith) (omega arith)
      (omega arith) (omega arith) refl

create_logpack_header-add_bio_example :
    (header_add_bio (create_logpack_header 512 69959) big_write 512 ring).1 ≡ (
      if ltb (ring - (69959 + 1) % u64_mod % ring) (capacity_pb 512 100)
      then leb (ring - (69959 + 1) % u64_mod % ring + capacity_pb 512 100) max_total_io_size
      else leb (capacity_pb 512 100) max_total_io_size)
unfolding is_valid_pbs
create_logpack_header-add_bio_example =
    create_logpack_header-add_bio 512 ring 69959 big_write refl (omega arith) refl (omega arith)
      (omega arith)

-- A header that a write of the greatest size has filled.
abbrev full_write : Bio
full_write = record { op = write; bi_sector = 0; sectors = 65535; preflush = false; fua = false }

abbrev full_header : LogpackHeader
full_header = (header_add_bio (create_logpack_header 512 9) full_write 512 ring).0

full-IsOpen : IsOpen 512 ring full_header
unfolding is_valid_pbs create_logpack_header
full-IsOpen =
    header_add_bio-IsOpen (create_logpack_header-IsOpen 512 ring 9 (omega arith)) full_write
      (record {
        block = refl;
        block_small = omega arith;
        ring_large = omega arith;
        sectors_small = omega arith;
        normal_small = inr (omega arith);
        discards = λ d. ground (arith, d);
      })

header_add_discard_full_example :
    ((header_add_bio full_header some_discard 512 ring).1 ≡ true)
    × (is_valid_logpack_header_and_records (header_add_bio full_header some_discard 512 ring).0
        ≡ false)
unfolding is_valid_pbs header_add_bio create_logpack_header max_n_log_record_in_sector
    add_bio_in_ring capacity_pb add_bio_fit add_record add_bio_padded add_padding
header_add_discard_full_example =
    header_add_discard_full full-IsOpen refl some_discard (omega arith) (omega arith) refl
      (omega arith)
