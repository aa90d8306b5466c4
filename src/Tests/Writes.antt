-- ===== src/Tests/Writes.antt =====
-- Packing writes into logpacks (module/io.c) with concrete bios.
use walb_driver.Common.{ℕ, List, All, ◌≡◌, refl, true, false, none, some, [], ◌∷◌, ◌++◌, arith}
use walb_driver.Block.{is_valid_pbs, capacity_pb}
use walb_driver.Bio.{Bio, write}
use walb_driver.Logpack.{max_n_log_record_in_sector}
use walb_driver.Logpack.Add.{header_add_bio, add_bio_in_ring, add_bio_fit, add_record}
use walb_driver.Logpack.Valid.{create_logpack_header}
use walb_driver.Writepack.{
  Pack, Packing, is_zero_flush_only, add_to_current, writepack_add_bio_wrapper, new_pack_assertion,
  create_packs,
}
use walb_driver.Writepack.Chain.{Chained, IsPacking, writepack_add_bio_wrapper-IsPacking}
use walb_driver.Writepack.Contents.{bios_of}
use walb_driver.Writepack.Bulk.{create_packs-packs}
use walb_driver.Writepack.Listed.{IsListed}
use walb_driver.Writepack.Retry.{holding, writepack_add_bio_wrapper-retry}

abbrev plain_write : Bio
plain_write = record { op = write; bi_sector = 800; sectors = 24; preflush = false; fua = false }

abbrev flush_write : Bio
flush_write = record { op = write; bi_sector = 96; sectors = 8; preflush = true; fua = false }

abbrev no_packs : Packing
no_packs = record { wpack_list = []; wpack = none; latest_lsid = 69959; is_flush = false }

abbrev one_pack : Packing
one_pack = (writepack_add_bio_wrapper 512 70000 64 no_packs plain_write true).1

one_pack-IsPacking : IsPacking 512 70000 69959 one_pack
unfolding is_valid_pbs
one_pack-IsPacking =
    (writepack_add_bio_wrapper-IsPacking 512 70000 refl (omega arith) (omega arith) 64 plain_write
      (refl, omega arith) 69959 no_packs (record { chained = refl; current = tt }) (omega arith)).1

abbrev some_pack : Pack
some_pack = record {
  header = (header_add_bio (create_logpack_header 512 9) plain_write 512 70000).0;
  bios = (plain_write, some 10) ∷ [];
  zero_flush = false;
  fua_contained = false;
}

writepack_add_bio_wrapper-retry_example :
    ((writepack_add_bio_wrapper 512 70000 64 (holding [] some_pack 9 false) flush_write false).0
      ≡ false)
    × ((writepack_add_bio_wrapper 512 70000 64
          (writepack_add_bio_wrapper 512 70000 64
            (holding [] some_pack 9 false)
            flush_write
            false).1
          flush_write
          true).1.wpack_list
        ≡ ([] ++ some_pack ∷ []) ++ some_pack ∷ [])
unfolding is_zero_flush_only add_to_current header_add_bio add_bio_in_ring add_bio_fit add_record
    create_logpack_header max_n_log_record_in_sector capacity_pb
writepack_add_bio_wrapper-retry_example =
    writepack_add_bio_wrapper-retry 512 70000 64 some_pack flush_write (omega arith) refl [] 9 false

abbrev two_writes : List Bio
two_writes = plain_write ∷ flush_write ∷ []

create_packs-packs_example :
    Chained 512 70000 69959
      (create_packs 512 70000 64 69959 two_writes).wpack_list
      (create_packs 512 70000 64 69959 two_writes).latest_lsid
    × (bios_of (create_packs 512 70000 64 69959 two_writes).wpack_list ≡ two_writes)
    × All IsListed (create_packs 512 70000 64 69959 two_writes).wpack_list
    × All (λ bio. (lsid : ℕ) → new_pack_assertion 512 70000 64 lsid bio ≡ true) two_writes
unfolding is_valid_pbs capacity_pb
create_packs-packs_example =
    create_packs-packs 512 70000 64 refl (omega arith) (omega arith) 69959 two_writes
      ((refl, omega arith), ((refl, omega arith), tt)) (omega arith, (omega arith, tt))
      (omega arith)
