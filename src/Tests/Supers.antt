-- ===== src/Tests/Supers.antt =====
-- Super sectors (include/linux/walb/super.h) with a concrete image.
use walb_driver.Common.{ℕ, zero, suc, All, ◌≡◌, refl, true, false, [], ◌∷◌, replicate, arith}
use walb_driver.Checksum.Total.{IsWord}
use walb_driver.Super.{SuperImage, Synced, walb_sync_super_block}
use walb_driver.Super.Image.{IsImage}
use walb_driver.Super.Restart.{Restarts, walb_sync_super_block-Restarts}

abbrev image : SuperImage
image = record {
  sector_type = 1;
  version = 2;
  checksum = 0;
  logical_bs = 512;
  physical_bs = 512;
  metadata_size = 0;
  log_checksum_salt = 11;
  uuid = replicate 4 7;
  name = 1684828007 ∷ replicate 7 0;
  ring_buffer_size = 70000;
  oldest_lsid = 0;
  written_lsid = 0;
  device_size = 1000;
  behind = replicate 102 0;
}

abbrev device : Synced
device = record {
  log = record {
    lsids = record {
      latest = 130;
      completed = 125;
      flush = 120;
      permanent = 120;
      written = 110;
      prev_written = 100;
      oldest = 90;
    };
    log_flush_jiffies = 0;
    read_only = false;
  };
  lsuper0 = image;
  ldev = [];
}

words : (w : ℕ) → IsWord w → (n : ℕ) → All IsWord (replicate n w)
words w h zero = tt
words w h (suc n) = (h, words w h n)

image-IsImage : IsImage 512 image
image-IsImage = record {
  sector_type = omega arith;
  version = omega arith;
  checksum = omega arith;
  logical_bs = omega arith;
  physical_bs = omega arith;
  metadata_size = omega arith;
  log_checksum_salt = omega arith;
  uuid = words 7 (omega arith) 4;
  uuid_size = refl;
  name = (omega arith, words 0 (omega arith) 7);
  name_size = refl;
  ring_buffer_size = omega arith;
  oldest_lsid = omega arith;
  written_lsid = omega arith;
  device_size = omega arith;
  behind = words 0 (omega arith) 102;
  size = refl;
}

walb_sync_super_block-Restarts_example :
    ((walb_sync_super_block 512 2000 12 true true device).0 ≡ true)
    × ((walb_sync_super_block 512 2000 12 true true device).1.log.lsids.prev_written ≡ 110)
    × Restarts 512 2000 12 device.log.lsids
        (walb_sync_super_block 512 2000 12 true true device).1.ldev
walb_sync_super_block-Restarts_example =
    walb_sync_super_block-Restarts 512 2000 12 device image-IsImage refl refl (omega arith)
      (omega arith) (omega arith) (omega arith) refl
