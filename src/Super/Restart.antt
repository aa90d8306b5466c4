-- ===== src/Super/Restart.antt =====
-- What walb_sync_super_block (module/super.c) writes is what the driver reads when it starts again.
use walb_driver.Common.{
  ℕ, ◌<◌, ◌≡◌, refl, Bool, true, false, some, List, arith, u32_mod, u64_mod, ◌&&◌,
}
use walb_driver.Checksum.Total.{encode}
use walb_driver.Lsid.{LsidSet, init_lsids, sync_begin, sync_end}
use walb_driver.Super.{
  SuperImage, walb_log_version, has_zero, sealed, walb_write_super_sector, walb_read_super_sector,
  Synced, modified, walb_sync_super_block,
}
use walb_driver.Super.Image.{IsImage, read-write}

-- What a start of the driver finds in the super sector.
pub record Restarts (pbs device_size salt : ℕ) (l : LsidSet) (ldev : List ℕ) : Type 0 where
  pub image : SuperImage
  pub read : walb_read_super_sector true pbs ldev ≡ some image
  pub lsids : init_lsids image.oldest_lsid image.written_lsid ≡ init_lsids l.oldest l.written
  pub size : image.device_size ≡ device_size
  pub checksum_salt : image.log_checksum_salt ≡ salt

module _ (pbs device_size salt : ℕ) (s : Synced) (i : IsImage pbs s.lsuper0)
    (version : s.lsuper0.version ≡ walb_log_version)
    (name : has_zero (encode s.lsuper0.name) ≡ true) (size_fits : device_size < u64_mod)
    (salt_fits : salt < u32_mod) (oldest_fits : s.log.lsids.oldest < u64_mod)
    (written_fits : s.log.lsids.written < u64_mod) (writable : s.log.read_only ≡ false) where
  abbrev new_image : SuperImage
  new_image = modified s.lsuper0 s.log.lsids.written s.log.lsids.oldest device_size salt

  new-IsImage : IsImage pbs new_image
  new-IsImage = record {
    sector_type = i.sector_type;
    version = i.version;
    checksum = i.checksum;
    logical_bs = i.logical_bs;
    physical_bs = i.physical_bs;
    metadata_size = i.metadata_size;
    log_checksum_salt = salt_fits;
    uuid = i.uuid;
    uuid_size = i.uuid_size;
    name = i.name;
    name_size = i.name_size;
    ring_buffer_size = i.ring_buffer_size;
    oldest_lsid = oldest_fits;
    written_lsid = written_fits;
    device_size = size_fits;
    behind = i.behind;
    size = i.size;
  }

  -- On a device that is not read only, with a valid image of the super sector in memory whose fields fit: when
  -- the flush and the write succeed, walb_sync_super_block succeeds and sets prev_written_lsid to written_lsid,
  -- and a later start reads a valid super sector and starts from the oldest_lsid and written_lsid of the
  -- sync, with its device size and salt.
  pub walb_sync_super_block-Restarts :
      ((walb_sync_super_block pbs device_size salt true true s).0 ≡ true)
      × ((walb_sync_super_block pbs device_size salt true true s).1.log.lsids.prev_written
          ≡ s.log.lsids.written)
      × Restarts pbs device_size salt s.log.lsids
          (walb_sync_super_block pbs device_size salt true true s).1.ldev
  unfolding walb_sync_super_block sync_begin sync_end walb_write_super_sector
  walb_sync_super_block-Restarts = rw writable (
    refl,
    refl,
    record {
      image = sealed new_image pbs;
      read = read-write pbs new-IsImage version name s.ldev;
      lsids = refl;
      size = refl;
      checksum_salt = refl;
    },
  )

  -- When the flush of the data device or the write of the super sector fails, walb_sync_super_block fails, makes
  -- the device read only, and leaves prev_written_lsid alone.
  walb_sync_super_block-fails :
      (flush_ok write_ok : Bool)
      → (flush_ok && write_ok) ≡ false
      → ((walb_sync_super_block pbs device_size salt flush_ok write_ok s).0 ≡ false)
        × ((walb_sync_super_block pbs device_size salt flush_ok write_ok s).1.log.read_only ≡ true)
        × ((walb_sync_super_block pbs device_size salt flush_ok write_ok s).1.log.lsids
            ≡ s.log.lsids)
  unfolding walb_sync_super_block sync_begin sync_end walb_write_super_sector
  walb_sync_super_block-fails false write_ok e = rw writable (refl, refl, refl)
  walb_sync_super_block-fails true false e = rw writable (refl, refl, refl)
  walb_sync_super_block-fails true true e = absurd (ground (arith, e))
