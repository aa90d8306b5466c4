-- ===== src/Super.antt =====
-- include/linux/walb/super.h, module/super.c, and the reads and writes of super sectors in module/sector_io.c. A
-- sector is a list of bytes, which are the little-endian words of its fields; the sizes of the uuid and the
-- name are those of their lists.
pub mod Image
pub mod Restart
use walb_driver.Common.{
  ℕ, zero, suc, ◌+◌, ◌*◌, ◌/◌, ◌%◌, Bool, true, false, not, ◌&&◌, ◌||◌, Option, none, some, List,
  [], ◌∷◌, ◌++◌, take, drop, leb, ltb, ◌==◌, if◌then◌else◌, u16_mod, u32_mod,
}
use walb_driver.Block.{is_valid_pbs}
use walb_driver.Checksum.{checksum}
use walb_driver.Checksum.Total.{encode, words_of}
use walb_driver.Logpack.{invalid_lsid}
use walb_driver.Lsid.{LogState, sync_begin, sync_end}

-- SECTOR_TYPE_SUPER, WALB_LOG_VERSION
abbrev pub sector_type_super : ℕ
sector_type_super = 1

abbrev pub walb_log_version : ℕ
walb_log_version = 2

-- UUID_SIZE and DISK_NAME_LEN in words.
abbrev pub uuid_words : ℕ
uuid_words = 4

abbrev pub name_words : ℕ
name_words = 8

-- `struct walb_super_sector`; `behind`: the words behind it in its sector.
pub record SuperImage : Type 0 where
  pub sector_type : ℕ
  pub version : ℕ
  pub checksum : ℕ
  pub logical_bs : ℕ
  pub physical_bs : ℕ
  pub metadata_size : ℕ
  pub log_checksum_salt : ℕ
  pub uuid : List ℕ
  pub name : List ℕ
  pub ring_buffer_size : ℕ
  pub oldest_lsid : ℕ
  pub written_lsid : ℕ
  pub device_size : ℕ
  pub behind : List ℕ

abbrev pub u64_words : ℕ → List ℕ
u64_words x = (x % u32_mod) ∷ (x / u32_mod) ∷ []

-- The words behind the checksum.
abbrev pub super_rest : SuperImage → List ℕ
super_rest s =
    s.logical_bs
    ∷ s.physical_bs
    ∷ s.metadata_size
    ∷ s.log_checksum_salt
    ∷ (s.uuid
        ++ (s.name
            ++ (u64_words s.ring_buffer_size
                ++ (u64_words s.oldest_lsid
                    ++ (u64_words s.written_lsid ++ (u64_words s.device_size ++ s.behind))))))

abbrev pub super_bytes : SuperImage → List ℕ
super_bytes s = encode ((s.sector_type + u16_mod * s.version) ∷ s.checksum ∷ super_rest s)

-- A sector read as a super sector. none: it is too short.
abbrev pub super_sizes : SuperImage → List ℕ → Option SuperImage
super_sizes s (r0 ∷ r1 ∷ o0 ∷ o1 ∷ w0 ∷ w1 ∷ d0 ∷ d1 ∷ ws) = some (record s {
  ring_buffer_size = r0 + u32_mod * r1;
  oldest_lsid = o0 + u32_mod * o1;
  written_lsid = w0 + u32_mod * w1;
  device_size = d0 + u32_mod * d1;
  behind = ws;
})
super_sizes s ws = none

abbrev pub super_of_words : List ℕ → Option SuperImage
super_of_words (w ∷ c ∷ lbs ∷ pbs ∷ m ∷ salt ∷ ws) =
    super_sizes
      (record {
        sector_type = w % u16_mod;
        version = w / u16_mod;
        checksum = c;
        logical_bs = lbs;
        physical_bs = pbs;
        metadata_size = m;
        log_checksum_salt = salt;
        uuid = take uuid_words ws;
        name = take name_words (drop uuid_words ws);
        ring_buffer_size = 0;
        oldest_lsid = 0;
        written_lsid = 0;
        device_size = 0;
        behind = [];
      })
      (drop name_words (drop uuid_words ws))
super_of_words ws = none

unfoldable pub super_of : List ℕ → Option SuperImage
super_of bytes = super_of_words (words_of bytes)

-- strnlen(sect->name, DISK_NAME_LEN) < DISK_NAME_LEN
abbrev pub has_zero : List ℕ → Bool
has_zero [] = false
has_zero (b ∷ bs) = b == 0 || has_zero bs

unfoldable pub is_valid_super_sector_raw : SuperImage → ℕ → Bool
is_valid_super_sector_raw sect pbs =
    is_valid_pbs pbs
    && (sect.sector_type == sector_type_super
        && (sect.version == walb_log_version
            && (sect.physical_bs == pbs
                && (leb sect.logical_bs sect.physical_bs
                    && (sect.physical_bs % sect.logical_bs == 0
                        && (not (sect.oldest_lsid == invalid_lsid)
                            && (not (sect.written_lsid == invalid_lsid)
                                && (leb sect.oldest_lsid sect.written_lsid
                                    && has_zero (encode sect.name)))))))))

-- walb_write_super_sector: the bytes of the super sector on the device. `write_ok`: the write succeeds.
abbrev pub sealed : SuperImage → ℕ → SuperImage
sealed sect pbs =
    let zero_sum = record sect { sector_type = sector_type_super; checksum = 0 } in
    record zero_sum { checksum = checksum (super_bytes zero_sum) pbs 0 }

unfoldable pub walb_write_super_sector : Bool → SuperImage → ℕ → List ℕ → Bool × List ℕ
walb_write_super_sector write_ok sect pbs ldev =
    if write_ok then (true, super_bytes (sealed sect pbs)) else (false, ldev)

-- walb_read_super_sector of the bytes on the device; `read_ok`: the read succeeds.
abbrev pub checked : ℕ → List ℕ → Option SuperImage → Option SuperImage
checked pbs bytes none = none
checked pbs bytes (some sect) =
    if checksum bytes pbs 0 == 0
      && (sect.sector_type == sector_type_super
          && (sect.version == walb_log_version && has_zero (encode sect.name)))
    then some sect
    else none

unfoldable pub walb_read_super_sector : Bool → ℕ → List ℕ → Option SuperImage
unfolding super_of
walb_read_super_sector read_ok pbs ldev = if read_ok then checked pbs ldev (super_of ldev) else none

-- The lsids, the image of the super sector in memory, and the bytes of the super sector on the log device.
pub record Synced : Type 0 where
  pub log : LogState
  pub lsuper0 : SuperImage
  pub ldev : List ℕ

-- Where walb_sync_super_block modifies the image.
abbrev pub modified : SuperImage → (written_lsid oldest_lsid device_size salt : ℕ) → SuperImage
modified sect written_lsid oldest_lsid device_size salt = record sect {
  oldest_lsid = oldest_lsid;
  written_lsid = written_lsid;
  device_size = device_size;
  log_checksum_salt = salt;
}

-- The rest of it, behind the flush of the data device.
abbrev pub written_down : Bool → Bool × List ℕ → ℕ → SuperImage → Synced → Bool × Synced
written_down flush_ok written written_lsid image s =
    let (ok, log) = sync_end (flush_ok && written.0) written_lsid s.log in
    (ok, record { log = log; lsuper0 = image; ldev = if flush_ok then written.1 else s.ldev })

abbrev pub synced :
    (pbs device_size salt : ℕ) (flush_ok write_ok : Bool) → Synced → Option (ℕ × ℕ) → Bool × Synced
synced pbs device_size salt flush_ok write_ok s none = (false, s)
synced pbs device_size salt flush_ok write_ok s (some (written_lsid, oldest_lsid)) =
    let image = modified s.lsuper0 written_lsid oldest_lsid device_size salt in
    written_down flush_ok (walb_write_super_sector write_ok image pbs s.ldev) written_lsid image s

-- walb_sync_super_block, while the temporary sector can be allocated.
unfoldable pub walb_sync_super_block :
    (pbs device_size salt : ℕ) (flush_ok write_ok : Bool) → Synced → Bool × Synced
unfolding sync_begin sync_end walb_write_super_sector
walb_sync_super_block pbs device_size salt flush_ok write_ok s =
    synced pbs device_size salt flush_ok write_ok s (sync_begin s.log)

-- written_lsid becomes latest_lsid, without a look at the state of the device.
unfoldable pub walb_finalize_super_block :
    (pbs device_size salt : ℕ) (flush_ok write_ok is_superblock_sync : Bool)
    → Synced
    → Bool × Synced
unfolding walb_sync_super_block
walb_finalize_super_block pbs device_size salt flush_ok write_ok is_superblock_sync s =
    let s' : Synced = record s {
      log = record (s.log) { lsids = record (s.log.lsids) { written = s.log.lsids.latest } };
    } in
    if is_superblock_sync
    then walb_sync_super_block pbs device_size salt flush_ok write_ok s'
    else (true, s')
