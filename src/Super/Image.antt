-- ===== src/Super/Image.antt =====
-- A super sector image (include/linux/walb/super.h) in its sector: what module/sector_io.c writes of it is read.
use walb_driver.Common.{
  ℕ, ◌+◌, ◌*◌, ◌/◌, ◌%◌, ◌<◌, ◌≡◌, refl, sym, ap, subst, ◌∙◌, true, some, List, [], ◌∷◌, ◌++◌, All,
  All-append, take, drop, take-length, drop-length, length, length-append, arith, u16_mod, u32_mod,
  u64_mod,
}
use walb_driver.Checksum.{checksum}
use walb_driver.Checksum.Total.{IsWord, encode, words_of-encode}
use walb_driver.Checksum.Detect.{checksum_sealed}
use walb_driver.Super.{
  SuperImage, sector_type_super, walb_log_version, uuid_words, name_words, u64_words, super_rest,
  super_bytes, super_of_words, super_of, has_zero, sealed, walb_write_super_sector,
  walb_read_super_sector,
}

-- The fields fit in their types, and the sector has the size of a physical block.
pub record IsImage (pbs : ℕ) (s : SuperImage) : Type 0 where
  pub sector_type : s.sector_type < u16_mod
  pub version : s.version < u16_mod
  pub checksum : s.checksum < u32_mod
  pub logical_bs : s.logical_bs < u32_mod
  pub physical_bs : s.physical_bs < u32_mod
  pub metadata_size : s.metadata_size < u32_mod
  pub log_checksum_salt : s.log_checksum_salt < u32_mod
  pub uuid : All IsWord s.uuid
  pub uuid_size : length s.uuid ≡ uuid_words
  pub name : All IsWord s.name
  pub name_size : length s.name ≡ name_words
  pub ring_buffer_size : s.ring_buffer_size < u64_mod
  pub oldest_lsid : s.oldest_lsid < u64_mod
  pub written_lsid : s.written_lsid < u64_mod
  pub device_size : s.device_size < u64_mod
  pub behind : All IsWord s.behind
  pub size : 4 * (26 + length s.behind) ≡ pbs

joined : (x : ℕ) → x % u32_mod + u32_mod * (x / u32_mod) ≡ x
joined x = omega arith

low : (a b : ℕ) → a < u16_mod → (a + u16_mod * b) % u16_mod ≡ a
low a b l = omega arith

high : (a b : ℕ) → a < u16_mod → (a + u16_mod * b) / u16_mod ≡ b
high a b l = omega arith

module _ (pbs : ℕ) {s : SuperImage} (i : IsImage pbs s) where
  abbrev first_word : ℕ
  first_word = s.sector_type + u16_mod * s.version

  abbrev sizes : List ℕ
  sizes =
      u64_words s.ring_buffer_size
      ++ (u64_words s.oldest_lsid
          ++ (u64_words s.written_lsid ++ (u64_words s.device_size ++ s.behind)))

  sizes-IsWord : All IsWord sizes
  sizes-IsWord = (
    omega arith,
    (
      omega (arith, i.ring_buffer_size),
      (
        omega arith,
        (
          omega (arith, i.oldest_lsid),
          (
            omega arith,
            (
              omega (arith, i.written_lsid),
              (omega arith, (omega (arith, i.device_size), i.behind)),
            ),
          ),
        ),
      ),
    ),
  )

  rest-IsWord : All IsWord (super_rest s)
  rest-IsWord = (
    i.logical_bs,
    (
      i.physical_bs,
      (
        i.metadata_size,
        (
          i.log_checksum_salt,
          All-append IsWord s.uuid (s.name ++ sizes) i.uuid
              (All-append IsWord s.name sizes i.name sizes-IsWord),
        ),
      ),
    ),
  )

  all-IsWord : All IsWord (first_word ∷ s.checksum ∷ super_rest s)
  all-IsWord = (omega (arith, i.sector_type, i.version), (i.checksum, rest-IsWord))

  after_uuid : drop uuid_words (s.uuid ++ (s.name ++ sizes)) ≡ s.name ++ sizes
  after_uuid =
      ap (λ n. drop n (s.uuid ++ (s.name ++ sizes))) (sym i.uuid_size)
      ∙ drop-length s.uuid (s.name ++ sizes)

  the_uuid : take uuid_words (s.uuid ++ (s.name ++ sizes)) ≡ s.uuid
  the_uuid =
      ap (λ n. take n (s.uuid ++ (s.name ++ sizes))) (sym i.uuid_size)
      ∙ take-length s.uuid (s.name ++ sizes)

  after_name : drop name_words (s.name ++ sizes) ≡ sizes
  after_name = ap (λ n. drop n (s.name ++ sizes)) (sym i.name_size) ∙ drop-length s.name sizes

  the_name : take name_words (s.name ++ sizes) ≡ s.name
  the_name = ap (λ n. take n (s.name ++ sizes)) (sym i.name_size) ∙ take-length s.name sizes

  super_of-bytes : super_of (super_bytes s) ≡ some s
  unfolding super_of
  super_of-bytes =
      ap super_of_words (words_of-encode (first_word ∷ s.checksum ∷ super_rest s) all-IsWord)
      ∙ rw
          (
            the_uuid,
            after_uuid,
            the_name,
            after_name,
            low s.sector_type s.version i.sector_type,
            high s.sector_type s.version i.sector_type,
            joined s.ring_buffer_size,
            joined s.oldest_lsid,
            joined s.written_lsid,
            joined s.device_size,
          )
          refl

  count_words : 4 * length (first_word ∷ s.checksum ∷ super_rest s) ≡ pbs
  count_words = omega (
    arith,
    length-append s.uuid (s.name ++ sizes),
    length-append s.name sizes,
    i.uuid_size,
    i.name_size,
    i.size,
  )

checksum-IsWord : (bytes : List ℕ) (size salt : ℕ) → checksum bytes size salt < u32_mod
unfolding checksum
checksum-IsWord bytes size salt = omega arith

module _ (pbs : ℕ) {s : SuperImage} (i : IsImage pbs s) where
  sealed-IsImage : IsImage pbs (sealed s pbs)
  sealed-IsImage = record {
    sector_type = omega arith;
    version = i.version;
    checksum =
        checksum-IsWord (super_bytes (record s { sector_type = sector_type_super; checksum = 0 }))
          pbs 0;
    logical_bs = i.logical_bs;
    physical_bs = i.physical_bs;
    metadata_size = i.metadata_size;
    log_checksum_salt = i.log_checksum_salt;
    uuid = i.uuid;
    uuid_size = i.uuid_size;
    name = i.name;
    name_size = i.name_size;
    ring_buffer_size = i.ring_buffer_size;
    oldest_lsid = i.oldest_lsid;
    written_lsid = i.written_lsid;
    device_size = i.device_size;
    behind = i.behind;
    size = i.size;
  }

  abbrev head : List ℕ
  head = (sector_type_super + u16_mod * s.version) ∷ []

  checksum-sealed : checksum (super_bytes (sealed s pbs)) pbs 0 ≡ 0
  checksum-sealed =
      subst
        (λ n.
          checksum
            (encode (head ++ checksum (encode (head ++ 0 ∷ super_rest s)) n 0 ∷ super_rest s)) n 0
          ≡ 0)
        (count_words pbs i)
        (checksum_sealed head (super_rest s) 0 (omega (arith, i.version), tt) (rest-IsWord pbs i)
          (omega arith))

  -- What is written is read.
  pub read-write :
      s.version ≡ walb_log_version
      → has_zero (encode s.name) ≡ true
      → (ldev : List ℕ)
      → walb_read_super_sector true pbs (walb_write_super_sector true s pbs ldev).1
        ≡ some (sealed s pbs)
  unfolding walb_read_super_sector walb_write_super_sector
  read-write v z ldev = rw (super_of-bytes pbs sealed-IsImage, checksum-sealed, v, z) refl
