-- ===== src/LogDevice.antt =====
-- include/linux/walb/log_device.h: where the log device keeps the super sectors and the log of an lsid.
-- Addresses are in physical blocks. PAGE_SIZE is an argument.
pub mod Ring
use walb_driver.Common.{ℕ, ◌+◌, ◌/◌, ◌%◌, add_u64}

-- The fields of the super sector (include/linux/walb/super.h) that these functions read.
pub record SuperSector : Type 0 where
  pub physical_bs : ℕ
  pub metadata_size : ℕ
  pub ring_buffer_size : ℕ

unfoldable pub get_offset_of_lsid : ℕ → ℕ → ℕ → ℕ
get_offset_of_lsid lsid ring_buffer_offset ring_buffer_size =
    add_u64 ring_buffer_offset (lsid % ring_buffer_size)

unfoldable pub get_super_sector0_offset : ℕ → ℕ → ℕ
get_super_sector0_offset page_size sector_size = page_size / sector_size

unfoldable pub get_super_sector1_offset : ℕ → ℕ → ℕ
unfolding get_super_sector0_offset
get_super_sector1_offset page_size sector_size =
    add_u64 (get_super_sector0_offset page_size sector_size) 1

unfoldable pub get_ring_buffer_offset : ℕ → ℕ → ℕ
unfolding get_super_sector1_offset
get_ring_buffer_offset page_size sector_size =
    add_u64 (get_super_sector1_offset page_size sector_size) 1

unfoldable pub get_super_sector0_offset_2 : ℕ → SuperSector → ℕ
get_super_sector0_offset_2 page_size s = get_super_sector0_offset page_size s.physical_bs

unfoldable pub get_super_sector1_offset_2 : ℕ → SuperSector → ℕ
get_super_sector1_offset_2 page_size s =
    add_u64 (add_u64 (get_super_sector0_offset page_size s.physical_bs) 1) s.metadata_size

unfoldable pub get_ring_buffer_offset_2 : ℕ → SuperSector → ℕ
get_ring_buffer_offset_2 page_size s = add_u64 (get_super_sector1_offset_2 page_size s) 1

unfoldable pub get_offset_of_lsid_2 : ℕ → SuperSector → ℕ → ℕ
get_offset_of_lsid_2 page_size s lsid =
    get_offset_of_lsid lsid (get_ring_buffer_offset_2 page_size s) s.ring_buffer_size
