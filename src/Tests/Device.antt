-- ===== src/Tests/Device.antt =====
-- The log device (include/linux/walb/log_device.h) and the checkpoint task (module/checkpoint.c) at
-- concrete inputs.
use walb_driver.Common.{◌+◌, ◌≤◌, ◌<◌, ◌≡◌, ◌≢◌, refl, some, arith}
use walb_driver.LogDevice.{
  SuperSector, get_super_sector0_offset_2, get_super_sector1_offset_2, get_ring_buffer_offset_2,
  get_offset_of_lsid_2,
}
use walb_driver.LogDevice.Ring.{get_offset_of_lsid_2-in_ring, get_offset_of_lsid_2-differ}
use walb_driver.Checkpoint.{
  Checkpoint, init_checkpointing, start_checkpointing, task_begin, stopped, idle, queued,
}
use walb_driver.Checkpoint.Safe.{initial, after, start, Reachable-safe}

abbrev super : SuperSector
super = record { physical_bs = 512; metadata_size = 3; ring_buffer_size = 1000 }

get_offset_of_lsid_2-in_ring_example :
    (get_super_sector0_offset_2 4096 super + 1 + super.metadata_size
      ≡ get_super_sector1_offset_2 4096 super)
    × (get_super_sector0_offset_2 4096 super < get_super_sector1_offset_2 4096 super)
    × (get_super_sector1_offset_2 4096 super < get_offset_of_lsid_2 4096 super 2345)
    × (get_ring_buffer_offset_2 4096 super ≤ get_offset_of_lsid_2 4096 super 2345)
    × (get_offset_of_lsid_2 4096 super 2345
        < get_ring_buffer_offset_2 4096 super + super.ring_buffer_size)
get_offset_of_lsid_2-in_ring_example =
    get_offset_of_lsid_2-in_ring 4096 super (omega arith) (omega arith) 2345

get_offset_of_lsid_2-differ_example :
    get_offset_of_lsid_2 4096 super 2345 ≢ get_offset_of_lsid_2 4096 super 3344
get_offset_of_lsid_2-differ_example =
    get_offset_of_lsid_2-differ 4096 super (omega arith) (omega arith) 2345 3344 (omega arith)
      (omega arith)

abbrev started : Checkpoint
started = start_checkpointing (init_checkpointing 10000)

Reachable-safe_example :
    (started.state ≡ stopped → started.work ≡ idle)
    × (started.work ≡ queued → (d : Checkpoint) × (task_begin started ≡ some d))
unfolding init_checkpointing
Reachable-safe_example =
    Reachable-safe 10000 started
      (after (init_checkpointing 10000) started initial (start (init_checkpointing 10000) refl))
