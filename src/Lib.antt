-- ===== src/Lib.antt =====
-- Verification library of the walb driver, a Linux block device that writes every change to a log
-- device as well.
--
-- The parts of the driver, and the files that model them:
-- + Common: numbers, Boolean tests, lists, and machine words. A C type keeps its wrap-around: sums are
--   taken modulo 2 ^ 16, 2 ^ 32 or 2 ^ 64. Common/Words: include/linux/walb/u32bits.h.
-- + Block: include/linux/walb/block_size.h, logical and physical blocks.
-- + Checksum: include/linux/walb/checksum.h, over lists of bytes.
-- + Bio: what the driver reads of a `struct bio` of the kernel.
-- + Logpack: include/linux/walb/log_record.h, log records and the header of a logpack. Logpack/Add is
--   walb_logpack_header_add_bio of module/logpack.c; it is cut into one function for each part of its
--   body. Logpack/Valid has the header that create_writepack of module/io.c makes, Logpack/Last has
--   update_biow_lsid. The record array of a header sector is a list of all of its slots.
-- + Treemap: module/treemap.h and module/treemap.c, maps and multimaps. The red-black tree of the
--   kernel is a parameter, RbTree, with the laws that the driver relies on: rotations keep the order
--   of the entries, an erase takes out one entry, and the walks go through the entries in order. A
--   node is told apart by its key. An allocation takes its outcome as an argument. Treemap/Cursor and
--   Treemap/MultiCursor are the cursors, Treemap/Scan the loops that the driver writes with them.
-- + Biow and Overlapped: module/bio_wrapper.h and module/overlapped_io.c. A write to the data device
--   waits while writes that came before it overlap it. Pointers to bio wrappers are numbers; the
--   fields that stay as they are while a bio wrapper waits are given by a function, and the others
--   are part of the state. The bio wrappers in the order in which they came are known only to the
--   invariant, Overlapped/Serial.
-- + Pending: module/pending_io.c, the writes whose data is not on the data device yet. The list from
--   which a read copies is modelled, the copying of pages is not. pending_delete_fully_overwritten runs a
--   cursor that deletes as it goes; Treemap/Position and Treemap/Deletion say where the cursor stands. The
--   flag BIO_WRAPPER_OVERWRITTEN of all bio wrappers is a function.
-- + Backlog: of module/io.c, pending_sectors and the queue that is stopped while they are too many, with
--   the pending data and the flags: the attempt of wait_for_logpack_and_submit_datapack to insert a
--   write, and delete_bio_wrapper_from_pending_data. Jiffies are arguments.
-- + Iocore: of module/io.c, the queue of the writes that wait for the log, frozen and melted by two users,
--   and the task that takes writes from it. Iocore/Order has a list of events, Iocore/Awake the steps of
--   threads and task with the threads that are about to dispatch the task.
-- + Writepack: of module/io.c, writepack_add_bio_wrapper, which packs writes into logpacks, and the part
--   of create_logpack_list that calls it. The size of a bio wrapper is that of its bio. Packs are values:
--   a pack on the list and the one that *wpackp points to are two copies where they are one object in
--   the driver.
-- + Lsid: struct lsid_set of module/kern.h, and each critical section under lsid_lock that moves an lsid
--   while the device runs, in module/io.c, module/super.c, module/checkpoint.c and module/wdev_ioctl.c.
--   Lsid/Pipeline has their steps in every order, over the logpacks between creation and collection; a
--   logpack is there only the lsids that it brings. Lsid/Tail is a run of the same steps.
-- + Freeze: of module/wdev_util.c and module/wdev_ioctl.c, the freeze state of a device, with the queue of
--   Iocore and the checkpoint data. Each section under freeze_lock is one function; Freeze/Steps has those of
--   any number of threads and of the melt work in every order, Freeze/Reset is a run of them.
-- + Super: include/linux/walb/super.h, module/super.c, and the super sector in module/sector_io.c. The
--   device is the bytes of super sector 0, with the outcome of each read, write and flush as an argument.
--   Super/Restart reads what a sync has written, and starts the lsids from it.
-- + Redo: module/redo.c, which writes the logpacks behind written_lsid to the data device again after a
--   crash. Redo has redo_logpack, Redo/Log the loop of execute_redo. The log is a function from lsids to
--   blocks, a block comes with whether its read failed, and the queue and worker that read ahead are the
--   blocks from an lsid on. A header sector is little-endian words; its reserved fields are zero. The bios
--   that redo submits are a list of positions, lengths and data.
-- + LogDevice: include/linux/walb/log_device.h, the layout of the log device. PAGE_SIZE is an argument.
-- + Checkpoint: module/checkpoint.c, the checkpoint task and the control that starts and stops it, each
--   function cut where it gives up the lock. Checkpoint/Safe has the steps in every order, with one
--   control; that cancel_delayed_work_sync waits for the end of the task is part of the steps.
-- + Tests: the theorems at concrete inputs, and a tree library that has the laws.
--
-- Logpack uses Block and Checksum, and Writepack uses Logpack. Pending and Overlapped use Treemap and
-- Biow, and Backlog uses Pending. Redo uses Logpack, Checksum and Lsid, Super
-- uses Checksum and Lsid, and Freeze uses Iocore and Checkpoint.
--
-- Loops over a tree, and the loop of redo over the logpacks, run on fuel and return none when it is short.
-- One round for each entry or each logpack is enough: the theorems on these loops say what they return
-- with that much fuel. ASSERT of include/linux/walb/common.h warns in a
-- debug build and is nothing in others, so the definitions go on behind an assertion; where a theorem
-- needs one, it is a hypothesis.
--
-- Not modelled: locks and work queues of the kernel, printing, the memory manager of the maps, the
-- submission of bios and their errors, the workers of redo, the ioctls but freeze, melt and the oldest
-- lsid, sysfs, the set-up of devices, and the user space tools. They call the kernel or copy data.
pub mod Common
pub mod Block
pub mod Checksum
pub mod Bio
pub mod Logpack
pub mod Treemap
pub mod Biow
pub mod Overlapped
pub mod Pending
pub mod Writepack
pub mod LogDevice
pub mod Checkpoint
pub mod Backlog
pub mod Lsid
pub mod Iocore
pub mod Redo
pub mod Freeze
pub mod Super
pub mod Tests
