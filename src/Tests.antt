-- ===== src/Tests.antt =====
-- The theorems of the library at concrete inputs, a module for each part of the driver.
mod Sums
mod Packs
pub mod Trees
mod Maps
mod Flight
mod Reads
mod Device
mod Writes
mod Queue
mod Lsids
mod Pendings
mod Redone
mod Freezes
mod Supers
