-- ===== src/Correlate.antt =====
-- backend/ktnmgr/truenas/correlate.py: the records of the TrueNAS API as indexes by block device.
pub mod Json
pub mod Zfs
pub mod Disks
pub mod Smart
mod Topology
mod Walked
mod Latest
mod Indexed
mod Warnings
pub mod Sample
mod Tests
