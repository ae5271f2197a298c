-- ===== src/Sysfs.antt =====
-- backend/ktnmgr/enclosure/sysfs.py: the enclosures and slots of the kernel's tree.
pub mod Tree
pub mod Scan
pub mod Settle
mod Sorting
mod Found
pub mod Tests
