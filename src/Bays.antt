-- ===== src/Bays.antt =====
-- The bays: backend/ktnmgr/models.py, the composition rules of backend/ktnmgr/services/state.py and
-- the identity reader of backend/ktnmgr/enclosure/disks.py.
pub mod Model
pub mod Health
pub mod Compose
pub mod DiskReader
mod Masking
mod Tests
