-- ===== src/Audit.antt =====
-- backend/ktnmgr/services/audit.py: the append-only log of write actions.
pub mod Entry
pub mod Log
mod Lines
mod Tail
mod Recorded
mod Tests
