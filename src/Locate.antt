-- ===== src/Locate.antt =====
-- backend/ktnmgr/enclosure/locate.py: what an IDENT operation may name, and the ways to write it.
pub mod Request
pub mod Validation
pub mod Aes
pub mod SlotMap
pub mod Plan
pub mod Claims
pub mod Chosen
pub mod Addressing
pub mod Planned
mod Tests
