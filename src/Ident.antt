-- ===== src/Ident.antt =====
-- backend/ktnmgr/services/ident.py: the IDENT timer engine.
pub mod State
pub mod Host
pub mod Publication
pub mod Effects
pub mod Retry
pub mod Safety
pub mod Startup
pub mod Verdicts
pub mod Races
mod Tests
pub mod Trail
mod Hardware
pub mod Driven
pub mod Worlds
pub mod Identify
pub mod Timers
