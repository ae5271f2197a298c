-- ===== src/Polling.antt =====
-- backend/ktnmgr/services/state.py: the caches, the polls that fill them and the loop.
pub mod Cached
pub mod Addresses
pub mod Service
pub mod Remote
pub mod Runner
pub mod HelperRunner
pub mod Chassis
pub mod Composition
pub mod Loop
pub mod Delegated
mod Claimed
mod Kept
pub mod Honest
mod Skipped
mod Passes
mod Tests
