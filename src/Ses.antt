-- ===== src/Ses.antt =====
-- backend/ktnmgr/enclosure/ses_parser.py: the pages that sg_ses prints.
pub mod Lines
pub mod AesPage
mod Sections
mod Pages
mod Print
pub mod Configuration
mod Descriptors
pub mod Readings
pub mod Join
mod Elements
mod Speed
mod Tests
