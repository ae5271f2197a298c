-- ===== src/Writer.antt =====
-- The writers of IDENT: backend/ktnmgr/enclosure/ses.py, backend/ktnmgr/enclosure/locate.py,
-- backend/ktnmgr/enclosure/helper_client.py and helper/ktn_ident_helper.py.
pub mod Paths
pub mod Runner
pub mod Local
pub mod Helper
pub mod Client
mod Commands
pub mod Written
pub mod Boundary
mod Tests
