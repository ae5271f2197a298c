-- ===== src/Tls.antt =====
-- backend/ktnmgr/services/tls_watch.py: the watcher of the mounted certificate.
pub mod Watcher
mod Restart
mod Renewal
mod History
mod Tests
