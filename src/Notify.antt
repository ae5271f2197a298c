-- ===== src/Notify.antt =====
-- backend/ktnmgr/services/notify.py: health alerts on transitions, committed on delivery.
pub mod Notifier
pub mod Delivery
mod Served
mod Alerts
mod Tests
