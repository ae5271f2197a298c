-- ===== src/Access.antt =====
-- backend/ktnmgr/enclosure/access.py: the enclosure lock.
mod Lock
mod Exclusion
mod Tests
