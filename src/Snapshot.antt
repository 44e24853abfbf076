-- ===== src/Snapshot.antt =====
-- `SnapshotBase` of ember_csi/base.py.
pub mod Lookup
pub mod Handlers
