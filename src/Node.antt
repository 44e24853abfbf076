-- ===== src/Node.antt =====
-- `NodeBase` of ember_csi/base.py: volumes are attached, formatted and mounted on a node.
pub mod Host
pub mod Mounts
pub mod Paths
pub mod Stage
pub mod Unstage
pub mod Publish
pub mod Stats
pub mod Info
