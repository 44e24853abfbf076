-- ===== src/Identity.antt =====
-- `IdentityBase` of ember_csi/base.py: what both the controller and the node servicers inherit.
pub mod Capabilities
pub mod Lookup
pub mod Sudo
pub mod Probe
