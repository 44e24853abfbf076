-- ===== src/Config.antt =====
-- `Config` of ember_csi/config.py: what the plugin reads from its environment.
pub mod Topologies
pub mod Backend
pub mod Environment
pub mod Names
pub mod Version
pub mod Defaults
pub mod Reading
pub mod Validation
