-- ===== src/Topology.antt =====
-- `TopologyBase` of ember_csi/base.py: the hierarchy of the configured topologies, and the checks of
-- the topologies that a request names.
pub mod Hierarchy
pub mod Accessible
pub mod Requirements
pub mod Configured
