-- ===== src/Examples.antt =====
-- Tests of the handlers, and the theorems at concrete inputs.
mod Create
mod Delete
mod Publish
mod Topology
mod Pages
mod Identity
mod Worker
mod Node
mod Snapshot
mod Validate
mod Config
mod Stats
mod Resources
mod Logging
mod Plugin
mod Volumes
mod Startup
mod Catalogue
mod Workarounds
mod Disk
mod Drivers
