-- ===== src/Examples.antt =====
-- Tests: the theorems at concrete objects of a cluster in memory.
pub mod Data
mod Table
mod Names
mod Watching
mod Serving
mod Certificates
mod Backing
mod Operating
mod Deleting
mod Sharing
mod Scripts
mod Syncing
