-- ===== src/Tests.antt =====
-- Concrete runs of the definitions, and each theorem with hypotheses at one of them.
mod Runs
mod Control
mod Wire
mod Feed
mod DataPlane
mod Session
mod Revert
mod Chunking
mod Journal
mod Files
mod Leases
