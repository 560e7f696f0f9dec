-- ===== src/Manifest.antt =====
-- The manifest store of cmd/orlop-server/manifests.go over the tables of a tenant's database
-- (cmd/orlop-server/tenantdb.go), the change feed's bookkeeping of changes.go and the session
-- journal of journal.go.
pub mod Db
pub mod Journal
pub mod Chunks
pub mod Peel
pub mod Store
pub mod Links
pub mod Nodes
pub mod Attrs
pub mod Rename
pub mod Ownership
pub mod Mutations
pub mod Feed
pub mod Collection
pub mod Revert
