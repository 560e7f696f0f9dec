-- ===== src/Control.antt =====
-- The control plane (cmd/orlop-control/internal): the tables of its database and the service that places disks on
-- servers and leases them to mounts.
pub mod Store
pub mod Allocations
pub mod Leases
pub mod Placement
