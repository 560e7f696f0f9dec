-- ===== src/Control/Placement/Resize.antt =====
-- Resize: an allocation's size, with the capacity of its server and the cap on the data plane (allocations/resize.go).
pub mod Compensation
use orlop.Prelude.{
  ℕ, ◌-◌, Text, Bool, true, false, not, eqb, ltb, ◌==◌, is_some, if◌then◌else◌, Outcome, ok, err,
  guard, ◌>>=◌, ◌>>◌,
}
use orlop.Control.Store.{
  Allocation, Server, Store, Result, not_found, wrong_user, other, get_allocation, get_user,
  get_server_vm_by_tenant, get_server_pool_by_data_addr,
}
use orlop.Control.Store.Disks.{update_allocation_size}
use orlop.Control.Store.Pool.{reserve_capacity_for_growth, release_capacity, tenant_or}
use orlop.Control.Allocations.{get_for_user}
use orlop.Control.Placement.{attempt, move_capacity}

-- The first phase undone.
unfoldable pub compensate_pool_delta : Text → ℕ → ℕ → Store → Store
compensate_pool_delta server old new db =
    if ltb old new
    then attempt db (release_capacity server (new - old) db)
    else attempt db (reserve_capacity_for_growth server (old - new) db)

-- A row and the store after the statement, or the store before it.
abbrev pub recorded : Store → Result (Allocation × Store) → Store × Result Allocation
recorded db (ok r) = (r.1, ok r.0)
recorded db (err e) = (db, err e)

-- The phases on a placed tenant. `applied`: whether the data plane took the new cap; `meanwhile`: what other calls do
-- to the database during it.
unfoldable pub resize_placed :
    (Store → Store) → Text → Text → ℕ → ℕ → Server → Bool → Store → Store × Result Allocation
resize_placed meanwhile id user old new server applied db =
    elim (move_capacity server.id old new db) [
      | err e ↦ (db, err e)
      | ok db' ↦
          if not applied
          then (compensate_pool_delta server.id old new (meanwhile db'), err other)
          else (elim (update_allocation_size id user new (meanwhile db')) [
            | ok r ↦ (r.1, ok r.0)
            | err e ↦ (compensate_pool_delta server.id old new (meanwhile db'), err e)
          ])
    ]

unfoldable pub resize : (Store → Store) → Text → Text → ℕ → Bool → Store → Store × Result Allocation
resize meanwhile id user new applied db =
    elim (guard (ltb 0 new) other >> get_for_user id user db) [
      | err e ↦ (db, err e)
      | ok a ↦ if new == a.size_bytes then (db, ok a) else (elim (get_user user db) [
        | err e ↦ (db, err e)
        | ok u ↦ (elim (get_server_vm_by_tenant (tenant_or a.tenant_id u.tenant_id) db) [
          | err not_found ↦ recorded db (update_allocation_size id user new db)
          | err e ↦ (db, err e)
          | ok vm ↦ (elim (get_server_pool_by_data_addr vm.data_addr db) [
            | err e ↦ (db, err e)
            | ok server ↦ resize_placed meanwhile id user a.size_bytes new server applied db
          ])
        ])
      ])
    ]
