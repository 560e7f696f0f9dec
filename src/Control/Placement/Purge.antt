-- ===== src/Control/Placement/Purge.antt =====
-- PurgeAllocation: the data of a revoked allocation, its placement and its capacity (allocations/purge.go). The fence of
-- the session is a call whose failure is only logged.
use orlop.Prelude.{ℕ, Text, Bool, [], ◌||◌, not, ◌==◌, is_some, if◌then◌else◌, ok, err}
use orlop.Prelude.Map.{is_empty}
use orlop.Control.Store.{
  Allocation, Store, Result, not_found, not_revoked, not_agent_allocation, other, get_allocation,
  get_user, get_server_vm_by_tenant, get_server_pool_by_data_addr,
  count_active_allocations_for_user,
}
use orlop.Control.Store.Disks.{mark_allocation_purged}
use orlop.Control.Store.Pool.{tenant_or}
use orlop.Control.Placement.{release_unused_owner_capacity}

-- Losing the transition to a concurrent purge is no error.
unfoldable pub mark_purged : ℕ → Text → Store → Store × Result (Unit {0})
mark_purged now id db = elim (mark_allocation_purged now id db) [
  | ok r ↦ (r.1, ok tt)
  | err not_found ↦ (db, ok tt)
  | err e ↦ (db, err e)
]

-- The owner's capacity is released before the row is marked.
unfoldable pub clean_up : ℕ → Text → Text → Text → Store → Store × Result (Unit {0})
clean_up now id user erased db = elim (release_unused_owner_capacity user erased db) [
  | err e ↦ (db, err e)
  | ok r ↦ mark_purged now id r.1
]

-- `erased`: the answer of UnregisterTenant or PurgeAgentData.
unfoldable pub erase : ℕ → Bool → Allocation → Text → Store → Store × Result (Unit {0})
erase now erased a tenant db =
    if not erased
    then (db, err other)
    else if not (is_empty a.tenant_id)
        || count_active_allocations_for_user a.user_id db.allocations == 0
    then clean_up now a.id a.user_id tenant db
    else mark_purged now a.id db

unfoldable pub purge_allocation : ℕ → Text → Bool → Store → Store × Result (Unit {0})
purge_allocation now id erased db = elim (get_allocation id db) [
  | err e ↦ (db, err e)
  | ok a ↦
      if not (is_some a.revoked_at)
      then (db, err not_revoked)
      else if is_some a.purged_at
      then (db, ok tt)
      else if is_empty a.agent_id
      then (db, err not_agent_allocation)
      else (elim (get_user a.user_id db) [
        | err e ↦ (db, err e)
        | ok u ↦ (elim (get_server_vm_by_tenant (tenant_or a.tenant_id u.tenant_id) db) [
          | err not_found ↦ clean_up now a.id a.user_id [] db
          | err e ↦ (db, err e)
          | ok vm ↦ (elim (get_server_pool_by_data_addr vm.data_addr db) [
            | err e ↦ (db, err e)
            | ok server ↦ erase now erased a (tenant_or a.tenant_id u.tenant_id) db
          ])
        ])
      ])
]
