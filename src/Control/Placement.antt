-- ===== src/Control/Placement.antt =====
-- Placement and the capacity of servers: allocations/reserve.go and
-- owner_capacity.go, and purge.go from releaseUnusedOwnerCapacity on. A call that
-- commits in several steps returns the store that it leaves together with its result. What the server's admin API answers
-- is an argument: whether the call succeeded.
pub mod Resize
pub mod Purge
pub mod Pairs
pub mod Snapshot
pub mod Ledger
pub mod Conservation
pub mod Transactions
use orlop.Prelude.{
  ℕ, ◌+◌, ◌-◌, Text, Bool, true, false, Option, none, some, List, [], ◌∷◌, ◌&&◌, not, eqb, ltb,
  ◌==◌, is_some, if◌then◌else◌, Outcome, ok, err, guard, ◌>>=◌, ◌>>◌, find,
}
use orlop.Prelude.Map.{is_empty}
use orlop.Control.Store.{
  Allocation, User, Server, Reservation, Store, Error, Result, not_found, wrong_user, revoked,
  no_capacity, not_revoked, not_agent_allocation, already_exists, other, get_allocation, get_user,
  get_server_vm_by_tenant, get_server_pool_by_data_addr, server_key,
  count_active_allocations_for_user,
}
use orlop.Control.Store.Disks.{update_allocation_size, mark_allocation_purged}
use orlop.Control.Store.Pool.{
  create_server_vm, delete_server_vm, pick_best_available_server, reserve_capacity,
  reserve_capacity_for_growth, release_capacity, create_reservation, resize_reservation,
  delete_reservation, find_reservation, list_reservations, count_placed, tenant_or,
}

-- The store after an attempt whose failure is only logged.
abbrev pub attempt : Store → Result Store → Store
attempt db (ok db') = db'
attempt db (err e) = db

-- A statement that met no row, read as another error.
abbrev pub missing_as : {A : Type 0} → Error → Result A → Result A
missing_as e (err not_found) = err e
missing_as e r = r

-- The server of the owner's first reservation, or the best one with its capacity reserved.
unfoldable pub place_owner : ℕ → Text → ℕ → Store → Result (Server × Store)
place_owner now owner size db = get_user owner db >>= (λ u.
    elim (list_reservations owner db.server_pool db.reservations) [
      | r ∷ rs ↦ (elim (find server_key r.server_id db.server_pool) [
        | some s ↦ ok (s, db)
        | none ↦ err other
      ])
      | [] ↦ (elim (pick_best_available_server size db.server_pool) [
        | none ↦ err no_capacity
        | some s ↦
            missing_as no_capacity (reserve_capacity s.id size db)
            >>= (λ db'. create_reservation now owner s.id size db' >>= (λ db''. ok (s, db'')))
      ])
    ])

-- The tail of Reserve, once the tenant is registered: the placement, or the one of a concurrent call that was first.
unfoldable pub record_placement : Text → Text → Store → Store × Result Text
record_placement tenant addr db = elim (create_server_vm tenant addr db) [
  | ok db' ↦ (db', ok addr)
  | err already_exists ↦ (db, get_server_vm_by_tenant tenant db >>= (λ winner. ok winner.data_addr))
  | err e ↦ (db, err e)
]

-- `registered`: the answer of RegisterTenant. `meanwhile`: what other calls do to the database during it.
unfoldable pub reserve : (Store → Store) → ℕ → Text → Text → ℕ → Bool → Store → Store × Result Text
reserve meanwhile now owner tenant size registered db = elim (get_server_vm_by_tenant tenant db) [
  | ok existing ↦ (db, ok existing.data_addr)
  | err not_found ↦ (elim (place_owner now owner size db) [
    | err e ↦ (db, err e)
    | ok r ↦
        if registered
        then record_placement tenant r.0.data_addr (meanwhile r.1)
        else (meanwhile r.1, err other)
  ])
  | err e ↦ (db, err e)
]

-- The capacity of a server moves with a size that grows or shrinks.
unfoldable pub move_capacity : Text → ℕ → ℕ → Store → Result Store
move_capacity server old new db =
    if ltb old new
    then missing_as no_capacity (reserve_capacity_for_growth server (new - old) db)
    else if ltb new old
    then release_capacity server (old - new) db
    else ok db

-- The body of the loop of `ResizeOwnerCapacity`.
unfoldable pub resize_one : Text → ℕ → Reservation → Store → Result Store
resize_one user new r db =
    if r.size_bytes == new
    then ok db
    else move_capacity r.server_id r.size_bytes new db >>= (λ db'.
      ok (record db' { reservations = resize_reservation user r.server_id new db'.reservations }))

unfoldable pub resize_all : Text → ℕ → List Reservation → Store → Result Store
resize_all user new [] db = ok db
resize_all user new (r ∷ rs) db = resize_one user new r db >>= resize_all user new rs

unfoldable pub resize_owner_capacity : Text → ℕ → Store → Result Store
resize_owner_capacity user new db =
    guard (ltb 0 new) other
    >> (get_user user db
        >>= (λ u. resize_all user new (list_reservations user db.server_pool db.reservations) db))

-- The body of the loop of `releaseUnusedOwnerCapacity`, with the bytes released so far. The reservation is read with the
-- address of its server.
unfoldable pub release_reservation : User → Reservation → Store → Result (ℕ × Store)
release_reservation u r db = elim (find server_key r.server_id db.server_pool) [
  | none ↦ ok (0, db)
  | some s ↦
      if not (count_placed u s.data_addr db.allocations db.server_vms == 0)
      then ok (0, db)
      else if not (is_some (find_reservation u.id r.server_id db.reservations))
      then ok (0, db)
      else release_capacity r.server_id r.size_bytes
          (record db { reservations = delete_reservation u.id r.server_id db.reservations })
        >>= (λ db'. ok (r.size_bytes, db'))
]

unfoldable pub release_reservations : User → List Reservation → Store → Result (ℕ × Store)
release_reservations u [] db = ok (0, db)
release_reservations u (r ∷ rs) db =
    release_reservation u r db
    >>= (λ a. release_reservations u rs a.1 >>= (λ b. ok (a.0 + b.0, b.1)))

unfoldable pub release_unused_owner_capacity : Text → Text → Store → Result (ℕ × Store)
release_unused_owner_capacity user erased db = get_user user db >>= (λ u.
    let db' : Store = if is_empty erased then db else delete_server_vm erased db in
    if count_active_allocations_for_user user db'.allocations == 0
    then release_reservations u (list_reservations user db'.server_pool db'.reservations) db'
    else ok (0, db'))
