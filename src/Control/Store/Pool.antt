-- ===== src/Control/Store/Pool.antt =====
-- The statements on server_pool, server_vms and owner_capacity_reservations.
use orlop.Prelude.{
  precedes, ℕ, ◌+◌, ◌-◌, Text, Bool, true, false, Option, none, some, List, [], ◌∷◌, ◌&&◌, ◌||◌,
  not, eqb, ltb, leb, is_some, ◌==◌, if◌then◌else◌, ok, err, find, update_key, delete_key, guard,
  ◌>>◌, text,
}
use orlop.Prelude.Map.{is_empty}
use orlop.Control.Store.{
  Allocation, User, ServerVm, Server, ServerStatus, available, unavailable, Reservation, Store,
  Result, not_found, already_exists, other, vm_tenant, server_key, user_key,
}

unfoldable pub create_server_vm : Text → Text → Store → Result Store
create_server_vm tenant addr db =
    guard (not (is_some (find vm_tenant tenant db.server_vms))) already_exists
    >> ok (record db {
      server_vms =
          record { tenant_id = tenant; data_addr = addr; status = text "active" } ∷ db.server_vms;
    })

unfoldable pub delete_server_vm : Text → Store → Store
delete_server_vm tenant db = record db { server_vms = delete_key vm_tenant tenant db.server_vms }

abbrev pub is_available : ServerStatus → Bool
is_available available = true
is_available _ = false

abbrev pub may_grow : ServerStatus → Bool
may_grow unavailable = false
may_grow _ = true

-- ORDER BY free_bytes DESC, data_addr
abbrev better : Server → Server → Bool
better a b =
    ltb b.free_bytes a.free_bytes
    || (a.free_bytes == b.free_bytes && precedes a.data_addr b.data_addr)

-- `PickBestAvailableServer`
unfoldable pub pick_best_available_server : ℕ → List Server → Option Server
pick_best_available_server size [] = none
pick_best_available_server size (s ∷ ss) =
    let rest = pick_best_available_server size ss in
    if is_available s.status && leb size s.free_bytes
    then (elim rest [ none ↦ some s | some t ↦ some (if better t s then t else s) ])
    else rest

-- UPDATE server_pool SET free_bytes = (f) WHERE id = ? AND (test)
unfoldable pub update_server : Text → (Server → Bool) → (Server → Server) → Store → Result Store
update_server id test f db = elim (find server_key id db.server_pool) [
  | none ↦ err not_found
  | some s ↦
      guard (test s) not_found
      >> ok (record db { server_pool = update_key server_key id f db.server_pool })
]

abbrev pub debited : ℕ → Server → Server
debited n s = record s { free_bytes = s.free_bytes - n }

-- MIN(free_bytes + ?, total_bytes)
abbrev pub credited : ℕ → Server → Server
credited n s = record s {
  free_bytes = if ltb s.total_bytes (s.free_bytes + n) then s.total_bytes else s.free_bytes + n;
}

unfoldable pub reserve_capacity : Text → ℕ → Store → Result Store
reserve_capacity id n =
    update_server id (λ s. is_available s.status && leb n s.free_bytes) (debited n)

unfoldable pub reserve_capacity_for_growth : Text → ℕ → Store → Result Store
reserve_capacity_for_growth id n =
    update_server id (λ s. may_grow s.status && leb n s.free_bytes) (debited n)

unfoldable pub release_capacity : Text → ℕ → Store → Result Store
release_capacity id n = update_server id (λ s. true) (credited n)

-- WHERE user_id = ? AND server_id = ?
abbrev pub is_pair : Text → Text → Reservation → Bool
is_pair user server r = eqb r.user_id user && eqb r.server_id server

unfoldable pub find_reservation : Text → Text → List Reservation → Option Reservation
find_reservation user server [] = none
find_reservation user server (r ∷ rs) =
    if is_pair user server r then some r else find_reservation user server rs

unfoldable pub create_reservation : ℕ → Text → Text → ℕ → Store → Result Store
create_reservation now user server size db =
    guard (not (is_some (find_reservation user server db.reservations))) already_exists
    >> guard
        (is_some (find user_key user db.users)
          && is_some (find server_key server db.server_pool)
          && ltb 0 size)
        other
    >> ok (record db {
      reservations =
          record { user_id = user; server_id = server; size_bytes = size; created_at = now }
          ∷ db.reservations;
    })

unfoldable pub resize_reservation : Text → Text → ℕ → List Reservation → List Reservation
resize_reservation user server size [] = []
resize_reservation user server size (r ∷ rs) =
    (if is_pair user server r then record r { size_bytes = size } else r)
    ∷ resize_reservation user server size rs

unfoldable pub delete_reservation : Text → Text → List Reservation → List Reservation
delete_reservation user server [] = []
delete_reservation user server (r ∷ rs) =
    let rest = delete_reservation user server rs in if is_pair user server r then rest else r ∷ rest

-- ORDER BY created_at, server_id
unfoldable pub insert_ordered : Reservation → List Reservation → List Reservation
insert_ordered r [] = r ∷ []
insert_ordered r (s ∷ ss) =
    let rest = insert_ordered r ss in
    if ltb s.created_at r.created_at
      || (s.created_at == r.created_at && precedes s.server_id r.server_id)
    then s ∷ rest
    else r ∷ s ∷ ss

-- `ListOwnerCapacityReservations`: the owner's rows, joined with their servers.
unfoldable pub list_reservations : Text → List Server → List Reservation → List Reservation
list_reservations user pool [] = []
list_reservations user pool (r ∷ rs) =
    let rest = list_reservations user pool rs in
    if eqb r.user_id user && is_some (find server_key r.server_id pool)
    then insert_ordered r rest
    else rest

-- COALESCE(da.tenant_id, u.tenant_id)
abbrev pub tenant_or : Text → Text → Text
tenant_or own fallback = if is_empty own then fallback else own

-- Whether an unpurged allocation of the user, or of a user with that id, lives in the tenant.
unfoldable pub lives_in : User → Text → List Allocation → Bool
lives_in u tenant [] = false
lives_in u tenant (a ∷ as') =
    (eqb a.user_id u.id
      && not (is_some a.purged_at)
      && eqb (tenant_or a.tenant_id u.tenant_id) tenant)
    || lives_in u tenant as'

-- `CountPlacedAllocationsForUserOnServer`: tenants are the key of server_vms, so its rows are distinct.
unfoldable pub count_placed : User → Text → List Allocation → List ServerVm → ℕ
count_placed u addr as' [] = 0
count_placed u addr as' (v ∷ vs) =
    (if eqb v.data_addr addr && lives_in u v.tenant_id as' then 1 else 0)
    + count_placed u addr as' vs
