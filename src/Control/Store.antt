-- ===== src/Control/Store.antt =====
-- The tables of the control plane's database and the reads of allocations, users and placements
-- (storage/sqlite/allocations.go, sessions.go, admin.go, revocations.go, provisioning.go). Ids are texts; the
-- nil UUID and a null owner, tenant or agent are the empty text.
pub mod Disks
pub mod Pool
use orlop.Prelude.{
  ℕ, ◌+◌, ◌^◌, Text, Bool, true, false, Option, none, some, List, [], ◌∷◌, ◌&&◌, ◌||◌, not, eqb,
  ltb, is_some, text, if◌then◌else◌, Outcome, ok, err, find,
}
use orlop.Prelude.Map.{is_empty}

-- A row of disk_allocations.
pub record Allocation : Type 0 where
  pub id : Text
  pub user_id : Text
  pub tenant_id : Text
  pub agent_id : Text
  pub size_bytes : ℕ
  pub created_at : ℕ
  pub revoked_at : Option ℕ
  pub purged_at : Option ℕ
  pub bound_agent_id : Option Text
  pub bound_at : Option ℕ
  pub lease_expires_at : Option ℕ
  pub mount_lease_token_hash : Option Text

pub record User : Type 0 where
  pub id : Text
  pub email : Text
  pub tenant_id : Text
  pub role : Text
  pub quota_bytes : ℕ
  pub suspended : Bool

pub record ServerVm : Type 0 where
  pub tenant_id : Text
  pub data_addr : Text
  pub status : Text

pub data ServerStatus : Type 0 where
  available draining unavailable : ServerStatus

pub record Server : Type 0 where
  pub id : Text
  pub data_addr : Text
  pub ops_addr : Text
  pub total_bytes : ℕ
  pub free_bytes : ℕ
  pub status : ServerStatus

-- A row of owner_capacity_reservations.
pub record Reservation : Type 0 where
  pub user_id : Text
  pub server_id : Text
  pub size_bytes : ℕ
  pub created_at : ℕ

pub record Enrollment : Type 0 where
  pub id : Text
  pub user_id : Text
  pub cert_serial : Text
  pub cert_not_after : ℕ

pub record Revocation : Type 0 where
  pub serial : Text
  pub tenant_id : Text
  pub expires_at : ℕ
  pub reason : Text

pub record Store : Type 0 where
  pub allocations : List Allocation
  pub users : List User
  pub server_vms : List ServerVm
  pub server_pool : List Server
  pub reservations : List Reservation
  pub enrollments : List Enrollment
  pub revocations : List Revocation

-- The errors of the service; `not_found` is also the store's, for a statement that meets no row, and
-- `other` any error made for the occasion.
pub data Error : Type 0 where
  quota_exceeded already_bound wrong_user wrong_agent already_mounted lease_lost revoked not_found :
      Error
  no_capacity not_revoked not_agent_allocation already_exists : Error
  lease_live : Option ℕ → ℕ → Error
  other : Error

abbrev pub Result : Type 0 → Type 0
Result A = Outcome Error A

abbrev pub allocation_id : Allocation → Text
allocation_id a = a.id

abbrev pub user_key : User → Text
user_key u = u.id

abbrev pub vm_tenant : ServerVm → Text
vm_tenant v = v.tenant_id

abbrev pub server_key : Server → Text
server_key s = s.id

abbrev pub server_data_addr : Server → Text
server_data_addr s = s.data_addr

abbrev pub enrollment_id : Enrollment → Text
enrollment_id e = e.id

abbrev pub revocation_serial : Revocation → Text
revocation_serial r = r.serial

-- A single row, or the store's not_found.
abbrev pub row_of : {R : Type 0} → Option R → Result R
row_of none = err not_found
row_of (some r) = ok r

unfoldable pub get_allocation : Text → Store → Result Allocation
get_allocation id db = row_of (find allocation_id id db.allocations)

unfoldable pub get_user : Text → Store → Result User
get_user id db = row_of (find user_key id db.users)

unfoldable pub get_server_vm_by_tenant : Text → Store → Result ServerVm
get_server_vm_by_tenant tenant db = row_of (find vm_tenant tenant db.server_vms)

unfoldable pub get_server_pool_by_data_addr : Text → Store → Result Server
get_server_pool_by_data_addr addr db = row_of (find server_data_addr addr db.server_pool)

unfoldable pub get_agent_enrollment : Text → Store → Result Enrollment
get_agent_enrollment id db = row_of (find enrollment_id id db.enrollments)

-- on conflict(cert_serial) do nothing
unfoldable pub add_cert_revocation : Revocation → Store → Store
add_cert_revocation r db =
    if is_some (find revocation_serial r.serial db.revocations)
    then db
    else record db { revocations = r ∷ db.revocations }

-- An active allocation of the user: `user_id = ? AND revoked_at IS NULL`.
abbrev pub is_active : Text → Allocation → Bool
is_active user a = eqb a.user_id user && not (is_some a.revoked_at)

unfoldable pub active_bytes : Text → List Allocation → ℕ
active_bytes user [] = 0
active_bytes user (a ∷ as') = (if is_active user a then a.size_bytes else 0) + active_bytes user as'

-- SQLite's sum of integers fails beyond an int64; sizes are positive, so that no part of a sum is more than the whole.
unfoldable pub sum_active_allocation_bytes : Text → List Allocation → Result ℕ
sum_active_allocation_bytes user as' =
    let total = active_bytes user as' in if ltb total (2 ^ 63) then ok total else err other

unfoldable pub count_active_allocations_for_user : Text → List Allocation → ℕ
count_active_allocations_for_user user [] = 0
count_active_allocations_for_user user (a ∷ as') =
    (if is_active user a then 1 else 0) + count_active_allocations_for_user user as'
