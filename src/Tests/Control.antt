-- ===== src/Tests/Control.antt =====
-- The theorems on the control plane at concrete stores.
use orlop.Prelude.{
  ℕ, ◌+◌, ◌≤◌, Text, text, text_dec, true, false, none, some, List, [], ◌∷◌, eqb, is_some,
  if◌then◌else◌, ok, err, ◌≡◌, ◌≢◌, refl, find, update_key, arith,
}
use orlop.Control.Store.{
  Allocation, User, Server, available, Enrollment, Store, wrong_agent, get_user,
  get_agent_enrollment, active_bytes, sum_active_allocation_bytes, allocation_id, server_key,
  revocation_serial, add_cert_revocation,
}
use orlop.Control.Store.Disks.{
  acquire_lease, release_lease, update_where, insert_allocation, new_allocation, revoke_allocation,
  update_allocation_size,
}
use orlop.Control.Store.Pool.{reserve_capacity_for_growth, update_server}
use orlop.Control.Allocations.{allocate, revoke}
use orlop.Control.Allocations.Quota.{allocate_lem, allocate_overflow, with_new}
use orlop.Control.Leases.{
  acquire_mount_lease, acquire_mount_lease_with_token, refresh_mount_lease,
  release_mount_lease_with_token, revoke_released_agent_cert,
}
use orlop.Control.Leases.Exclusive.{Call, acquires, refreshes, releases, run, lease_is_exclusive}
use orlop.Control.Leases.Outcomes.{legacy_refresh_is_refused, release_lem}
use orlop.Control.Placement.{move_capacity}
use orlop.Control.Placement.Pairs.{reserved}
use orlop.Control.Placement.Transactions as Transactions
use orlop.Control.Placement.Transactions.{
  Transaction, places, records, resizes, cleans, is_sound, run-is_sound,
}
use orlop.Control.Placement.Ledger.{is_balanced}
use orlop.Control.Placement.Resize.{resize_placed}
use orlop.Control.Placement.Resize.Compensation.{alone, growth_drifts}

abbrev ada : User
ada = record {
  id = text "ada";
  email = text "a@x";
  tenant_id = text "t0";
  role = text "user";
  quota_bytes = 100;
  suspended = false;
}

abbrev disk : Allocation
disk = new_allocation (text "d1") (text "ada") 40 5

abbrev fresh_server : Server
fresh_server = record {
  id = text "s1";
  data_addr = text "s1:1";
  ops_addr = text "s1:2";
  total_bytes = 1000;
  free_bytes = 1000;
  status = available;
}

abbrev enrolled : Enrollment
enrolled = record {
  id = text "e1";
  user_id = text "ada";
  cert_serial = text "c1";
  cert_not_after = 900;
}

abbrev start : Store
start = record {
  allocations = disk ∷ [];
  users = ada ∷ [];
  server_vms = [];
  server_pool = fresh_server ∷ [];
  reservations = [];
  enrollments = enrolled ∷ [];
  revocations = [];
}

abbrev held_disk : Allocation
held_disk = record disk {
  bound_agent_id = some (text "e1");
  bound_at = some 10;
  lease_expires_at = some 60;
  mount_lease_token_hash = some (text "k1");
}

abbrev held : Store
held = record start { allocations = held_disk ∷ [] }

abbrev others : List Call
others =
    acquires 20 20 (text "d1") (text "e2") 50 false (text "k2")
    ∷ refreshes 21 21 (text "d1") (text "e2") 50 [] []
    ∷ releases (text "d1") (text "e1") (text "k2")
    ∷ []

held_by_e1 : find allocation_id (text "d1") held.allocations ≡ some held_disk
unfolding find text_dec
held_by_e1 = refl

lease_is_exclusive_example :
    find allocation_id (text "d1") (run others held).allocations ≡ some held_disk
unfolding text_dec
lease_is_exclusive_example =
    lease_is_exclusive (text "d1") (text "e1") 60 (text "k1") others held held_disk held_by_e1 refl
      refl refl refl

abbrev legacy_disk : Allocation
legacy_disk = record disk {
  bound_agent_id = some (text "e1");
  bound_at = some 10;
  lease_expires_at = some 60;
  mount_lease_token_hash = some [];
}

legacy_acquired :
    acquire_mount_lease 10 10 (text "d1") (text "e1") 50 false start
    ≡ ok (legacy_disk, record start { allocations = legacy_disk ∷ [] })
unfolding acquire_mount_lease_with_token acquire_lease update_where find update_key text_dec
legacy_acquired = refl

legacy_refresh_is_refused_example :
    refresh_mount_lease 20 20
      (text "d1")
      (text "e1")
      50
      (record start { allocations = legacy_disk ∷ [] })
    ≡ err wrong_agent
legacy_refresh_is_refused_example =
    legacy_refresh_is_refused 10 10 20 20 (text "d1") (text "e1") 50 50 false start
      (record start { allocations = legacy_disk ∷ [] }) legacy_disk legacy_acquired (omega arith)
      (omega arith)

abbrev freed : Store
freed = record start {
  allocations = disk ∷ [];
  revocations =
      record {
        serial = text "c1";
        tenant_id = [];
        expires_at = 900;
        reason = text "lease_released";
      }
      ∷ [];
}

release_done : release_mount_lease_with_token (text "d1") (text "e1") (text "k1") held ≡ ok freed
unfolding release_mount_lease_with_token release_lease update_where find update_key text_dec
    revoke_released_agent_cert get_agent_enrollment add_cert_revocation
release_done = refl

known_e1 : get_agent_enrollment (text "e1") held ≡ ok enrolled
unfolding get_agent_enrollment find text_dec
known_e1 = refl

release_lem_example :
    ((a : Allocation) × (find allocation_id (text "d1") freed.allocations ≡ some a)
      × (a.bound_agent_id ≡ none)
      × (a.lease_expires_at ≡ none)
      × (a.mount_lease_token_hash ≡ none))
    × (is_some (find revocation_serial (text "c1") freed.revocations) ≡ true)
release_lem_example =
    release_lem (text "d1") (text "e1") (text "k1") held freed enrolled release_done known_e1 refl

abbrev second : Allocation
second = new_allocation (text "d2") (text "ada") 60 20

allocated :
    allocate (text "d2") 20 (text "ada") 60 start
    ≡ ok (second, record start { allocations = second ∷ disk ∷ [] })
unfolding allocate get_user insert_allocation find text_dec sum_active_allocation_bytes active_bytes
allocated = refl

start_sum : active_bytes (text "ada") (disk ∷ []) ≡ 40
unfolding active_bytes text_dec
start_sum = refl

allocate_lem_example :
    ((u : User) × (get_user (text "ada") start ≡ ok u)
      × (active_bytes (text "ada") (second ∷ disk ∷ []) ≤ u.quota_bytes))
    × (active_bytes (text "eve") (second ∷ disk ∷ [])
        ≡ (if eqb (text "ada") (text "eve") then 60 else 0) + active_bytes (text "eve") (disk ∷ []))
allocate_lem_example =
    allocate_lem (text "d2") 20 (text "ada") 60 (text "eve") start
      (record start { allocations = second ∷ disk ∷ [] }) second allocated
      (omega (arith, start_sum))

ada_known : get_user (text "ada") start ≡ ok ada
unfolding get_user find text_dec
ada_known = refl

d2_free : find allocation_id (text "d2") start.allocations ≡ none
unfolding find text_dec
d2_free = refl

-- 2 ^ 63 - 1 bytes more, against a quota of 100.
abbrev largest : ℕ
largest = 9223372036854775807

abbrev beyond : Store
beyond = with_new (text "d2") (text "ada") largest 20 start

allocate_overflow_example :
    (allocate (text "d2") 20 (text "ada") largest start
      ≡ ok (new_allocation (text "d2") (text "ada") largest 20, beyond))
    × ((id' : Text) (now' size' : ℕ) (a : Allocation) (db' : Store)
        → allocate id' now' (text "ada") size' beyond ≢ ok (a, db'))
allocate_overflow_example =
    allocate_overflow (text "d2") 20 (text "ada") largest start ada ada_known d2_free (omega arith)
      (omega (arith, start_sum)) (omega (arith, start_sum))

abbrev shut : Allocation
shut = record disk { revoked_at = some 30 }

abbrev shut_store : Store
shut_store = record start { allocations = shut ∷ [] }

revoked_d1 : revoke 30 (text "d1") (text "ada") start ≡ ok (shut, shut_store)
unfolding revoke revoke_allocation update_where find update_key text_dec
revoked_d1 = refl

abbrev day : List Transaction
day =
    places 10 (text "ada") 200
    ∷ records (text "t1") (text "s1:1")
    ∷ resizes (text "ada") 300
    ∷ cleans (text "ada") (text "t1")
    ∷ []

start-is_sound : is_sound (text "s1") start ≡ true
unfolding is_balanced find text_dec reserved
start-is_sound = refl

run-is_sound_example : is_sound (text "s1") (Transactions.run day start) ≡ true
run-is_sound_example = run-is_sound (text "s1") day start start-is_sound

server_here : find server_key (text "s1") start.server_pool ≡ some fresh_server
unfolding find text_dec
server_here = refl

abbrev grown : Store
grown = record start {
  allocations = record disk { size_bytes = 70 } ∷ [];
  server_pool = record fresh_server { free_bytes = 970 } ∷ [];
}

grows_d1 :
    resize_placed alone (text "d1") (text "ada") 40 70 fresh_server true start
    ≡ (grown, ok (record disk { size_bytes = 70 }))
unfolding resize_placed move_capacity reserve_capacity_for_growth update_server
    update_allocation_size update_where find update_key text_dec
grows_d1 = refl

start_balanced : is_balanced (text "s1") start ≡ true
unfolding is_balanced find text_dec reserved
start_balanced = refl

growth_drifts_example :
    ((v' : Server) × (find server_key (text "s1") grown.server_pool ≡ some v')
      × (v'.total_bytes ≡ 1000)
      × (v'.free_bytes + reserved (text "s1") grown.reservations + 30 ≡ v'.total_bytes))
    × (is_balanced (text "s1") grown ≡ false)
growth_drifts_example =
    growth_drifts (text "d1") (text "ada") 40 70 fresh_server fresh_server start grown
      (record disk { size_bytes = 70 }) server_here start_balanced (omega arith) grows_d1
