-- ===== src/Control/Leases.antt =====
-- The mount lease of an allocation: allocations/lease.go and force_release.go. `now` is the time of the statement and
-- `later` the time of the classification of its miss. Log lines are left out.
pub mod Exclusive
pub mod Outcomes
use orlop.Prelude.{
  ℕ, ◌+◌, Text, Bool, true, false, Option, none, some, ◌&&◌, ◌||◌, not, eqb, leb, is_some,
  if◌then◌else◌, Outcome, ok, err, guard, ◌>>=◌, ◌>>◌, text, find, [],
}
use orlop.Prelude.Map.{is_empty}
use orlop.Control.Store.{
  Allocation, Enrollment, Revocation, Store, Error, Result, not_found, wrong_user, wrong_agent,
  already_mounted, lease_lost, lease_live, revoked, other, get_allocation, get_agent_enrollment,
  add_cert_revocation,
}
use orlop.Control.Store.Disks.{
  acquire_lease, refresh_lease, release_lease, force_release_lease, is_for,
}
use orlop.Control.Allocations.{on_not_found}

-- The expiry of a lease that is live.
unfoldable pub live_until : Option ℕ → ℕ → Option ℕ
live_until none now = none
live_until (some e) now = if leb e now then none else some e

unfoldable pub classify_lease_miss : ℕ → Text → Bool → Allocation → Error
classify_lease_miss later agent acquiring cur =
    if is_some cur.revoked_at then revoked else (elim (live_until cur.lease_expires_at later) [
      | some e ↦
          if not (is_for cur.bound_agent_id agent)
          then (if acquiring then lease_live cur.bound_at e else wrong_agent)
          else if acquiring
          then already_mounted
          else wrong_agent
      | none ↦
          if not (is_for cur.bound_agent_id agent)
          then (if acquiring then other else wrong_agent)
          else if acquiring
          then other
          else lease_lost
    ])

abbrev pub miss : ℕ → Text → Text → Bool → Store → Result (Allocation × Store)
miss later id agent acquiring db =
    get_allocation id db >>= (λ cur. err (classify_lease_miss later agent acquiring cur))

unfoldable pub acquire_mount_lease_with_token :
    ℕ → ℕ → Text → Text → ℕ → Bool → Text → Store → Result (Allocation × Store)
acquire_mount_lease_with_token now later id agent ttl force token db =
    on_not_found (acquire_lease now id agent ttl force token db) (miss later id agent true db)

abbrev pub acquire_mount_lease :
    ℕ → ℕ → Text → Text → ℕ → Bool → Store → Result (Allocation × Store)
acquire_mount_lease now later id agent ttl force =
    acquire_mount_lease_with_token now later id agent ttl force []

unfoldable pub refresh_mount_lease_with_token :
    ℕ → ℕ → Text → Text → ℕ → Text → Text → Store → Result (Allocation × Store)
refresh_mount_lease_with_token now later id agent ttl token new_token db =
    on_not_found (refresh_lease now id agent ttl token new_token db) (miss later id agent false db)

abbrev pub refresh_mount_lease : ℕ → ℕ → Text → Text → ℕ → Store → Result (Allocation × Store)
refresh_mount_lease now later id agent ttl =
    refresh_mount_lease_with_token now later id agent ttl [] []

-- The agent's certificate goes to the deny list; nothing happens where its enrollment is gone.
unfoldable pub revoke_released_agent_cert : Text → Text → Store → Store
revoke_released_agent_cert enrollment tenant db =
    if is_empty enrollment then db else (elim (get_agent_enrollment enrollment db) [
      | err e ↦ db
      | ok enr ↦
          add_cert_revocation
            (record {
              serial = enr.cert_serial;
              tenant_id = tenant;
              expires_at = enr.cert_not_after;
              reason = text "lease_released";
            })
            db
    ])

abbrev pub release_miss : Text → Text → Text → Store → Result Store
release_miss id agent token db = get_allocation id db >>= (λ cur.
    if is_some cur.bound_agent_id && (not (is_for cur.bound_agent_id agent) || not (is_empty token))
    then err wrong_agent
    else err other)

unfoldable pub release_mount_lease_with_token : Text → Text → Text → Store → Result Store
release_mount_lease_with_token id agent token db =
    on_not_found
      (release_lease id agent token db
        >>= (λ r. ok (revoke_released_agent_cert agent r.0.tenant_id r.1)))
      (release_miss id agent token db)

abbrev pub release_mount_lease : Text → Text → Store → Result Store
release_mount_lease id agent = release_mount_lease_with_token id agent []

-- The agent that a row was bound to loses its certificate.
abbrev pub revoke_bound : Option Text → Text → Store → Store
revoke_bound none tenant db = db
revoke_bound (some agent) tenant db = revoke_released_agent_cert agent tenant db

unfoldable pub force_release_mount_lease : Text → Text → Store → Result Store
force_release_mount_lease id user db =
    on_not_found
      (force_release_lease id user db >>= (λ r. ok (elim (get_allocation id db) [
        | ok prior ↦ revoke_bound prior.bound_agent_id prior.tenant_id r.1
        | err e ↦ r.1
      ])))
      (get_allocation id db >>= (λ cur.
        guard (eqb cur.user_id user) wrong_user
        >> guard (not (is_some cur.revoked_at)) revoked
        >> err other))
