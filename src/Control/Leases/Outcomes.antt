-- ===== src/Control/Leases/Outcomes.antt =====
-- What each call on a mount lease answers and does, on every branch.
use orlop.Prelude.{
  ℕ, ◌+◌, ◌<◌, Text, Bool, true, false, Option, none, some, [], eqb, eqb_refl, is_some,
  if◌then◌else◌, ◌&&◌, ok, err, ◌≡◌, refl, find, find-update_key, Option-cases, Bool-cases, arith,
  inl, inr, update_key,
}
use orlop.Prelude.Map.{is_empty}
use orlop.Control.Store.{
  Allocation, Enrollment, Store, Result, not_found, revoked, wrong_agent, lease_lost, lease_live,
  other, allocation_id, enrollment_id, revocation_serial, add_cert_revocation, get_agent_enrollment,
  get_allocation,
}
use orlop.Control.Store.Disks.{
  update_where, acquire_lease, refresh_lease, release_lease, acquired, refreshed, released, holds,
  is_for,
}
use orlop.Control.Leases.{
  live_until, classify_lease_miss, acquire_mount_lease_with_token, acquire_mount_lease,
  refresh_mount_lease, refresh_mount_lease_with_token, release_mount_lease_with_token,
  revoke_released_agent_cert,
}

-- The expiry of a live lease that another agent holds.
abbrev pub in_the_way : ℕ → Text → Allocation → Option ℕ
in_the_way now agent a = elim a.bound_agent_id [
  | none ↦ none
  | some h ↦ if eqb h agent then none else live_until a.lease_expires_at now
]

-- What an acquire is to answer, with its statement at `now` and, if the statement meets no row, the row read at `later`. A
-- lease that was in the way at first and has run out since is an error of its own, on which the caller may try again.
unfoldable pub acquire_contract :
    ℕ → ℕ → Text → Text → ℕ → Bool → Text → Store → Result (Allocation × Store)
acquire_contract now later id agent ttl force token db =
    elim (find allocation_id id db.allocations) [
      | none ↦ err not_found
      | some a ↦
          if is_some a.revoked_at
          then err revoked
          else (elim (if force then none else in_the_way now agent a) [
            | some e ↦
                err (if is_some (in_the_way later agent a) then lease_live a.bound_at e else other)
            | none ↦ ok (
              acquired now agent ttl token a,
              record db {
                allocations =
                    update_key allocation_id id (acquired now agent ttl token) db.allocations;
              },
            )
          ])
    ]

-- What a refresh is to answer, with its statement at `now` and, if the statement meets no row, the row read at `later`.
unfoldable pub refresh_contract :
    ℕ → ℕ → Text → Text → ℕ → Text → Text → Store → Result (Allocation × Store)
refresh_contract now later id agent ttl token new_token db =
    elim (find allocation_id id db.allocations) [
      | none ↦ err not_found
      | some a ↦
          if is_some a.revoked_at
          then err revoked
          else if is_some (live_until a.lease_expires_at now) && holds agent token a
          then ok (
            refreshed now agent ttl new_token a,
            record db {
              allocations =
                  update_key allocation_id id (refreshed now agent ttl new_token) db.allocations;
            },
          )
          else if is_some (live_until a.lease_expires_at later)
          then err wrong_agent
          else if is_for a.bound_agent_id agent
          then err lease_lost
          else err wrong_agent
    ]

find-acquire :
    (now later : ℕ) (id agent : Text) (ttl : ℕ) (force : Bool) (token : Text) (db db' : Store)
    (a : Allocation)
    → acquire_mount_lease_with_token now later id agent ttl force token db ≡ ok (a, db')
    → (find allocation_id id db'.allocations ≡ some a)
      × (a.revoked_at ≡ none)
      × (a.lease_expires_at ≡ some (now + ttl))
      × (a.mount_lease_token_hash ≡ some token)
      × (a.bound_agent_id ≡ some agent)
unfolding acquire_mount_lease_with_token acquire_lease update_where get_allocation
find-acquire now later id agent ttl force token db db' a done =
    elim (Option-cases (find allocation_id id db.allocations)) [
      | inl e ↦ ground (arith, e, done)
      | inr (b, e) ↦ ground (
        arith,
        e,
        done,
        eqb_refl id,
        find-update_key allocation_id id id (acquired now agent ttl token) db.allocations
            (λ _. refl),
      )
    ]

-- A client without tokens that has acquired a lease is refused every refresh of it, as if another agent held it, however
-- early it comes.
pub legacy_refresh_is_refused :
    (now later now' later' : ℕ) (id agent : Text) (ttl ttl' : ℕ) (force : Bool) (db db' : Store)
    (a : Allocation)
    → acquire_mount_lease now later id agent ttl force db ≡ ok (a, db')
    → now' < now + ttl
    → later' < now + ttl
    → refresh_mount_lease now' later' id agent ttl' db' ≡ err wrong_agent
unfolding refresh_mount_lease_with_token refresh_lease update_where get_allocation
    classify_lease_miss live_until
legacy_refresh_is_refused now later now' later' id agent ttl ttl' force db db' a done early early' =
    ground (arith, find-acquire now later id agent ttl force [] db db' a done, eqb_refl agent)

-- A certificate that is revoked is on the deny list.
find-revoke_released_agent_cert :
    (agent tenant : Text) (db : Store) (enr : Enrollment)
    → find enrollment_id agent db.enrollments ≡ some enr
    → is_empty agent ≡ false
    → is_some (
        find revocation_serial enr.cert_serial
          (revoke_released_agent_cert agent tenant db).revocations)
      ≡ true
unfolding revoke_released_agent_cert get_agent_enrollment add_cert_revocation find
find-revoke_released_agent_cert agent tenant db enr enrolled named =
    rw (named, enrolled)
      (elim (Bool-cases (is_some (find revocation_serial enr.cert_serial db.revocations))) [
        | inl e ↦ rw e e
        | inr e ↦ rw (e, eqb_refl enr.cert_serial) refl
      ])

-- A release that succeeds leaves the allocation free, and the certificate of the releasing agent's enrollment on the
-- deny list.
pub release_lem :
    (id agent token : Text) (db db' : Store) (enr : Enrollment)
    → release_mount_lease_with_token id agent token db ≡ ok db'
    → get_agent_enrollment agent db ≡ ok enr
    → is_empty agent ≡ false
    → ((a : Allocation) × (find allocation_id id db'.allocations ≡ some a)
        × (a.bound_agent_id ≡ none)
        × (a.lease_expires_at ≡ none)
        × (a.mount_lease_token_hash ≡ none))
      × (is_some (find revocation_serial enr.cert_serial db'.revocations) ≡ true)
unfolding release_mount_lease_with_token release_lease update_where get_allocation
    revoke_released_agent_cert get_agent_enrollment add_cert_revocation
release_lem id agent token db db' enr done enrolled named =
    elim (Option-cases (find allocation_id id db.allocations)) [
      | inl e ↦ ground (arith, e, done)
      | inr (b, e) ↦ (
        (
          released b,
          ground (
            arith,
            e,
            done,
            enrolled,
            named,
            eqb_refl id,
            find-update_key allocation_id id id released db.allocations (λ _. refl),
          ),
          refl,
          refl,
          refl,
        ),
        ground (
          arith,
          e,
          done,
          find-revoke_released_agent_cert agent (released b).tenant_id
              (record db { allocations = update_key allocation_id id released db.allocations }) enr
              (ground (arith, enrolled)) named,
        ),
      )
    ]
