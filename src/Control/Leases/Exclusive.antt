-- ===== src/Control/Leases/Exclusive.antt =====
-- A mount lease against the calls of others: sequences of acquires, refreshes and releases on a store.
use orlop.Prelude.{
  ℕ, Text, Bool, true, false, some, List, [], ◌∷◌, ◌&&◌, ◌||◌, not, eqb, eqb_iff, ltb, is_some, ok,
  err, ◌>>=◌, ◌≡◌, refl, find, find-update_key, Option-cases, arith, ap, inl, inr,
}
use orlop.Control.Store.{
  Allocation, Store, Result, not_found, allocation_id, enrollment_id, add_cert_revocation,
  get_agent_enrollment, get_allocation,
}
use orlop.Control.Store.Disks.{
  update_where, acquire_lease, refresh_lease, release_lease, may_acquire, may_refresh, acquired,
  refreshed, released, holds,
}
use orlop.Control.Allocations.{on_not_found}
use orlop.Control.Leases.{
  miss, release_miss, acquire_mount_lease_with_token, refresh_mount_lease_with_token,
  release_mount_lease_with_token, revoke_released_agent_cert,
}

-- The calls that carry no owner's authority: now, later, the allocation, the agent, and the rest.
pub data Call : Type 0 where
  acquires : ℕ → ℕ → Text → Text → ℕ → Bool → Text → Call
  refreshes : ℕ → ℕ → Text → Text → ℕ → Text → Text → Call
  releases : Text → Text → Text → Call

abbrev left_by : {A : Type 0} → Store → Result (A × Store) → Store
left_by db (ok r) = r.1
left_by db (err e) = db

abbrev result_of : Store → Result Store → Store
result_of db (ok db') = db'
result_of db (err e) = db

unfoldable pub perform : Call → Store → Store
perform (acquires now later id agent ttl force token) db =
    left_by db (acquire_mount_lease_with_token now later id agent ttl force token db)
perform (refreshes now later id agent ttl token new_token) db =
    left_by db (refresh_mount_lease_with_token now later id agent ttl token new_token db)
perform (releases id agent token) db =
    result_of db (release_mount_lease_with_token id agent token db)

unfoldable pub run : List Call → Store → Store
run [] db = db
run (c ∷ cs) db = run cs (perform c db)

-- Whether a call leaves the lease of `holder` on `id` alone, which runs until `expiry` under `token`: it is on another
-- allocation, or an unforced acquire of another agent before the expiry, or it proves another token.
abbrev pub is_foreign : Text → Text → ℕ → Text → Call → Bool
is_foreign id holder expiry token (acquires now later on agent ttl force new) =
    not (eqb on id) || (not force && not (eqb holder agent) && ltb now expiry)
is_foreign id holder expiry token (refreshes now later on agent ttl proof new) =
    not (eqb on id) || not (eqb token proof)
is_foreign id holder expiry token (releases on agent proof) =
    not (eqb on id) || not (eqb token proof)

abbrev pub all_foreign : Text → Text → ℕ → Text → List Call → Bool
all_foreign id holder expiry token [] = true
all_foreign id holder expiry token (c ∷ cs) =
    is_foreign id holder expiry token c && all_foreign id holder expiry token cs

-- Row `id` after an update of a row that it is not, or whose guard fails.
find-update_where :
    (id on : Text) (test : Allocation → Bool) (f : Allocation → Allocation) (db : Store)
    (a : Allocation)
    → ((r : Allocation) → (f r).id ≡ r.id)
    → find allocation_id id db.allocations ≡ some a
    → (not (eqb on id) || not (test a)) ≡ true
    → find allocation_id id (left_by db (update_where on test f db)).allocations ≡ some a
unfolding update_where
find-update_where id on test f db a keeps here apart =
    elim (Option-cases (find allocation_id on db.allocations)) [
      | inl e ↦ ground (arith, e, here)
      | inr (b, e) ↦ ground (
        arith,
        e,
        here,
        apart,
        eqb_iff on id,
        find-update_key allocation_id id on f db.allocations keeps,
      )
    ]

-- The deny list has no part in the allocations.
allocations-revoke_released_agent_cert :
    (agent tenant : Text) (db : Store)
    → (revoke_released_agent_cert agent tenant db).allocations ≡ db.allocations
unfolding revoke_released_agent_cert add_cert_revocation get_agent_enrollment
allocations-revoke_released_agent_cert agent tenant db =
    ground (arith, Option-cases (find enrollment_id agent db.enrollments))

left_by-on_not_found :
    (db : Store) (r m : Result (Allocation × Store))
    → left_by db m ≡ db
    → left_by db (on_not_found r m) ≡ left_by db r
left_by-on_not_found db (ok x) m same = refl
left_by-on_not_found db (err e) m same = elim e as (λ x. left_by db (on_not_found (err x) m) ≡ db) [
  | not_found ↦ same
  | _ ↦ refl
]

allocations-with_revocation :
    (agent : Text) (db : Store) (r : Result (Allocation × Store)) (m : Result Store)
    → result_of db m ≡ db
    → (result_of db (
        on_not_found
          (r >>= (λ x. ok (revoke_released_agent_cert agent x.0.tenant_id x.1)))
          m)).allocations
      ≡ (left_by db r).allocations
allocations-with_revocation agent db (ok x) m same =
    allocations-revoke_released_agent_cert agent x.0.tenant_id x.1
allocations-with_revocation agent db (err e) m same =
    elim e as (λ x. (result_of db (on_not_found (err x) m)).allocations ≡ db.allocations) [
      | not_found ↦ ap (λ d. d.allocations) same
      | _ ↦ refl
    ]

result_of-release_miss :
    (id agent token : Text) (db : Store) → result_of db (release_miss id agent token db) ≡ db
unfolding get_allocation
result_of-release_miss id agent token db =
    ground (arith, Option-cases (find allocation_id id db.allocations))

left_by-miss :
    (later : ℕ) (id agent : Text) (acquiring : Bool) (db : Store)
    → left_by db (miss later id agent acquiring db) ≡ db
unfolding get_allocation
left_by-miss later id agent acquiring db =
    ground (arith, Option-cases (find allocation_id id db.allocations))

module _ (id holder : Text) (expiry : ℕ) (token : Text) (db : Store) (a : Allocation)
    (here : find allocation_id id db.allocations ≡ some a) (bound : a.bound_agent_id ≡ some holder)
    (runs : a.lease_expires_at ≡ some expiry) (proof : a.mount_lease_token_hash ≡ some token) where
  acquire-foreign :
      (now later : ℕ) (on agent : Text) (ttl : ℕ) (force : Bool) (new : Text)
      → is_foreign id holder expiry token (acquires now later on agent ttl force new) ≡ true
      → find allocation_id id (perform (acquires now later on agent ttl force new) db).allocations
        ≡ some a
  unfolding perform acquire_mount_lease_with_token acquire_lease
  acquire-foreign now later on agent ttl force new foreign =
      rw
        (left_by-on_not_found db (acquire_lease now on agent ttl force new db)
          (miss later on agent true db) (left_by-miss later on agent true db))
        (find-update_where id on (may_acquire now agent force) (acquired now agent ttl new) db a
          (λ _. refl) here (ground (arith, foreign, bound, runs, eqb_iff holder agent)))

  refresh-foreign :
      (now later : ℕ) (on agent : Text) (ttl : ℕ) (given new : Text)
      → is_foreign id holder expiry token (refreshes now later on agent ttl given new) ≡ true
      → find allocation_id id (perform (refreshes now later on agent ttl given new) db).allocations
        ≡ some a
  unfolding perform refresh_mount_lease_with_token refresh_lease
  refresh-foreign now later on agent ttl given new foreign =
      rw
        (left_by-on_not_found db (refresh_lease now on agent ttl given new db)
          (miss later on agent false db) (left_by-miss later on agent false db))
        (find-update_where id on (may_refresh now agent given) (refreshed now agent ttl new) db a
          (λ _. refl) here (ground (arith, foreign, bound, runs, proof, eqb_iff token given)))

  release-foreign :
      (on agent given : Text)
      → is_foreign id holder expiry token (releases on agent given) ≡ true
      → find allocation_id id (perform (releases on agent given) db).allocations ≡ some a
  unfolding perform release_mount_lease_with_token release_lease
  release-foreign on agent given foreign =
      rw
        (allocations-with_revocation agent db (release_lease on agent given db)
          (release_miss on agent given db) (result_of-release_miss on agent given db))
        (find-update_where id on (λ r. not (is_some r.bound_agent_id) || holds agent given r)
          released db a (λ _. refl) here
          (ground (arith, foreign, bound, proof, eqb_iff token given)))

  perform-foreign :
      (c : Call)
      → is_foreign id holder expiry token c ≡ true
      → find allocation_id id (perform c db).allocations ≡ some a
  perform-foreign (acquires now later on agent ttl force new) =
      acquire-foreign now later on agent ttl force new
  perform-foreign (refreshes now later on agent ttl given new) =
      refresh-foreign now later on agent ttl given new
  perform-foreign (releases on agent given) = release-foreign on agent given

-- While a lease with a token runs, whatever acquires, refreshes and releases others make, in any order, the row of
-- its allocation stays as it is: an acquire without force by another agent, before the expiry, and a refresh or release with
-- another token are refused, whatever they do to other allocations.
pub lease_is_exclusive :
    (id holder : Text) (expiry : ℕ) (token : Text) (calls : List Call) (db : Store) (a : Allocation)
    → find allocation_id id db.allocations ≡ some a
    → a.bound_agent_id ≡ some holder
    → a.lease_expires_at ≡ some expiry
    → a.mount_lease_token_hash ≡ some token
    → all_foreign id holder expiry token calls ≡ true
    → find allocation_id id (run calls db).allocations ≡ some a
unfolding run
lease_is_exclusive id holder expiry token [] db a here bound runs proof foreign = here
lease_is_exclusive id holder expiry token (c ∷ calls) db a here bound runs proof foreign =
    lease_is_exclusive id holder expiry token calls (perform c db) a
      (perform-foreign id holder expiry token db a here bound runs proof c
        (ground (arith, foreign)))
      bound runs proof (ground (arith, foreign))
