-- ===== src/Control/Store/Disks.antt =====
-- The statements on disk_allocations: each is one UPDATE or INSERT with its guard, and the row that it returns.
-- A guard that meets no row is not_found. Times are microseconds.
use orlop.Prelude.{
  ℕ, ◌+◌, Text, Bool, true, false, Option, none, some, [], ◌∷◌, ◌&&◌, ◌||◌, not, eqb, ltb, leb,
  is_some, if◌then◌else◌, ok, err, find, update_key, guard, ◌>>◌,
}
use orlop.Prelude.Map.{is_empty}
use orlop.Control.Store.{
  Allocation, Store, Result, not_found, already_exists, other, allocation_id, user_key,
}

-- UPDATE disk_allocations SET (f) WHERE id = ? AND (test) RETURNING ...
unfoldable pub update_where :
    Text → (Allocation → Bool) → (Allocation → Allocation) → Store → Result (Allocation × Store)
update_where id test f db = elim (find allocation_id id db.allocations) [
  | none ↦ err not_found
  | some a ↦
      guard (test a) not_found
      >> ok (f a, record db { allocations = update_key allocation_id id f db.allocations })
]

abbrev pub new_allocation : Text → Text → ℕ → ℕ → Allocation
new_allocation id user size now = record {
  id = id;
  user_id = user;
  tenant_id = [];
  agent_id = [];
  size_bytes = size;
  created_at = now;
  revoked_at = none;
  purged_at = none;
  bound_agent_id = none;
  bound_at = none;
  lease_expires_at = none;
  mount_lease_token_hash = none;
}

-- The new id is an argument; the owner must exist.
unfoldable pub insert_allocation : Text → ℕ → Text → ℕ → Store → Result (Allocation × Store)
insert_allocation id now user size db =
    guard (not (is_some (find allocation_id id db.allocations))) already_exists
    >> guard (is_some (find user_key user db.users) && ltb 0 size) other
    >> ok (
      new_allocation id user size now,
      record db { allocations = new_allocation id user size now ∷ db.allocations },
    )

-- user_id = ?, which a null owner never is
abbrev pub is_of : Text → Allocation → Bool
is_of user a = not (is_empty a.user_id) && eqb a.user_id user

abbrev pub is_owned : Text → Allocation → Bool
is_owned user a = is_of user a && not (is_some a.revoked_at)

unfoldable pub bind_allocation : ℕ → Text → Text → Text → Store → Result (Allocation × Store)
bind_allocation now id user agent =
    update_where id (λ a. is_owned user a && not (is_some a.bound_agent_id))
      (λ a. record a { bound_agent_id = some agent; bound_at = some now })

abbrev pub coalesce : Option ℕ → ℕ → Option ℕ
coalesce none d = some d
coalesce (some v) d = some v

unfoldable pub revoke_allocation : ℕ → Text → Text → Store → Result (Allocation × Store)
revoke_allocation now id user =
    update_where id (is_of user) (λ a. record a { revoked_at = coalesce a.revoked_at now })

unfoldable pub mark_allocation_purged : ℕ → Text → Store → Result (Allocation × Store)
mark_allocation_purged now id =
    update_where id (λ a. is_some a.revoked_at && not (is_some a.purged_at))
      (λ a. record a { purged_at = some now })

unfoldable pub update_allocation_size : Text → Text → ℕ → Store → Result (Allocation × Store)
update_allocation_size id user size =
    update_where id (is_owned user) (λ a. record a { size_bytes = size })

-- a = some t
abbrev pub is_for : Option Text → Text → Bool
is_for none t = false
is_for (some s) t = eqb s t

-- lease_expires_at IS NULL OR lease_expires_at <= now
abbrev pub has_lapsed : Option ℕ → ℕ → Bool
has_lapsed none now = true
has_lapsed (some e) now = leb e now

-- The guard of `AcquireMountLease`.
abbrev pub may_acquire : ℕ → Text → Bool → Allocation → Bool
may_acquire now agent force a =
    not (is_some a.revoked_at)
    && (force
        || not (is_some a.bound_agent_id)
        || is_for a.bound_agent_id agent
        || has_lapsed a.lease_expires_at now)

abbrev pub acquired : ℕ → Text → ℕ → Text → Allocation → Allocation
acquired now agent ttl token a = record a {
  bound_agent_id = some agent;
  bound_at = if is_for a.bound_agent_id agent then a.bound_at else some now;
  lease_expires_at = some (now + ttl);
  mount_lease_token_hash = some token;
}

unfoldable pub acquire_lease :
    ℕ → Text → Text → ℕ → Bool → Text → Store → Result (Allocation × Store)
acquire_lease now id agent ttl force token =
    update_where id (may_acquire now agent force) (acquired now agent ttl token)

-- The holder's proof: the lease's token, or, with no token and none stored, the enrollment.
abbrev pub holds : Text → Text → Allocation → Bool
holds agent token a =
    (not (is_empty token) && is_for a.mount_lease_token_hash token)
    || (is_empty token && not (is_some a.mount_lease_token_hash) && is_for a.bound_agent_id agent)

abbrev pub may_refresh : ℕ → Text → Text → Allocation → Bool
may_refresh now agent token a =
    not (is_some a.revoked_at) && not (has_lapsed a.lease_expires_at now) && holds agent token a

abbrev pub refreshed : ℕ → Text → ℕ → Text → Allocation → Allocation
refreshed now agent ttl new_token a = record a {
  bound_agent_id = some agent;
  lease_expires_at = some (now + ttl);
  mount_lease_token_hash = if is_empty new_token then a.mount_lease_token_hash else some new_token;
}

unfoldable pub refresh_lease :
    ℕ → Text → Text → ℕ → Text → Text → Store → Result (Allocation × Store)
refresh_lease now id agent ttl token new_token =
    update_where id (may_refresh now agent token) (refreshed now agent ttl new_token)

abbrev pub released : Allocation → Allocation
released a = record a {
  bound_agent_id = none;
  bound_at = none;
  lease_expires_at = none;
  mount_lease_token_hash = none;
}

unfoldable pub release_lease : Text → Text → Text → Store → Result (Allocation × Store)
release_lease id agent token =
    update_where id (λ a. not (is_some a.bound_agent_id) || holds agent token a) released

unfoldable pub force_release_lease : Text → Text → Store → Result (Allocation × Store)
force_release_lease id user = update_where id (is_owned user) released
