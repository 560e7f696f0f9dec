-- ===== src/Control/Allocations.antt =====
-- The calls on allocations of the control plane's service: allocations/allocate.go, bind.go, revoke.go and get.go. A call
-- returns the row and the new store, and an error leaves the store; a wrapped error is the error it wraps.
pub mod Quota
pub mod Owners
use orlop.Prelude.{
  ◌%◌, ◌-◌, ℤ, pos, negsuc, ℕ, ◌+◌, ◌^◌, Text, Bool, true, false, Option, none, some, ◌&&◌, not,
  eqb, ltb, is_some, if◌then◌else◌, Outcome, ok, err, guard, ◌>>=◌, ◌>>◌,
}
use orlop.Control.Store.{
  Allocation, User, Store, Result, not_found, quota_exceeded, already_bound, wrong_user, revoked,
  other, get_allocation, get_user, sum_active_allocation_bytes,
}
use orlop.Control.Store.Disks.{insert_allocation, bind_allocation, revoke_allocation}

-- A statement that met no row is classified by reading the row again.
abbrev pub on_not_found : {A : Type 0} → Result A → Result A → Result A
on_not_found (err not_found) miss = miss
on_not_found r miss = r

-- The int64 of the low 64 bits of a number.
abbrev pub to_int64 : ℕ → ℤ
to_int64 n = let low = n % 2 ^ 64 in if ltb low (2 ^ 63) then pos low else negsuc (2 ^ 64 - 1 - low)

-- A number is less than an integer.
abbrev pub is_below : ℕ → ℤ → Bool
is_below n (pos m) = ltb n m
is_below n (negsuc m) = false

-- used + size > quota on int64
abbrev pub is_exceeded : ℕ → ℕ → ℕ → Bool
is_exceeded used size quota = is_below quota (to_int64 (used + size))

-- A size is positive; 0 stands for all the others.
unfoldable pub allocate : Text → ℕ → Text → ℕ → Store → Result (Allocation × Store)
allocate id now user size db =
    guard (ltb 0 size) other
    >> (get_user user db >>= (λ u. sum_active_allocation_bytes user db.allocations >>= (λ used.
        guard (not (is_exceeded used size u.quota_bytes)) quota_exceeded
        >> insert_allocation id now user size db)))

unfoldable pub bind : ℕ → Text → Text → Text → Store → Result (Allocation × Store)
bind now id user agent db = on_not_found (bind_allocation now id user agent db) (
    get_allocation id db >>= (λ cur.
      guard (eqb cur.user_id user) wrong_user
      >> guard (not (is_some cur.revoked_at)) revoked
      >> guard (not (is_some cur.bound_agent_id)) already_bound
      >> err other))

unfoldable pub revoke : ℕ → Text → Text → Store → Result (Allocation × Store)
revoke now id user db =
    on_not_found (revoke_allocation now id user db)
      (get_allocation id db >>= (λ cur. guard (eqb cur.user_id user) wrong_user >> err other))

unfoldable pub get_for_user : Text → Text → Store → Result Allocation
get_for_user id user db = get_allocation id db >>= (λ a.
    guard (eqb a.user_id user) wrong_user >> guard (not (is_some a.revoked_at)) revoked >> ok a)
