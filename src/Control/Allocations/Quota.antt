-- ===== src/Control/Allocations/Quota.antt =====
-- The quota of a user against the sum of the active allocations (allocations/allocate.go).
use orlop.Prelude.{
  ℕ, ◌+◌, ◌^◌, ◌≤◌, ◌<◌, Text, none, ◌∷◌, eqb, eqb_refl, if◌then◌else◌, ok, ◌≡◌, ◌≢◌, find,
  Option-cases, arith, inl, inr,
}
use orlop.Control.Store.{
  Allocation, User, Store, allocation_id, user_key, get_user, active_bytes,
  sum_active_allocation_bytes,
}
use orlop.Control.Store.Disks.{insert_allocation, new_allocation}
use orlop.Control.Allocations.{allocate}

-- An allocation that succeeds below 2 ^ 63 bytes in all stays within the user's quota, adds its size to the user's active
-- sum, and leaves every other user's.
pub allocate_lem :
    (id : Text) (now : ℕ) (user : Text) (size : ℕ) (other_user : Text) (db db' : Store)
    (a : Allocation)
    → allocate id now user size db ≡ ok (a, db')
    → active_bytes user db.allocations + size < 2 ^ 63
    → ((u : User) × (get_user user db ≡ ok u) × (active_bytes user db'.allocations ≤ u.quota_bytes))
      × (active_bytes other_user db'.allocations
          ≡ (if eqb user other_user then size else 0) + active_bytes other_user db.allocations)
unfolding allocate insert_allocation get_user sum_active_allocation_bytes active_bytes
allocate_lem id now user size other_user db db' a done small =
    elim (Option-cases (find user_key user db.users)) [
      | inl e ↦ ground (arith, e, done)
      | inr (u, e) ↦
          let shape : db'.allocations ≡ new_allocation id user size now ∷ db.allocations =
            ground (arith, e, done) in
          rw shape
            ((u, ground (arith, e), ground (arith, e, done, small, eqb_refl user)), ground arith)
    ]

-- The store with a new allocation.
abbrev pub with_new : Text → Text → ℕ → ℕ → Store → Store
with_new id user size now db = record db {
  allocations = new_allocation id user size now ∷ db.allocations;
}

-- The sum of a user's bytes is not readable any more, and no allocation is.
allocate_unreadable :
    (id : Text) (now : ℕ) (user : Text) (size : ℕ) (db : Store) (a : Allocation) (db' : Store)
    → 2 ^ 63 ≤ active_bytes user db.allocations
    → allocate id now user size db ≢ ok (a, db')
unfolding allocate sum_active_allocation_bytes get_user
allocate_unreadable id now user size db a db' big done =
    elim (Option-cases (find user_key user db.users)) [
      | inl e ↦ ground (arith, e, done)
      | inr (u, e) ↦ ground (arith, e, done, big)
    ]

-- Where a user's active bytes fit an int64 and the fresh allocation that comes next makes them overflow it, that one
-- succeeds whatever the quota is, and after it no allocation of the user does.
pub allocate_overflow :
    (id : Text) (now : ℕ) (user : Text) (size : ℕ) (db : Store) (u : User)
    → get_user user db ≡ ok u
    → find allocation_id id db.allocations ≡ none
    → size < 2 ^ 63
    → active_bytes user db.allocations < 2 ^ 63
    → 2 ^ 63 ≤ active_bytes user db.allocations + size
    → (allocate id now user size db
        ≡ ok (new_allocation id user size now, with_new id user size now db))
      × ((id' : Text) (now' size' : ℕ) (a : Allocation) (db' : Store)
          → allocate id' now' user size' (with_new id user size now db) ≢ ok (a, db'))
unfolding allocate insert_allocation get_user sum_active_allocation_bytes active_bytes
allocate_overflow id now user size db u known fresh small fits big = (
  ground (arith, known, fresh, small, fits, big),
  λ id' now' size' a db'.
      allocate_unreadable id' now' user size' (with_new id user size now db) a db'
        (ground (arith, big, eqb_refl user)),
)
