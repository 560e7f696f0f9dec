-- ===== src/Control/Allocations/Owners.antt =====
-- Who may act on an allocation: the answers of bind and revoke on every branch.
use orlop.Prelude.{
  ℕ, Text, true, false, none, some, not, eqb, eqb_refl, is_some, if◌then◌else◌, ok, err, ◌≡◌, refl,
  find, find-update_key, Option-cases, arith, inl, inr, update_key,
}
use orlop.Prelude.Map.{is_empty}
use orlop.Control.Store.{
  Allocation, Store, Result, not_found, revoked, wrong_user, already_bound, allocation_id,
  get_allocation,
}
use orlop.Control.Store.Disks.{update_where, revoke_allocation, coalesce}
use orlop.Control.Allocations.{revoke, get_for_user}

abbrev bound_to : Text → ℕ → Allocation → Allocation
bound_to agent now a = record a { bound_agent_id = some agent; bound_at = some now }

-- What a bind is to answer.
unfoldable pub bind_contract : ℕ → Text → Text → Text → Store → Result (Allocation × Store)
bind_contract now id user agent db = elim (find allocation_id id db.allocations) [
  | none ↦ err not_found
  | some a ↦
      if not (eqb a.user_id user)
      then err wrong_user
      else if is_some a.revoked_at
      then err revoked
      else if is_some a.bound_agent_id
      then err already_bound
      else ok (
        bound_to agent now a,
        record db { allocations = update_key allocation_id id (bound_to agent now) db.allocations },
      )
]

abbrev revoked_from : ℕ → Allocation → Allocation
revoked_from now a = record a { revoked_at = coalesce a.revoked_at now }

revoked_twice :
    (now now' : ℕ) (a : Allocation) → revoked_from now' (revoked_from now a) ≡ revoked_from now a
revoked_twice now now' a = ground (arith, Option-cases a.revoked_at)

revoke-done :
    (now : ℕ) (id user : Text) (db db' : Store) (a : Allocation)
    → revoke now id user db ≡ ok (a, db')
    → (b : Allocation) × (a ≡ revoked_from now b)
      × (get_allocation id db' ≡ ok a)
      × (eqb b.user_id user ≡ true)
      × (is_empty b.user_id ≡ false)
unfolding revoke revoke_allocation update_where get_allocation
revoke-done now id user db db' a done = elim (Option-cases (find allocation_id id db.allocations)) [
  | inl e ↦ ground (arith, e, done)
  | inr (b, e) ↦ (
    b,
    ground (arith, e, done),
    ground (
      arith,
      e,
      done,
      eqb_refl id,
      find-update_key allocation_id id id (revoked_from now) db.allocations (λ _. refl),
    ),
    ground (arith, e, done),
    ground (arith, e, done),
  )
]

revoke-again :
    (now : ℕ) (id user : Text) (db : Store) (a : Allocation)
    → get_allocation id db ≡ ok a
    → eqb a.user_id user ≡ true
    → is_empty a.user_id ≡ false
    → revoked_from now a ≡ a
    → (db' : Store) × (revoke now id user db ≡ ok (a, db')) × (get_allocation id db' ≡ ok a)
unfolding revoke revoke_allocation update_where get_allocation
revoke-again now id user db a here owned named same = (
  record db { allocations = update_key allocation_id id (revoked_from now) db.allocations },
  ground (arith, here, owned, named, same, Option-cases (find allocation_id id db.allocations)),
  ground (
    arith,
    here,
    same,
    eqb_refl id,
    Option-cases (find allocation_id id db.allocations),
    find-update_key allocation_id id id (revoked_from now) db.allocations (λ _. refl),
  ),
)

-- A revocation that succeeds shuts the allocation for its owner, and a second one, at any later time, answers and leaves
-- the same.
pub revoke_is_final :
    (now now' : ℕ) (id user : Text) (db db' : Store) (a : Allocation)
    → revoke now id user db ≡ ok (a, db')
    → (get_for_user id user db' ≡ err revoked)
      × (get_allocation id db' ≡ ok a)
      × ((db'' : Store) × (revoke now' id user db' ≡ ok (a, db''))
          × (get_allocation id db'' ≡ ok a))
unfolding get_for_user
revoke_is_final now now' id user db db' a done =
    let (b, shape, here, owned, named) = revoke-done now id user db db' a done in
    (
      ground (arith, here, shape, owned, Option-cases b.revoked_at),
      here,
      revoke-again now' id user db' a here (ground (arith, shape, owned))
          (ground (arith, shape, named)) (rw shape (revoked_twice now now' b)),
    )
