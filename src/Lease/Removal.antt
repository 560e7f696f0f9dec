-- ===== src/Lease/Removal.antt =====
-- Which leases the sweep and the end of a connection remove: exactly those they are meant to.
use orlop.Prelude.{
  ℕ, Text, Bool, false, none, some, List, [], ◌∷◌, ◌≡◌, refl, ◌&&◌, not, ltb, arith, eqb, eqb_iff,
  is_some, Option-cases, inl, inr, contains, if◌then◌else◌,
}
use orlop.Lease.{LeaseManager, remove_locked}
use orlop.Lease.Calls.{sweep_one, sweep_expired, release_one, release_all_for_conn}
use orlop.Lease.Invariant.{Inv}
use orlop.Lease.Preservation.{sweep_one-Inv, release_one-Inv}

module _ (m : LeaseManager) (v : Inv m) (i : Text) (q : ℕ) (at : m.by_id i ≡ some q) where
  pub by_id-remove_locked :
      (j : Text) → (remove_locked m q).by_id j ≡ (if eqb i j then none else m.by_id j)
  unfolding remove_locked
  by_id-remove_locked j = ground (arith, v.id_id i q at)

-- Past its expiry and not being revoked.
abbrev pub is_expired : LeaseManager → ℕ → Text → Bool
is_expired m now i = elim (m.by_id i) [
  | none ↦ false
  | some q ↦ not (is_some (m.records q).revoking) && not (ltb now (m.records q).expires_at)
]

module _ (m : LeaseManager) (v : Inv m) (now : ℕ) (i : Text) where
  by_id-sweep_one :
      (j : Text)
      → (sweep_one m now i).by_id j ≡ (if eqb i j && is_expired m now i then none else m.by_id j)
  unfolding sweep_one
  by_id-sweep_one j = elim (Option-cases (m.by_id i)) [
    | inl e ↦ ground (arith, e)
    | inr (q, e) ↦ ground (arith, e, by_id-remove_locked m v i q e j)
  ]

  is_expired-sweep_one :
      (j : Text) → is_expired (sweep_one m now i) now j ≡ (not (eqb i j) && is_expired m now j)
  unfolding sweep_one remove_locked
  is_expired-sweep_one j = elim (Option-cases (m.by_id i)) [
    | inl e ↦ ground (arith, e, eqb_iff i j)
    | inr (q, e) ↦ elim (Option-cases (m.by_id j)) [
      | inl f ↦ ground (arith, e, f, eqb_iff i j, v.id_id i q e, eqb_iff (m.records q).id j)
      | inr (x, f) ↦
          ground
            (arith, e, f, eqb_iff i j, v.id_id i q e, v.id_id j x f, eqb_iff (m.records q).id j)
    ]
  ]

-- The sweep removes exactly the expired leases that no revoke is pending for, provided that the range
-- visits every id; every other id keeps its lease.
pub by_id-sweep_expired :
    (m : LeaseManager) (now : ℕ) (order : List Text) (j : Text)
    → Inv m
    → (sweep_expired m now order).by_id j
      ≡ (if contains order j && is_expired m now j then none else m.by_id j)
unfolding sweep_expired
by_id-sweep_expired m now [] j v = refl
by_id-sweep_expired m now (i ∷ order) j v = ground (
  arith,
  by_id-sweep_expired (sweep_one m now i) now order j (sweep_one-Inv m v now i),
  by_id-sweep_one m v now i j,
  is_expired-sweep_one m v now i j,
  eqb_iff i j,
)

module _ (m : LeaseManager) (v : Inv m) (conn : ℕ) (i : Text) where
  by_id-release_one :
      (j : Text)
      → (release_one m conn i).by_id j ≡ (if eqb i j && m.by_conn conn i then none else m.by_id j)
  unfolding release_one
  by_id-release_one j = elim (Option-cases (m.by_id i)) [
    | inl e ↦ ground (arith, e, v.conns conn i)
    | inr (q, e) ↦ ground (arith, e, by_id-remove_locked m v i q e j)
  ]

  by_conn-release_one :
      (j : Text) → (release_one m conn i).by_conn conn j ≡ (not (eqb i j) && m.by_conn conn j)
  unfolding release_one remove_locked
  by_conn-release_one j = elim (Option-cases (m.by_id i)) [
    | inl e ↦ ground (arith, e, v.conns conn i, eqb_iff i j)
    | inr (q, e) ↦ ground (arith, e, v.conns conn i, v.id_id i q e, eqb_iff i j)
  ]

-- The end of a connection removes exactly the leases bound to it, provided that the range visits them
-- all; every other id keeps its lease.
pub by_id-release_all_for_conn :
    (m : LeaseManager) (conn : ℕ) (order : List Text) (j : Text)
    → Inv m
    → (release_all_for_conn m conn order).by_id j
      ≡ (if contains order j && m.by_conn conn j then none else m.by_id j)
unfolding release_all_for_conn
by_id-release_all_for_conn m conn [] j v = refl
by_id-release_all_for_conn m conn (i ∷ order) j v = ground (
  arith,
  by_id-release_all_for_conn (release_one m conn i) conn order j (release_one-Inv m v conn i),
  by_id-release_one m v conn i j,
  by_conn-release_one m v conn i j,
  eqb_iff i j,
)
