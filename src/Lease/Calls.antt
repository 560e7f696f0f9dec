-- ===== src/Lease/Calls.antt =====
-- The rest of the manager's calls: refresh, release, the sweep and the end of a connection.
use orlop.Prelude.{
  Outcome, ok, err, ℕ, ◌+◌, Text, Option, none, some, List, [], ◌∷◌, ◌||◌, ltb, not, length, ◌==◌,
  is_some, if◌then◌else◌,
}
use orlop.Lease.{LeaseManager, LeaseError, lease_unknown, store, remove_locked}

abbrev pub Result : Type 0 → Type 0
Result A = Outcome LeaseError A

-- The record that `conn` may refresh or release under `id`: bound to it, or to no connection.
unfoldable pub bound_record : LeaseManager → Text → ℕ → Option ℕ
bound_record m id conn = elim (m.by_id id) [
  | none ↦ none
  | some q ↦ if (m.records q).conn_id == conn || (m.records q).conn_id == 0 then some q else none
]

-- The result is the new expiry. An id is 16 bytes.
unfoldable pub refresh : LeaseManager → Text → ℕ → ℕ → LeaseManager × Result ℕ
refresh m id conn now =
    if not (length id == 16) then (m, err lease_unknown) else (elim (bound_record m id conn) [
      | none ↦ (m, err lease_unknown)
      | some q ↦ (
        record m {
          records = store m.records q (record (m.records q) { expires_at = now + m.cfg.ttl });
        },
        ok (now + m.cfg.ttl),
      )
    ])

unfoldable pub release : LeaseManager → Text → ℕ → LeaseManager × Result (Unit {0})
release m id conn =
    if not (length id == 16) then (m, err lease_unknown) else (elim (bound_record m id conn) [
      | none ↦ (m, err lease_unknown)
      | some q ↦ (remove_locked m q, ok tt)
    ])

-- The body of the loop of `SweepExpired`, at the record of `id`.
unfoldable pub sweep_one : LeaseManager → ℕ → Text → LeaseManager
sweep_one m now id = elim (m.by_id id) [
  | none ↦ m
  | some q ↦
      if is_some (m.records q).revoking
      then m
      else if ltb now (m.records q).expires_at
      then m
      else remove_locked m q
]

-- `order` is the order in which the range visits the ids.
unfoldable pub sweep_expired : LeaseManager → ℕ → List Text → LeaseManager
sweep_expired m now [] = m
sweep_expired m now (id ∷ order) = sweep_expired (sweep_one m now id) now order

-- The body of the loop of `ReleaseAllForConn`: a range skips an id that was deleted meanwhile.
unfoldable pub release_one : LeaseManager → ℕ → Text → LeaseManager
release_one m conn id =
    if m.by_conn conn id then (elim (m.by_id id) [ none ↦ m | some q ↦ remove_locked m q ]) else m

unfoldable pub release_all_for_conn : LeaseManager → ℕ → List Text → LeaseManager
release_all_for_conn m conn [] = m
release_all_for_conn m conn (id ∷ order) = release_all_for_conn (release_one m conn id) conn order
