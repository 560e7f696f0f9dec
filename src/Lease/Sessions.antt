-- ===== src/Lease/Sessions.antt =====
-- Reconnects, and every interleaving of the manager's sections.
use orlop.Prelude.{
  ℕ, ◌<◌, Text, Bool, true, false, none, some, List, [], ◌∷◌, ◌≡◌, ◌≢◌, refl, ◌∙◌, ◌&&◌, ◌||◌, not,
  ltb, arith, eqb, eqb_iff, ◌==◌, is_some, Option-cases, Bool-cases, inl, inr,
}
use orlop.Lease.{
  LeaseManager, LeaseConfig, LeaseMode, new_lease_manager, grant_locked, yield_check, yield_timeout,
  authorize_or_rebind_session, rebind, held_by_conn,
}
use orlop.Lease.Calls.{refresh, release, sweep_expired, release_all_for_conn}
use orlop.Lease.Invariant.{Inv, new-Inv}
use orlop.Lease.Preservation.{
  grant_locked-Inv, yield_check-Inv, yield_timeout-Inv, authorize-Inv, refresh-Inv, release-Inv,
  sweep_expired-Inv, release_all_for_conn-Inv,
}
use orlop.Lease.Removal.{by_id-release_all_for_conn}

-- The conditions under which a session's request may go on.
abbrev pub may_write : LeaseManager → Text → Text → ℕ → ℕ → Bool
may_write m id holder conn now = elim (m.by_id id) [
  | none ↦ false
  | some q ↦
      eqb (m.records q).holder holder
      && ltb now (m.records q).expires_at
      && not (is_some (m.records q).revoking)
      && not (ltb conn (m.records q).conn_id)
]

module _ (m : LeaseManager) (v : Inv m) (id holder : Text) (conn now : ℕ) where
  -- An authorized session is bound to the connection; a refused request changes nothing.
  abbrev pub AuthorizeOutcome : LeaseManager × (Bool × Bool) → Type 0
  AuthorizeOutcome (n, (true, rebound)) = held_by_conn n id conn ≡ true
  AuthorizeOutcome (n, (false, rebound)) = n ≡ m

  authorize-outcome : AuthorizeOutcome (authorize_or_rebind_session m id holder conn now)
  unfolding authorize_or_rebind_session rebind held_by_conn
  authorize-outcome = elim (Option-cases (m.by_id id)) [
    | inl e ↦ rw (e, authorize_or_rebind_session) refl
    | inr (q, e) ↦
        rw (e, authorize_or_rebind_session)
          (elim (Bool-cases (
            not (eqb (m.records q).holder holder)
            || not (ltb now (m.records q).expires_at)
            || is_some (m.records q).revoking)) [
              | inl refused ↦ rw refused refl
              | inr fits ↦ rw fits (elim (Bool-cases ((m.records q).conn_id == conn)) [
                | inl same ↦ rw same (ground (arith, e, same))
                | inr other ↦ rw other (elim (Bool-cases (ltb conn (m.records q).conn_id)) [
                  | inl old ↦ rw old refl
                  | inr successor ↦ rw successor (ground (arith, e))
                ])
              ])
            ])
  ]

  -- A session is authorized exactly when its lease is there, belongs to the holder, is unexpired and
  -- not being revoked, and the connection is no older than the one that it is bound to; then the lease
  -- is bound to the connection afterwards. A refused request changes nothing.
  pub authorize_lem :
      ((authorize_or_rebind_session m id holder conn now).1.0 ≡ may_write m id holder conn now)
      × AuthorizeOutcome (authorize_or_rebind_session m id holder conn now)
  unfolding authorize_or_rebind_session
  authorize_lem = (ground (arith, Option-cases (m.by_id id)), authorize-outcome)

  -- After a session has moved to a successor connection, the end of the connection that it was bound
  -- to before does not remove its lease, in whatever order the range goes.
  pub rebound_survives :
      (old : ℕ) (q : ℕ) (order : List Text)
      → m.by_id id ≡ some q
      → (m.records q).conn_id ≡ old
      → old ≢ conn
      → (authorize_or_rebind_session m id holder conn now).1.0 ≡ true
      → (release_all_for_conn (authorize_or_rebind_session m id holder conn now).0 old order).by_id
          id
        ≡ some q
  unfolding authorize_or_rebind_session rebind
  rebound_survives old q order e b ne a =
      by_id-release_all_for_conn (authorize_or_rebind_session m id holder conn now).0 old order id
        (authorize-Inv m v id holder conn now)
      ∙ ground (arith, e, b, ne, a, v.id_id id q, eqb_iff id id, v.conns old id)

-- A section of the manager's code that some connection's goroutine runs.
pub data Call : Type 0 where
  grants : (holder : Text) (conn : ℕ) (path : Text) (mode : LeaseMode) (id : Text) → Call
  yields : (requester path : Text) → Call
  evicts : (path : Text) (held : ℕ) → Call
  authorizes : (id holder : Text) (conn : ℕ) → Call
  refreshes : (id : Text) (conn : ℕ) → Call
  releases : (id : Text) (conn : ℕ) → Call
  sweeps : (order : List Text) → Call
  disconnects : (conn : ℕ) (order : List Text) → Call

-- A call at a time.
unfoldable pub step : LeaseManager → ℕ × Call → LeaseManager
step m (now, grants holder conn path mode id) = (grant_locked m holder conn path mode id now).0
step m (now, yields requester path) = (yield_check m requester path now).0
step m (now, evicts path held) = yield_timeout m path held
step m (now, authorizes id holder conn) = (authorize_or_rebind_session m id holder conn now).0
step m (now, refreshes id conn) = (refresh m id conn now).0
step m (now, releases id conn) = (release m id conn).0
step m (now, sweeps order) = sweep_expired m now order
step m (now, disconnects conn order) = release_all_for_conn m conn order

unfoldable pub run : LeaseManager → List (ℕ × Call) → LeaseManager
run m [] = m
run m (c ∷ cs) = run (step m c) cs

-- The random id of a grant is not in use, and the ids of live connections start at 1.
abbrev pub Fits : LeaseManager → Call → Type 0
Fits m (grants holder conn path mode id) = (m.by_id id ≡ none) × (0 < conn)
Fits m _ = Unit {0}

abbrev pub AllFit : LeaseManager → List (ℕ × Call) → Type 0
AllFit m [] = Unit {0}
AllFit m ((now, c) ∷ cs) = Fits m c × AllFit (step m (now, c)) cs

step-Inv : (m : LeaseManager) (now : ℕ) (c : Call) → Inv m → Fits m c → Inv (step m (now, c))
unfolding step
step-Inv m now (grants holder conn path mode id) v f =
    grant_locked-Inv m v holder conn path mode id now f.0 f.1
step-Inv m now (yields requester path) v f = yield_check-Inv m v requester path now
step-Inv m now (evicts path held) v f = yield_timeout-Inv m v path held
step-Inv m now (authorizes id holder conn) v f = authorize-Inv m v id holder conn now
step-Inv m now (refreshes id conn) v f = refresh-Inv m v id conn now
step-Inv m now (releases id conn) v f = release-Inv m v id conn
step-Inv m now (sweeps order) v f = sweep_expired-Inv m now order v
step-Inv m now (disconnects conn order) v f = release_all_for_conn-Inv m conn order v

run-Inv : (m : LeaseManager) (cs : List (ℕ × Call)) → Inv m → AllFit m cs → Inv (run m cs)
unfolding run
run-Inv m [] v f = v
run-Inv m ((now, c) ∷ cs) v f = run-Inv (step m (now, c)) cs (step-Inv m now c v f.0) f.1

-- After any interleaving of the manager's sections, from a new manager, the maps agree: a path has at
-- most one lease, each lease is found by its own id and path, and the index by connection lists
-- exactly the leases that are bound to each live connection.
pub run-new-Inv :
    (cfg : LeaseConfig) (cs : List (ℕ × Call))
    → AllFit (new_lease_manager cfg) cs
    → Inv (run (new_lease_manager cfg) cs)
run-new-Inv cfg cs f = run-Inv (new_lease_manager cfg) cs (new-Inv cfg) f

-- After any interleaving, two ids whose leases are on one path are the same id.
pub one_lease_per_path :
    (cfg : LeaseConfig) (cs : List (ℕ × Call)) (i j : Text) (q r : ℕ)
    → AllFit (new_lease_manager cfg) cs
    → (run (new_lease_manager cfg) cs).by_id i ≡ some q
    → (run (new_lease_manager cfg) cs).by_id j ≡ some r
    → ((run (new_lease_manager cfg) cs).records q).path
      ≡ ((run (new_lease_manager cfg) cs).records r).path
    → i ≡ j
one_lease_per_path cfg cs i j q r f a b p =
    let v = run-new-Inv cfg cs f in
    ground (arith, v.id_id i q, v.id_id j r, v.id_path i q, v.id_path j r)
