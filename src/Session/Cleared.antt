-- ===== src/Session/Cleared.antt =====
-- A session that was cleared, and another spelling of it.
use orlop.Prelude.{
  ℕ, ◌++◌, Text, Bool, true, false, some, List, [], ◌∷◌, Outcome, ok, err, ◌≡◌, ◌≢◌, refl, arith,
  Option-cases, Bool-cases, inl, inr,
}
use orlop.Prelude.Map.{is_empty}
use orlop.Paths.{has_prefix}
use orlop.Fence.{MountLeaseRegistry, active_lease, clear, state_of}
use orlop.Fence.Resurrection.{Call, run, cleared_never_resurrects, install_other-clear}
use orlop.Lease.{LeaseManager, authorize_or_rebind_session}
use orlop.Lease.Sessions.{may_write}
use orlop.Session.{Denial, mount_prefix, decode_lease_hex, check_session_fence}

abbrev pub is_admitted : LeaseManager × MountLeaseRegistry × Outcome Denial Text → Bool
is_admitted (m, r, ok lease_hex) = true
is_admitted (m, r, err e) = false

-- Whatever leases the lease manager has, and whatever installs and clears came after, a write in a session that was
-- active for its allocation when that was cleared is denied.
pub cleared_session_is_denied :
    (m : LeaseManager) (r : MountLeaseRegistry) (agent : Text) (conn now : ℕ)
    (allocation lease_hex : Text) (cs : List Call)
    → active_lease r allocation ≡ lease_hex
    → lease_hex ≢ []
    → is_admitted (
        check_session_fence m
          (run (clear r allocation) cs)
          agent
          conn
          now
          (mount_prefix ++ lease_hex)
          allocation)
      ≡ false
unfolding check_session_fence has_prefix
cleared_session_is_denied m r agent conn now allocation lease_hex cs was named =
    let barred = (cleared_never_resurrects r allocation lease_hex cs was named).0 in
    elim (Option-cases (decode_lease_hex lease_hex)) [
      | inl e ↦ ground (arith, e, barred)
      | inr (id, e) ↦
          ground
            (arith, e, barred, Bool-cases (authorize_or_rebind_session m id agent conn now).1.0)
    ]

decoded-named : (s id : Text) → decode_lease_hex s ≡ some id → is_empty s ≡ false
unfolding decode_lease_hex
decoded-named [] id e = ground (arith, e)
decoded-named (c ∷ s) id e = refl

authorized_of_may_write :
    (m : LeaseManager) (id agent : Text) (conn now : ℕ)
    → may_write m id agent conn now ≡ true
    → (authorize_or_rebind_session m id agent conn now).1.0 ≡ true
unfolding authorize_or_rebind_session
authorized_of_may_write m id agent conn now writes =
    ground (arith, writes, Option-cases (m.by_id id))

-- Another spelling of a cleared session, which decodes to the same lease, is admitted, while the lease itself still lets
-- the agent write on the connection and that spelling was not fenced before.
pub other_spelling_is_admitted :
    (m : LeaseManager) (r : MountLeaseRegistry) (agent : Text) (conn now : ℕ)
    (allocation lease_hex other id : Text)
    → active_lease r allocation ≡ lease_hex
    → is_empty allocation ≡ false
    → decode_lease_hex lease_hex ≡ some id
    → decode_lease_hex other ≡ decode_lease_hex lease_hex
    → other ≢ lease_hex
    → (state_of (r allocation)).fenced other ≡ false
    → may_write m id agent conn now ≡ true
    → is_admitted (
        check_session_fence m
          (clear r allocation)
          agent
          conn
          now
          (mount_prefix ++ other)
          allocation)
      ≡ true
unfolding check_session_fence has_prefix
other_spelling_is_admitted m r agent conn now allocation lease_hex other id was named decoded
      spelled differ free writes =
    let long : is_empty other ≡ false = decoded-named other id (ground (arith, decoded, spelled)) in
    let installed = install_other-clear r allocation lease_hex other was named long differ free in
    let authorized = authorized_of_may_write m id agent conn now writes in
    ground (arith, decoded, spelled, installed, authorized, long)
