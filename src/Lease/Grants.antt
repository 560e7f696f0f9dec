-- ===== src/Lease/Grants.antt =====
-- Who gets a lease, who waits, and what a takeover does to the lease before it.
use orlop.Prelude.{
  err, ℕ, Text, true, false, Option, none, some, ◌≡◌, ◌≢◌, refl, ◌&&◌, arith, eqb, eqb_iff,
}
use orlop.Lease.{
  LeaseManager, LeaseMode, shared_read, exclusive_write, GrantResult, lease_unknown, same_mode,
  install_locked, remove_locked, grant_locked,
}
use orlop.Lease.Calls.{bound_record, refresh, release}
use orlop.Lease.Invariant.{Inv}

-- The lease that `id` names is on `path`, for `holder`, on the connection `conn`, in `mode`.
pub record Holds (m : LeaseManager) (id holder : Text) (conn : ℕ) (path : Text) (mode : LeaseMode)
    : Type 0 where
  pub record_of : ℕ
  pub found : m.by_id id ≡ some record_of
  pub on_path : m.by_path path ≡ some record_of
  pub by_holder : (m.records record_of).holder ≡ holder
  pub on_conn : (m.records record_of).conn_id ≡ conn
  pub in_mode : (m.records record_of).mode ≡ mode

same_mode_refl : (a : LeaseMode) → same_mode a a ≡ true
same_mode_refl shared_read = refl
same_mode_refl exclusive_write = refl

module _ (m : LeaseManager) (v : Inv m) (holder : Text) (conn : ℕ) (path : Text) (mode : LeaseMode)
    (id : Text) (now : ℕ) where
  -- What the locked section of a grant may come to.
  abbrev pub GrantOutcome : LeaseManager × Option GrantResult → Type 0
  GrantOutcome (n, some r) = Holds n r.lease_id holder conn path mode
  GrantOutcome (n, none) =
      (n ≡ m)
      × (q : ℕ) × (m.by_path path ≡ some q)
      × ((eqb (m.records q).holder holder && same_mode (m.records q).mode mode) ≡ false)

-- A takeover: the holder's lease is bound to a live connection, and the grant comes on another one.
pub record Superseded (m : LeaseManager) (q : ℕ) (holder : Text) (conn : ℕ) (path : Text)
    (mode : LeaseMode) : Type 0 where
  pub at_path : m.by_path path ≡ some q
  pub same_holder : (m.records q).holder ≡ holder
  pub same_mode_of : (m.records q).mode ≡ mode
  pub other_conn : (m.records q).conn_id ≢ conn
  pub had_conn : (m.records q).conn_id ≢ 0

module _ (m : LeaseManager) (v : Inv m) (q : ℕ) (holder : Text) (conn : ℕ) (path : Text)
    (mode : LeaseMode) (id : Text) (now : ℕ) (s : Superseded m q holder conn path mode)
    (unused : m.by_id id ≡ none) where
  superseded_lookup : (grant_locked m holder conn path mode id now).0.by_id (m.records q).id ≡ none
  unfolding grant_locked install_locked remove_locked
  superseded_lookup =
      rw (s.at_path, grant_locked)
        (ground (
          arith,
          s.same_holder,
          s.same_mode_of,
          s.other_conn,
          s.had_conn,
          eqb_iff (m.records q).holder holder,
          same_mode_refl mode,
          eqb_iff (m.records q).id id,
          eqb_iff (m.records q).id (m.records q).id,
          unused,
          v.path_id path q s.at_path,
        ))

  -- After a takeover the id of the old lease is dead: from any connection and at any time, refreshing
  -- or releasing it is refused as unknown and leaves the manager, the new lease included, as it is.
  pub superseded_id_is_dead :
      (c later : ℕ)
      → let n = (grant_locked m holder conn path mode id now).0 in
        (refresh n (m.records q).id c later ≡ (n, err lease_unknown))
        × (release n (m.records q).id c ≡ (n, err lease_unknown))
  unfolding refresh release bound_record
  superseded_id_is_dead c later = (
    rw (superseded_lookup, bound_record) (ground arith),
    rw (superseded_lookup, bound_record) (ground arith),
  )
