-- ===== src/DataPlane/Cleared.antt =====
-- A write in a session that was cleared, at the handlers of cmd/orlop-server/dataplane_server.go.
use orlop.Prelude.{
  ℕ, Text, Bool, none, some, List, [], ◌++◌, ◌≡◌, ◌≢◌, refl, arith, Outcome, ok, err, true, false,
}
use orlop.Fence.{MountLeaseRegistry, active_lease, clear}
use orlop.Fence.Resurrection.{Call, run}
use orlop.Lease.{LeaseManager, YieldStep, proceed, fail, push_and_wait, wait}
use orlop.Session.{Denial, mount_prefix}
use orlop.Session.Cleared.{is_admitted, cleared_session_is_denied}
use orlop.Manifest.Rename.Subtree.{Sqlite}
use orlop.DataPlane.{
  Policy, Caller, ServerState, SessionTag, Reply, authorize_path, once_fenced,
  resolve_session_fence,
}
use orlop.DataPlane.Puts.{Arrival, PutRequest, only_if, commit_put, once_yielded, yield_then_put}
use orlop.DataPlane.Writes.{
  handle_manifest_put, handle_manifest_delete, handle_manifest_rename, handle_link, handle_setattr,
  handle_mknod,
}
use orlop.DataPlane.Serve.{
  Request, op_manifest_put, op_manifest_delete, op_manifest_rename, op_link, op_dir_create,
  op_dir_remove, op_setattr, op_symlink, op_mknod, op_journal_revert_path, handle, resume,
}

-- The session that a request names; a revert names none.
abbrev no_tag : SessionTag
no_tag = record { session_id = none; allocation_id = none }

abbrev pub tag_of : Request → SessionTag
tag_of (op_manifest_put q) = q.tag
tag_of (op_manifest_delete p expected tag) = tag
tag_of (op_manifest_rename q) = q.tag
tag_of (op_link from to tag) = tag
tag_of (op_setattr q) = q.tag
tag_of (op_mknod p mode rdev tag) = tag
tag_of (op_dir_create p mode session) = record { session_id = session; allocation_id = none }
tag_of (op_dir_remove p session) = record { session_id = session; allocation_id = none }
tag_of (op_symlink p target mode tag) = tag
tag_of (op_journal_revert_path clock allocation ps force) = no_tag

-- The requests whose handlers check the session that they name. Those that make or remove a directory and those that make
-- a symbolic link do not, and a revert names none.
abbrev pub checks_session : Request → Bool
checks_session (op_dir_create p mode session) = false
checks_session (op_dir_remove p session) = false
checks_session (op_symlink p target mode tag) = false
checks_session (op_journal_revert_path clock allocation ps force) = false
checks_session _ = true

denied-unchanged :
    (f : Text → ServerState → ServerState × Reply) (s : ServerState)
    (r : LeaseManager × MountLeaseRegistry × Outcome Denial Text)
    → is_admitted r ≡ false
    → (once_fenced f s r).0.db ≡ s.db
denied-unchanged f s (m, r, ok hex) e = ground (arith, e)
denied-unchanged f s (m, r, err x) e = refl

-- The session that `was` the active one of the allocation, when the registry was `r`, and that was cleared then.
module _ (r : MountLeaseRegistry) (allocation lease_hex : Text) (cs : List Call)
    (was : active_lease r allocation ≡ lease_hex) (named : lease_hex ≢ []) where
  abbrev cleared_tag : SessionTag
  cleared_tag = record {
    session_id = some (mount_prefix ++ lease_hex);
    allocation_id = some allocation;
  }

  fenced-unchanged :
      (caller : Caller) (now : ℕ) (f : Text → ServerState → ServerState × Reply) (s : ServerState)
      → s.mount_leases ≡ run (clear r allocation) cs
      → (resolve_session_fence caller now cleared_tag f s).0.db ≡ s.db
  unfolding resolve_session_fence
  fenced-unchanged caller now f s e = rw e (
      denied-unchanged f s _ (
        cleared_session_is_denied s.leases r caller.agent_id caller.conn now allocation lease_hex cs
          was named))

  only_if-unchanged :
      (b : Bool) (f : ServerState → ServerState × Reply) (s : ServerState)
      → (f s).0.db ≡ s.db
      → (only_if b f s).0.db ≡ s.db
  only_if-unchanged true f s e = e
  only_if-unchanged false f s e = refl

  once_yielded-unchanged :
      (a : Arrival) (q : PutRequest) (s : ServerState) (y : LeaseManager × YieldStep)
      → q.tag ≡ cleared_tag
      → s.mount_leases ≡ run (clear r allocation) cs
      → (once_yielded a q s y).0.db ≡ s.db
  unfolding commit_put
  once_yielded-unchanged a q s (m, proceed) t e =
      rw t (fenced-unchanged a.caller a.now _ (record s { leases = m }) e)
  once_yielded-unchanged a q s (m, fail x) t e = refl
  once_yielded-unchanged a q s (m, push_and_wait conn id channel held) t e = refl
  once_yielded-unchanged a q s (m, wait channel) t e = refl

  module _ (sql : Sqlite) (glob : Text → Text → Bool) (policy : Policy) (a : Arrival) where
    fenced_handler :
        (b : Bool) (tag : SessionTag) (f : Text → ServerState → ServerState × Reply)
        (s : ServerState)
        → tag ≡ cleared_tag
        → s.mount_leases ≡ run (clear r allocation) cs
        → (only_if b (resolve_session_fence a.caller a.now tag f) s).0.db ≡ s.db
    fenced_handler b tag f s t e =
        only_if-unchanged b _ s (rw t (fenced-unchanged a.caller a.now f s e))

    -- A session that was active for its allocation when that was cleared changes the database no more by a put, a delete,
    -- a rename, a link, a setattr or a mknod that names it, whatever else was installed or cleared since, nor by such a
    -- put that waited for a lease. Of requests that make or remove a directory or make a symbolic link nothing is said.
    pub cleared_session_writes_nothing :
        (q : Request) (s : ServerState)
        → checks_session q ≡ true
        → tag_of q ≡ record {
          session_id = some (mount_prefix ++ lease_hex);
          allocation_id = some allocation;
        }
        → s.mount_leases ≡ run (clear r allocation) cs
        → ((handle sql glob policy a q s).0.db ≡ s.db) × ((resume a q s).0.db ≡ s.db)
    unfolding handle resume handle_manifest_put handle_manifest_delete handle_manifest_rename
        handle_link handle_setattr handle_mknod yield_then_put
    cleared_session_writes_nothing (op_manifest_put q) s c t e =
        let waited = once_yielded-unchanged a q s _ t e in
        (
          only_if-unchanged (authorize_path glob policy a.caller q.path) (yield_then_put a q) s
              waited,
          waited,
        )
    cleared_session_writes_nothing (op_manifest_delete p expected tag) s c t e =
        (fenced_handler _ tag _ s t e, refl)
    cleared_session_writes_nothing (op_manifest_rename q) s c t e =
        (fenced_handler _ q.tag _ s t e, refl)
    cleared_session_writes_nothing (op_link from to tag) s c t e =
        (fenced_handler _ tag _ s t e, refl)
    cleared_session_writes_nothing (op_setattr q) s c t e = (fenced_handler _ q.tag _ s t e, refl)
    cleared_session_writes_nothing (op_mknod p mode rdev tag) s c t e =
        (fenced_handler _ tag _ s t e, refl)
    cleared_session_writes_nothing (op_dir_create p mode session) s c t e = ground (arith, c)
    cleared_session_writes_nothing (op_dir_remove p session) s c t e = ground (arith, c)
    cleared_session_writes_nothing (op_symlink p target mode tag) s c t e = ground (arith, c)
    cleared_session_writes_nothing (op_journal_revert_path clock al ps force) s c t e =
        ground (arith, c)
