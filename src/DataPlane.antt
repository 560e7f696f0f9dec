-- ===== src/DataPlane.antt =====
-- What the write handlers of cmd/orlop-server/dataplane_server.go share: the policy of policy.go, the two checks of a
-- path, the check of a write's session, and the answers for the store's errors. Audit rows and metrics are left out.
pub mod Puts
pub mod Writes
pub mod Serve
pub mod Soundness
pub mod Gates
pub mod Retry
pub mod Cleared
use orlop.Prelude.{
  ℕ, Text, Bool, true, false, Option, none, some, List, [], ◌∷◌, ◌||◌, ◌&&◌, not, ◌==◌, length,
  if◌then◌else◌, Outcome, ok, err,
}
use orlop.Prelude.Map.{is_empty}
use orlop.Paths.{slash, check_agent_path}
use orlop.Fence.{MountLeaseRegistry}
use orlop.Lease.{LeaseManager, YieldStep}
use orlop.Session.{Denial, check_session_fence}
use orlop.Manifest.Db.{
  Db, Error, Result, manifest_not_found, parent_not_found, already_exists, version_conflict,
  not_empty, not_dir, is_dir,
}
use orlop.Manifest.Journal.{Writer}
use orlop.Manifest.Revert.{Conflict}
use orlop.Manifest.Journal.Query.{LastWriterRow, lookup_last_writer}

pub record Policy : Type 0 where
  pub allow : List Text
  pub deny : List Text

-- The caller's identity, and the connection that the request came on.
pub record Caller : Type 0 where
  pub agent_id : Text
  pub scoped_agent_id : Text
  pub conn : ℕ

-- What a tenant's requests read and change.
pub record ServerState : Type 0 where
  pub db : Db
  pub leases : LeaseManager
  pub mount_leases : MountLeaseRegistry

-- The optional fields that a write request carries for its session.
pub record SessionTag : Type 0 where
  pub session_id : Option Text
  pub allocation_id : Option Text

pub data Errno : Type 0 where
  eacces enoent eexist estale enotempty enotdir eisdir ebusy einval eio : Errno

pub record LastWriter : Type 0 where
  pub agent_id : Option Text
  pub session_id : Option Text
  pub at_unix_ms : ℕ

-- `SuggestedAction` is a text made from `current_version`, and left out.
pub record RecoveryHint : Type 0 where
  pub your_version : ℕ
  pub current_version : Option ℕ
  pub last_writer : Option LastWriter

-- `stale` is ESTALE with a hint; `waits` is a put that has to wait for a lease.
pub data Reply : Type 0 where
  done : Reply
  done_version : ℕ → Reply
  done_nlink : ℕ → Reply
  done_revert : (reverted : List Text) (conflicts : List Conflict) → Reply
  refused : Errno → Reply
  stale : RecoveryHint → Reply
  waits : YieldStep → Reply

-- The argument is `doublestar.Match`, false for a pattern that it has an error for.
module _ (glob : Text → Text → Bool) where
  unfoldable pub matches_any : List Text → Text → Bool
  matches_any [] p = false
  matches_any (g ∷ gs) p = if glob g p then true else matches_any gs p

  -- `Permits`
  unfoldable pub permits : Policy → Text → Bool
  unfolding matches_any
  permits policy p =
      if matches_any policy.deny p
      then false
      else if length policy.allow == 0
      then true
      else matches_any policy.allow p

-- The first loop of `policyPath`.
unfoldable pub trim_slashes : Text → Text
trim_slashes [] = []
trim_slashes (c ∷ cs) = if c == slash then trim_slashes cs else c ∷ cs

-- The second loop of `policyPath`.
unfoldable pub after_slash : Text → Text
after_slash [] = []
after_slash (c ∷ cs) = if c == slash then cs else after_slash cs

unfoldable pub policy_path : Text → Text
unfolding trim_slashes after_slash
policy_path p = after_slash (trim_slashes p)

-- `authorizePath`: the policy, and then the agent's subtree.
unfoldable pub authorize_path : (Text → Text → Bool) → Policy → Caller → Text → Bool
authorize_path glob policy caller p =
    if not (permits glob policy (policy_path p))
    then false
    else check_agent_path caller.scoped_agent_id p

-- The checks of the handlers with two paths: the policy for both, and then the agent's subtree for both.
unfoldable pub authorize_both : (Text → Text → Bool) → Policy → Caller → Text → Text → Bool
authorize_both glob policy caller from to =
    if not (permits glob policy (policy_path from)) || not (permits glob policy (policy_path to))
    then false
    else if not (check_agent_path caller.scoped_agent_id from)
    then false
    else check_agent_path caller.scoped_agent_id to

abbrev pub deref_session : Option Text → Text
deref_session none = []
deref_session (some s) = s

abbrev pub writer_of : Caller → SessionTag → Writer
writer_of caller tag = record {
  session_id = deref_session tag.session_id;
  allocation_id = deref_session tag.allocation_id;
  agent_id = caller.agent_id;
}

-- What a handler does with the result of the session check.
abbrev pub once_fenced :
    (Text → ServerState → ServerState × Reply)
    → ServerState
    → LeaseManager × MountLeaseRegistry × Outcome Denial Text
    → ServerState × Reply
once_fenced f s (m, r, err e) = (record s { leases = m; mount_leases = r }, refused eacces)
once_fenced f s (m, r, ok hex) = f hex (record s { leases = m; mount_leases = r })

-- `resolveSessionFence`, and the rest of the handler with the session's active lease.
unfoldable pub resolve_session_fence :
    Caller
    → ℕ
    → SessionTag
    → (Text → ServerState → ServerState × Reply)
    → ServerState
    → ServerState × Reply
resolve_session_fence caller now tag f s = once_fenced f s (
    check_session_fence s.leases s.mount_leases caller.agent_id caller.conn now
      (deref_session tag.session_id) (deref_session tag.allocation_id))

-- `manifestErrToWire`. The store's other errors here are EIO; the errors of a full disk are none of the model's.
unfoldable pub manifest_err_to_wire : Error → Errno
manifest_err_to_wire manifest_not_found = enoent
manifest_err_to_wire parent_not_found = enoent
manifest_err_to_wire already_exists = eexist
manifest_err_to_wire (version_conflict v) = estale
manifest_err_to_wire not_empty = enotempty
manifest_err_to_wire not_dir = enotdir
manifest_err_to_wire is_dir = eisdir
manifest_err_to_wire _ = eio

abbrev pub present_text : Text → Option Text
present_text t = if is_empty t then none else some t

abbrev pub to_last_writer : Option LastWriterRow → Option LastWriter
to_last_writer none = none
to_last_writer (some w) = some (record {
  agent_id = present_text w.agent_id;
  session_id = present_text w.session_id;
  at_unix_ms = w.at_unix_ms;
})

-- `buildCasConflictHint`
unfoldable pub build_cas_conflict_hint : ℕ → Option ℕ → Option LastWriterRow → RecoveryHint
build_cas_conflict_hint your_version existing writer = record {
  your_version = your_version;
  current_version = existing;
  last_writer = to_last_writer writer;
}

-- `manifestConflictToWire`
unfoldable pub manifest_conflict_to_wire : Db → Error → Text → ℕ → Reply
manifest_conflict_to_wire db (version_conflict existing) p your_version =
    stale (build_cas_conflict_hint your_version existing (lookup_last_writer p db))
manifest_conflict_to_wire db e p your_version = refused (manifest_err_to_wire e)
