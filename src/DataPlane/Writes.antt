-- ===== src/DataPlane/Writes.antt =====
-- The write handlers of cmd/orlop-server/dataplane_server.go, from the decoded request on. A handler answers with the
-- state that it leaves; a transaction of the store that fails leaves the database as it was.
use orlop.Prelude.{
  ℕ, Text, text, Bool, true, false, Option, none, some, List, [], ◌∷◌, ◌++◌, ◌==◌, ◌||◌, not,
  is_some, length, if◌then◌else◌, ok, err,
}
use orlop.Prelude.Map.{is_empty}
use orlop.Paths.{check_agent_path}
use orlop.Fence.{active_lease}
use orlop.Session.{mount_prefix}
use orlop.Manifest.Db.{Db, Result, manifest_not_found}
use orlop.Manifest.Store.{get}
use orlop.Manifest.Links.{link_with_lease_check, delete_with_lease_check}
use orlop.Manifest.Nodes.{
  dir_info, symlink_info, special_node_info, dir_create, dir_remove, symlink, mknod,
}
use orlop.Manifest.Attrs.{set_mode, set_owner, set_atime}
use orlop.Manifest.Rename.Subtree.{Sqlite}
use orlop.Manifest.Rename.{rename_with_lease_check}
use orlop.Manifest.Revert.{Report, revert_paths}
use orlop.DataPlane.{
  Policy, ServerState, SessionTag, eacces, einval, eio, Reply, done, done_version, done_nlink,
  done_revert, refused, authorize_path, authorize_both, writer_of, resolve_session_fence,
  manifest_conflict_to_wire,
}
use orlop.DataPlane.Puts.{
  Arrival, PutRequest, answered, answered_with, refuse, yield_then_put, only_if,
}

pub record RenameRequest : Type 0 where
  pub from : Text
  pub to : Text
  pub expected_version_from : ℕ
  pub expected_version_to : ℕ
  pub no_replace : Bool
  pub tag : SessionTag

pub record SetattrRequest : Type 0 where
  pub path : Text
  pub mode : ℕ
  pub uid : Option ℕ
  pub gid : Option ℕ
  pub atime : Option ℕ
  pub tag : SessionTag

-- `statOwner`: the owner of the first table that has the path, and 0 if none has.
unfoldable pub stat_owner : Text → Db → Result (ℕ × ℕ)
stat_owner p db = elim (get p db) [
  | ok mf ↦ ok (mf.uid, mf.gid)
  | err manifest_not_found ↦ elim (symlink_info p db) [
    | some r ↦ ok (r.uid, r.gid)
    | none ↦ elim (special_node_info p db) [
      | some (r, kind) ↦ ok (r.uid, r.gid)
      | none ↦ elim (dir_info p db) [ some d ↦ ok (d.uid, d.gid) | none ↦ ok (0, 0) ]
    ]
  ]
  | err e ↦ err e
]

abbrev pub or_current : Option ℕ → ℕ → ℕ
or_current none current = current
or_current (some n) current = n

abbrev pub chown : SetattrRequest → Db → Result (ℕ × ℕ) → Result Db
chown q db (err e) = err e
chown q db (ok (uid, gid)) = set_owner q.path (or_current q.uid uid) (or_current q.gid gid) db

-- The chown of `handleSetattr`.
unfoldable pub set_owner_if : SetattrRequest → Db → Result Db
set_owner_if q db =
    if is_some q.uid || is_some q.gid then chown q db (stat_owner q.path db) else ok db

-- The utimensat of `handleSetattr`.
unfoldable pub set_atime_if : SetattrRequest → Db → Result Db
set_atime_if q db = elim q.atime [ none ↦ ok db | some t ↦ set_atime q.path t db ]

-- Each change of a setattr is a transaction of its own: an error ends the request and keeps the changes before it.
abbrev pub and_then : (Db → Result Db) → ServerState × Reply → ServerState × Reply
and_then f (s, done) = answered refuse s (f s.db)
and_then f (s, r) = (s, r)

module _ (sql : Sqlite) (glob : Text → Text → Bool) (policy : Policy) (a : Arrival) where
  unfoldable pub handle_manifest_put : PutRequest → ServerState → ServerState × Reply
  handle_manifest_put q = only_if (authorize_path glob policy a.caller q.path) (yield_then_put a q)

  unfoldable pub handle_manifest_delete : Text → ℕ → SessionTag → ServerState → ServerState × Reply
  handle_manifest_delete p expected tag = only_if (authorize_path glob policy a.caller p) (
      resolve_session_fence a.caller a.now tag (λ hex s.
        answered (λ x. manifest_conflict_to_wire s.db x p expected) s
          (delete_with_lease_check a.now_ms p expected (writer_of a.caller tag) hex s.db)))

  unfoldable pub handle_manifest_rename : RenameRequest → ServerState → ServerState × Reply
  handle_manifest_rename q = only_if (authorize_both glob policy a.caller q.from q.to) (
      resolve_session_fence a.caller a.now q.tag (λ hex s.
        answered_with done_version
          (λ x. manifest_conflict_to_wire s.db x q.from q.expected_version_from) s
          (rename_with_lease_check sql a.now_ms q.from q.to q.expected_version_from
            q.expected_version_to q.no_replace (writer_of a.caller q.tag) hex s.db)))

  unfoldable pub handle_link : Text → Text → SessionTag → ServerState → ServerState × Reply
  handle_link from to tag = only_if (authorize_both glob policy a.caller from to) (
      resolve_session_fence a.caller a.now tag (λ hex s.
        answered_with done_nlink refuse s
          (link_with_lease_check a.now_ms from to (writer_of a.caller tag) hex s.db)))

  unfoldable pub handle_dir_create : Text → ℕ → ServerState → ServerState × Reply
  handle_dir_create p mode =
      only_if (authorize_path glob policy a.caller p)
        (λ s. answered refuse s (dir_create p mode s.db))

  unfoldable pub handle_dir_remove : Text → ServerState → ServerState × Reply
  handle_dir_remove p =
      only_if (authorize_path glob policy a.caller p)
        (λ s. answered refuse s (dir_remove sql.glob a.now_ms p s.db))

  unfoldable pub handle_setattr : SetattrRequest → ServerState → ServerState × Reply
  handle_setattr q = only_if (authorize_path glob policy a.caller q.path) (
      resolve_session_fence a.caller a.now q.tag (λ hex s. and_then (set_atime_if q) (
        and_then (set_owner_if q) (
          answered refuse s
            (set_mode a.present a.now_ms q.path q.mode (writer_of a.caller q.tag) hex s.db)))))

  unfoldable pub handle_symlink : Text → Text → ℕ → ServerState → ServerState × Reply
  handle_symlink p target mode =
      only_if (authorize_path glob policy a.caller p)
        (λ s. answered refuse s (symlink p target mode s.db))

  unfoldable pub handle_mknod : Text → ℕ → ℕ → SessionTag → ServerState → ServerState × Reply
  handle_mknod p mode rdev tag = only_if (authorize_path glob policy a.caller p) (
      resolve_session_fence a.caller a.now tag
        (λ hex s. answered refuse s (mknod p mode rdev s.db)))

  unfoldable pub all_owned : List Text → Bool
  all_owned [] = true
  all_owned (p ∷ ps) =
      if not (check_agent_path a.caller.scoped_agent_id p) then false else all_owned ps

  -- An error of the call answers EIO; the paths that were reverted before it stay reverted.
  abbrev pub report_answer : Report → Reply
  report_answer r = elim r.failure [
    | some e ↦ refused eio
    | none ↦ done_revert r.reverted_paths r.conflicts
  ]

  -- `writerSessionForRevert`
  unfoldable pub writer_session_for_revert : Text → ServerState → Text
  writer_session_for_revert allocation s =
      let hex = active_lease s.mount_leases allocation in
      if not (is_empty hex) then mount_prefix ++ hex else text "revert:" ++ allocation

  -- The clock gives the times of the paths that are reverted.
  unfoldable pub handle_journal_revert_path :
      (ℕ → ℕ) → Text → List Text → Bool → ServerState → ServerState × Reply
  unfolding all_owned
  handle_journal_revert_path clock allocation ps force s =
      if is_empty allocation || length ps == 0
      then (s, refused einval)
      else if not (all_owned ps)
      then (s, refused eacces)
      else let r : Report =
          revert_paths sql a.present clock allocation ps none none
            (writer_session_for_revert allocation s) a.caller.agent_id force s.db in
        (record s { db = r.db }, report_answer r)
