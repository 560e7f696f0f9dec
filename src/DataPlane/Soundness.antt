-- ===== src/DataPlane/Soundness.antt =====
-- The database that the requests of a tenant's connections reach.
pub mod Transactions
use orlop.Prelude.{
  ℕ, Text, Bool, List, [], ◌∷◌, ◌≡◌, ◌∙◌, sym, subst, refl, arith, inl, inr, Outcome, ok, err, ◌||◌,
  is_some, Result-cases, Option-cases, Bool-cases, none, true, false, length, not, ◌==◌,
}
use orlop.Prelude.Map.{is_empty}
use orlop.Fence.{MountLeaseRegistry}
use orlop.Lease.{LeaseManager, YieldStep, proceed, fail, push_and_wait, wait}
use orlop.Manifest.Db.{Db, Error, Result}
use orlop.Manifest.Store.{put_with_lease_check}
use orlop.Manifest.Links.{delete_with_lease_check, link_with_lease_check}
use orlop.Manifest.Nodes.{dir_create, dir_remove, symlink, mknod}
use orlop.Manifest.Attrs.{set_mode, set_atime}
use orlop.Manifest.Mutations.{
  Mutation, puts, links, deletes, renames, makes_dir, removes_dir, makes_symlink, makes_node,
  sets_mode, sets_owner, sets_atime, stores_chunk, committed, committed_with, step,
}
use orlop.Manifest.Mutations.Soundness.{step-IsSound}
use orlop.Manifest.Ownership.{IsSound}
use orlop.Manifest.Revert.Safety.{revert_paths-IsSound}
use orlop.Manifest.Rename.Subtree.{Sqlite}
use orlop.Manifest.Rename.{rename_with_lease_check}
use orlop.Session.{Denial}
use orlop.DataPlane.{
  Policy, Caller, ServerState, SessionTag, Reply, done, done_version, done_nlink, done_revert,
  refused, stale, waits, once_fenced, resolve_session_fence, manifest_conflict_to_wire, writer_of,
  authorize_path, authorize_both,
}
use orlop.DataPlane.Puts.{
  Arrival, PutRequest, put_manifest, refuse, answered, answered_with, only_if, commit_put,
  once_yielded, yield_then_put,
}
use orlop.DataPlane.Writes.{
  SetattrRequest, or_current, stat_owner, chown, set_owner_if, set_atime_if, and_then,
  handle_manifest_put, handle_manifest_delete, handle_manifest_rename, handle_link,
  handle_dir_create, handle_dir_remove, handle_setattr, handle_symlink, handle_mknod,
  handle_journal_revert_path, all_owned, writer_session_for_revert,
}
use orlop.DataPlane.Serve.{
  Request, op_manifest_put, op_manifest_delete, op_manifest_rename, op_link, op_dir_create,
  op_dir_remove, op_setattr, op_symlink, op_mknod, op_journal_revert_path, Event, requested,
  resumed, timed_out, stored, handle, resume, happen, serve,
}
use orlop.DataPlane.Soundness.Transactions.{
  Keeps, only_if-Keeps, once_fenced-Keeps, fenced-Keeps, answered-Keeps, answered_with-Keeps,
  commit_put-Keeps, once_yielded-Keeps, yield_then_put-Keeps, chown-Sound, set_owner_if-Sound,
  set_atime_if-Sound, and_then-Sound,
}

module _ (sql : Sqlite) (glob : Text → Text → Bool) (policy : Policy) where
  revert-Keeps :
      (a : Arrival) (clock : ℕ → ℕ) (allocation : Text) (ps : List Text) (force : Bool)
      → Keeps (handle_journal_revert_path sql glob policy a clock allocation ps force)
  unfolding handle_journal_revert_path
  revert-Keeps a clock allocation ps force s v =
      elim (Bool-cases (is_empty allocation || length ps == 0)) [
        | inl e ↦ rw e v
        | inr e ↦ elim (Bool-cases (not (all_owned sql glob policy a ps))) [
          | inl f ↦ rw e rw f v
          | inr f ↦ rw e rw f (
              revert_paths-IsSound sql a.present clock allocation ps none none
                (writer_session_for_revert sql glob policy a allocation s) a.caller.agent_id force
                s.db v)
        ]
      ]

  handle-Keeps : (a : Arrival) (q : Request) → Keeps (handle sql glob policy a q)
  unfolding handle handle_manifest_put handle_manifest_delete handle_manifest_rename handle_link
      handle_dir_create handle_dir_remove handle_setattr handle_symlink handle_mknod step
  handle-Keeps a (op_manifest_put q) =
      only_if-Keeps (authorize_path glob policy a.caller q.path) _ (yield_then_put-Keeps sql a q)
  handle-Keeps a (op_manifest_delete p expected tag) =
      only_if-Keeps (authorize_path glob policy a.caller p) _ (
        fenced-Keeps a.caller a.now tag _ (λ hex.
          answered-Keeps sql (λ s x. manifest_conflict_to_wire s.db x p expected)
            (delete_with_lease_check a.now_ms p expected (writer_of a.caller tag) hex)
            (deletes a.now_ms p expected (writer_of a.caller tag) hex) (λ db. refl)))
  handle-Keeps a (op_manifest_rename q) =
      only_if-Keeps (authorize_both glob policy a.caller q.from q.to) _ (
        fenced-Keeps a.caller a.now q.tag _ (λ hex.
          answered_with-Keeps sql done_version
            (λ s x. manifest_conflict_to_wire s.db x q.from q.expected_version_from)
            (rename_with_lease_check sql a.now_ms q.from q.to q.expected_version_from
              q.expected_version_to q.no_replace (writer_of a.caller q.tag) hex)
            (renames a.now_ms q.from q.to q.expected_version_from q.expected_version_to q.no_replace
              (writer_of a.caller q.tag) hex)
            (λ db. refl)))
  handle-Keeps a (op_link from to tag) =
      only_if-Keeps (authorize_both glob policy a.caller from to) _ (
        fenced-Keeps a.caller a.now tag _ (λ hex.
          answered_with-Keeps sql done_nlink (λ s. refuse)
            (link_with_lease_check a.now_ms from to (writer_of a.caller tag) hex)
            (links a.now_ms from to (writer_of a.caller tag) hex) (λ db. refl)))
  handle-Keeps a (op_dir_create p mode session) =
      only_if-Keeps (authorize_path glob policy a.caller p) _
        (answered-Keeps sql (λ s. refuse) (dir_create p mode) (makes_dir p mode) (λ db. refl))
  handle-Keeps a (op_dir_remove p session) =
      only_if-Keeps (authorize_path glob policy a.caller p) _ (
        answered-Keeps sql (λ s. refuse) (dir_remove sql.glob a.now_ms p) (removes_dir a.now_ms p)
          (λ db. refl))
  handle-Keeps a (op_setattr q) = only_if-Keeps (authorize_path glob policy a.caller q.path) _ (
      fenced-Keeps a.caller a.now q.tag _ (λ hex s v.
        and_then-Sound sql (set_atime_if q) (set_atime_if-Sound sql q) _ (
          and_then-Sound sql (set_owner_if q) (set_owner_if-Sound sql q) _ (
            answered-Keeps sql (λ s. refuse)
              (set_mode a.present a.now_ms q.path q.mode (writer_of a.caller q.tag) hex)
              (sets_mode a.present a.now_ms q.path q.mode (writer_of a.caller q.tag) hex)
              (λ db. refl) s v))))
  handle-Keeps a (op_symlink p target mode tag) =
      only_if-Keeps (authorize_path glob policy a.caller p) _ (
        answered-Keeps sql (λ s. refuse) (symlink p target mode) (makes_symlink p target mode)
          (λ db. refl))
  handle-Keeps a (op_mknod p mode rdev tag) =
      only_if-Keeps (authorize_path glob policy a.caller p) _ (
        fenced-Keeps a.caller a.now tag _ (λ hex.
          answered-Keeps sql (λ s. refuse) (mknod p mode rdev) (makes_node p mode rdev)
            (λ db. refl)))
  handle-Keeps a (op_journal_revert_path clock allocation ps force) =
      revert-Keeps a clock allocation ps force

  happen-Sound :
      (e : Event) (s : ServerState) → IsSound s.db → IsSound (happen sql glob policy e s).db
  unfolding happen resume step
  happen-Sound (requested a q) s v = handle-Keeps a q s v
  happen-Sound (resumed a (op_manifest_put q)) s v = yield_then_put-Keeps sql a q s v
  happen-Sound (resumed a (op_manifest_delete p expected tag)) s v = v
  happen-Sound (resumed a (op_manifest_rename q)) s v = v
  happen-Sound (resumed a (op_link from to tag)) s v = v
  happen-Sound (resumed a (op_dir_create p mode session)) s v = v
  happen-Sound (resumed a (op_dir_remove p session)) s v = v
  happen-Sound (resumed a (op_setattr q)) s v = v
  happen-Sound (resumed a (op_symlink p target mode tag)) s v = v
  happen-Sound (resumed a (op_mknod p mode rdev tag)) s v = v
  happen-Sound (resumed a (op_journal_revert_path clock allocation ps force)) s v = v
  happen-Sound (timed_out p held) s v = v
  happen-Sound (stored hash size added_at) s v =
      step-IsSound sql s.db (stores_chunk hash size added_at) v

  -- Whatever write requests arrive, in whatever order and from whatever callers, and however often a put has to wait
  -- for a lease, a tenant's sound database stays sound.
  pub serve-IsSound :
      (es : List Event) (s : ServerState) → IsSound s.db → IsSound (serve sql glob policy es s).db
  unfolding serve
  serve-IsSound [] s v = v
  serve-IsSound (e ∷ es) s v = serve-IsSound es (happen sql glob policy e s) (happen-Sound e s v)
