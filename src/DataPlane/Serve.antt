-- ===== src/DataPlane/Serve.antt =====
-- The write requests of a tenant's connections, in the order in which the server runs them. A put that has to wait for a
-- lease comes back as an event of its own, with whatever ran in between.
use orlop.Prelude.{ℕ, Text, Bool, Option, List, [], ◌∷◌}
use orlop.Lease.{yield_timeout}
use orlop.Manifest.Chunks.{note_chunk_stored}
use orlop.Manifest.Rename.Subtree.{Sqlite}
use orlop.DataPlane.{Policy, ServerState, SessionTag, Reply, done}
use orlop.DataPlane.Puts.{Arrival, PutRequest, yield_then_put}
use orlop.DataPlane.Writes.{
  RenameRequest, SetattrRequest, handle_manifest_put, handle_manifest_delete,
  handle_manifest_rename, handle_link, handle_dir_create, handle_dir_remove, handle_setattr,
  handle_symlink, handle_mknod, handle_journal_revert_path,
}

-- The session of a dir_create, a dir_remove or a symlink goes to the audit row only.
pub data Request : Type 0 where
  op_manifest_put : PutRequest → Request
  op_manifest_delete : (p : Text) (expected : ℕ) (tag : SessionTag) → Request
  op_manifest_rename : RenameRequest → Request
  op_link : (from to : Text) (tag : SessionTag) → Request
  op_dir_create : (p : Text) (mode : ℕ) (session_id : Option Text) → Request
  op_dir_remove : (p : Text) (session_id : Option Text) → Request
  op_setattr : SetattrRequest → Request
  op_symlink : (p target : Text) (mode : ℕ) (tag : SessionTag) → Request
  op_mknod : (p : Text) (mode rdev : ℕ) (tag : SessionTag) → Request
  op_journal_revert_path :
      (clock : ℕ → ℕ) (allocation : Text) (ps : List Text) (force : Bool) → Request

-- What happens to a tenant: a request, a put that goes on after a wait, a lease whose holder did not release it in time,
-- a chunk that was stored.
pub data Event : Type 0 where
  requested resumed : Arrival → Request → Event
  timed_out : (p : Text) (held : ℕ) → Event
  stored : (hash : Text) (size added_at : ℕ) → Event

-- Only a put waits.
unfoldable pub resume : Arrival → Request → ServerState → ServerState × Reply
resume a (op_manifest_put q) s = yield_then_put a q s
resume a _ s = (s, done)

module _ (sql : Sqlite) (glob : Text → Text → Bool) (policy : Policy) where
  unfoldable pub handle : Arrival → Request → ServerState → ServerState × Reply
  handle a (op_manifest_put q) s = handle_manifest_put sql glob policy a q s
  handle a (op_manifest_delete p expected tag) s =
      handle_manifest_delete sql glob policy a p expected tag s
  handle a (op_manifest_rename q) s = handle_manifest_rename sql glob policy a q s
  handle a (op_link from to tag) s = handle_link sql glob policy a from to tag s
  handle a (op_dir_create p mode session) s = handle_dir_create sql glob policy a p mode s
  handle a (op_dir_remove p session) s = handle_dir_remove sql glob policy a p s
  handle a (op_setattr q) s = handle_setattr sql glob policy a q s
  handle a (op_symlink p target mode tag) s = handle_symlink sql glob policy a p target mode s
  handle a (op_mknod p mode rdev tag) s = handle_mknod sql glob policy a p mode rdev tag s
  handle a (op_journal_revert_path clock allocation ps force) s =
      handle_journal_revert_path sql glob policy a clock allocation ps force s

  unfoldable pub happen : Event → ServerState → ServerState
  happen (requested a q) s = (handle a q s).0
  happen (resumed a q) s = (resume a q s).0
  happen (timed_out p held) s = record s { leases = yield_timeout s.leases p held }
  happen (stored hash size added_at) s = record s {
    db = record s.db { chunks = note_chunk_stored hash size added_at s.db.chunks };
  }

  unfoldable pub serve : List Event → ServerState → ServerState
  serve [] s = s
  serve (e ∷ es) s = serve es (happen e s)
