-- ===== src/DataPlane/Puts.antt =====
-- The put of cmd/orlop-server/dataplane_server.go and its wait for a lease, and what the write handlers share behind
-- their checks: the answer to a transaction of the store.
use orlop.Prelude.{
  ℕ, zero, suc, Text, Bool, true, false, Option, List, [], ◌∷◌, ◌==◌, length, map, if◌then◌else◌,
  ok, err,
}
use orlop.Lease.{
  LeaseManager, LeaseError, lease_unknown, lease_held, YieldStep, proceed, fail, push_and_wait,
  wait, yield_check,
}
use orlop.Manifest.Db.{ChunkRef, Manifest, Db, Error, Result, version_conflict}
use orlop.Manifest.Store.{put_with_lease_check}
use orlop.Manifest.Journal.Query.{lookup_last_writer}
use orlop.DataPlane.{
  Caller, ServerState, SessionTag, eacces, ebusy, eio, Reply, done, done_version, refused, waits,
  writer_of, resolve_session_fence, manifest_err_to_wire, build_cas_conflict_hint, stale,
}

-- A request's surroundings: who sent it, the clock of the leases and of the database, and the chunk store's answers.
pub record Arrival : Type 0 where
  pub caller : Caller
  pub now : ℕ
  pub now_ms : ℕ
  pub present : Option (Text → Bool)

pub record PutRequest : Type 0 where
  pub path : Text
  pub version_expected : ℕ
  pub size : ℕ
  pub mode : ℕ
  pub mtime : ℕ
  pub chunks : List ChunkRef
  pub tag : SessionTag

zeros : ℕ → Text
zeros zero = []
zeros (suc n) = 0 ∷ zeros n

-- A hash of the wrong length becomes the zero hash.
unfoldable pub from_wire_chunk : ChunkRef → ChunkRef
unfolding zeros
from_wire_chunk c = record c { hash = if length c.hash == 32 then c.hash else zeros 32 }

unfoldable pub put_manifest : PutRequest → Manifest
put_manifest q = record {
  path = q.path;
  inode_id = 0;
  nlink = 0;
  size = q.size;
  mode = q.mode;
  mtime = q.mtime;
  version = 0;
  chunks = map from_wire_chunk q.chunks;
  uid = 0;
  gid = 0;
  atime = 0;
}

-- The answer to a transaction; `e` says what an error answers.
abbrev pub answered : (Error → Reply) → ServerState → Result Db → ServerState × Reply
answered e s (ok d) = (record s { db = d }, done)
answered e s (err x) = (s, e x)

abbrev pub answered_with :
    (ℕ → Reply) → (Error → Reply) → ServerState → Result (ℕ × Db) → ServerState × Reply
answered_with f e s (ok (n, d)) = (record s { db = d }, f n)
answered_with f e s (err x) = (s, e x)

abbrev pub refuse : Error → Reply
refuse x = refused (manifest_err_to_wire x)

-- The answer of `handleManifestPut` to an error: only a conflict is told apart.
unfoldable pub put_err_to_wire : Db → Error → Text → ℕ → Reply
put_err_to_wire db (version_conflict existing) p expected =
    stale (build_cas_conflict_hint expected existing (lookup_last_writer p db))
put_err_to_wire db e p expected = refused eio

-- `handleManifestPut` from the session check on.
unfoldable pub commit_put : Arrival → PutRequest → ServerState → ServerState × Reply
commit_put a q s =
    resolve_session_fence a.caller a.now q.tag
      (λ hex s'.
        answered_with done_version (λ x. put_err_to_wire s'.db x q.path q.version_expected) s'
          (put_with_lease_check a.present a.now_ms q.path q.version_expected (put_manifest q)
            (writer_of a.caller q.tag) hex s'.db))
      s

abbrev pub yield_answer : LeaseError → Reply
yield_answer lease_held = refused ebusy
yield_answer lease_unknown = refused eio

abbrev pub once_yielded :
    Arrival → PutRequest → ServerState → LeaseManager × YieldStep → ServerState × Reply
once_yielded a q s (m, proceed) = commit_put a q (record s { leases = m })
once_yielded a q s (m, fail e) = (record s { leases = m }, yield_answer e)
once_yielded a q s (m, push_and_wait conn id channel held) =
    (record s { leases = m }, waits (push_and_wait conn id channel held))
once_yielded a q s (m, wait channel) = (record s { leases = m }, waits (wait channel))

-- A round of `YieldFor`, and the rest of the handler if no lease is in the way. A put that waits comes here again.
unfoldable pub yield_then_put : Arrival → PutRequest → ServerState → ServerState × Reply
yield_then_put a q s = once_yielded a q s (yield_check s.leases a.caller.agent_id q.path a.now)

abbrev pub only_if : Bool → (ServerState → ServerState × Reply) → ServerState → ServerState × Reply
only_if true f s = f s
only_if false f s = (s, refused eacces)
