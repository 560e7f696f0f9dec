-- ===== src/Tests/DataPlane.antt =====
-- The theorems on the write requests of the data plane at concrete servers.
use orlop.Prelude.{
  ℕ, Text, text, text_dec, true, false, none, some, List, [], ◌∷◌, ◌++◌, ◌≡◌, refl, arith, eqb,
  find, contains,
}
use orlop.Prelude.Map.{empty}
use orlop.Paths.{check_agent_path, split_parent_name}
use orlop.Fence.{MountLeaseRegistry, install, active_lease, clear}
use orlop.Fence.Resurrection.{installs, run}
use orlop.Lease.{new_lease_manager, yield_check}
use orlop.Session.{mount_prefix, check_session_fence}
use orlop.Manifest.Db.{Db}
use orlop.Manifest.Store.{put, put_with_lease_check, lock_and_validate_chunks, check_parent_exists}
use orlop.Manifest.Journal.{validate_session}
use orlop.Manifest.Journal.Query.{lookup_last_writer, latest_of}
use orlop.Manifest.Ownership.{IsSound}
use orlop.DataPlane.{
  Policy, ServerState, SessionTag, RecoveryHint, stale, permits, matches_any, policy_path,
  trim_slashes, after_slash, authorize_path, resolve_session_fence, build_cas_conflict_hint,
}
use orlop.DataPlane.Puts.{
  put_err_to_wire, Arrival, PutRequest, yield_then_put, commit_put, put_manifest,
}
use orlop.DataPlane.Writes.{handle_manifest_put}
use orlop.DataPlane.Serve.{
  Request, op_manifest_put, op_manifest_delete, op_dir_create, op_journal_revert_path, Event,
  requested, resumed, timed_out, handle, resume, serve,
}
use orlop.DataPlane.Soundness.{serve-IsSound}
use orlop.DataPlane.Gates.{IsRefused, paths_of, is_barred, barred_request-IsRefused}
use orlop.DataPlane.Cleared.{cleared_session_writes_nothing}
use orlop.DataPlane.Retry.{is_stale, retry_is_not_stale}
use orlop.Tests.Runs.{sqlite, empty_db, empty-IsSound, a_path}

abbrev policy : Policy
policy = record { allow = []; deny = text "secret" ∷ [] }

abbrev arrival : Arrival
arrival = record {
  caller = record { agent_id = text "agent"; scoped_agent_id = []; conn = 1 };
  now = 40;
  now_ms = 9;
  present = none;
}

abbrev no_session : SessionTag
no_session = record { session_id = none; allocation_id = none }

abbrev put_at : ℕ → PutRequest
put_at expected = record {
  path = a_path;
  version_expected = expected;
  size = 0;
  mode = 420;
  mtime = 7;
  chunks = [];
  tag = no_session;
}

abbrev server : Db → ServerState
server db = record {
  db = db;
  leases = new_lease_manager (record { ttl = 30; min_hold = 2 });
  mount_leases = empty;
}

abbrev events : List Event
events =
    requested arrival (op_manifest_put (put_at 0))
    ∷ requested arrival (op_dir_create (text "/d") 493 none)
    ∷ timed_out a_path 0
    ∷ resumed arrival (op_manifest_put (put_at 1))
    ∷ requested arrival (op_journal_revert_path (λ i. 10) (text "al") (a_path ∷ []) false)
    ∷ []

serve-IsSound_example : IsSound (serve sqlite eqb policy events (server empty_db)).db
serve-IsSound_example = serve-IsSound sqlite eqb policy events (server empty_db) empty-IsSound

abbrev secret : Text
secret = text "/a/secret"

abbrev delete_secret : Request
delete_secret = op_manifest_delete secret 1 no_session

secret_is_named : contains (paths_of delete_secret) secret ≡ true
unfolding text_dec
secret_is_named = refl

secret-is_barred : is_barred eqb policy arrival.caller delete_secret secret ≡ true
unfolding permits matches_any policy_path trim_slashes after_slash text_dec
secret-is_barred = refl

barred_request-IsRefused_example :
    IsRefused (server empty_db) (handle sqlite eqb policy arrival delete_secret (server empty_db))
barred_request-IsRefused_example =
    barred_request-IsRefused sqlite eqb policy arrival delete_secret secret (server empty_db)
      secret_is_named secret-is_barred

-- Version 1 of a file.
abbrev stored : Db
stored = record empty_db {
  manifests =
      record {
        path = a_path;
        inode_id = 0;
        size = 0;
        mode = 420;
        mtime = 7;
        version = 1;
        chunks = [];
        uid = 0;
        gid = 0;
        atime = 7;
        rev = 1;
      }
      ∷ [];
}

abbrev hint : RecoveryHint
hint = record { your_version = 4; current_version = some 1; last_writer = none }

late_put_is_stale :
    (handle_manifest_put sqlite eqb policy arrival (put_at 4) (server stored)).1 ≡ stale hint
unfolding handle_manifest_put authorize_path permits policy_path check_agent_path yield_then_put
    yield_check commit_put resolve_session_fence check_session_fence put_with_lease_check
    validate_session put lock_and_validate_chunks check_parent_exists split_parent_name find
    put_err_to_wire build_cas_conflict_hint lookup_last_writer latest_of text_dec put_manifest
    new_lease_manager
late_put_is_stale = refl

retry_is_not_stale_example :
    is_stale
      (handle_manifest_put sqlite eqb policy arrival
        (put_at 1)
        (handle_manifest_put sqlite eqb policy arrival (put_at 4) (server stored)).0).1
    ≡ false
retry_is_not_stale_example =
    retry_is_not_stale sqlite eqb policy arrival arrival (put_at 4) (put_at 1) (server stored) hint
      1 late_put_is_stale refl (λ e. ground (arith, e)) refl refl

abbrev key : Text
key = text "abababababababababababababababab"

abbrev registry : MountLeaseRegistry
registry = (install empty (text "al") key).0

key_is_active : active_lease registry (text "al") ≡ key
unfolding install active_lease text_dec
key_is_active = refl

abbrev cleared : ServerState
cleared = record (server stored) {
  mount_leases = run (clear registry (text "al")) (installs (text "al") (text "cd") ∷ []);
}

abbrev in_session : PutRequest
in_session = record (put_at 1) {
  tag = record { session_id = some (mount_prefix ++ key); allocation_id = some (text "al") };
}

cleared_session_writes_nothing_example :
    ((handle sqlite eqb policy arrival (op_manifest_put in_session) cleared).0.db ≡ stored)
    × ((resume arrival (op_manifest_put in_session) cleared).0.db ≡ stored)
cleared_session_writes_nothing_example =
    cleared_session_writes_nothing registry (text "al") key (installs (text "al") (text "cd") ∷ [])
      key_is_active (λ e. ground (arith, e)) sqlite eqb policy arrival (op_manifest_put in_session)
      cleared refl refl refl
