-- ===== src/DataPlane/Retry.antt =====
-- The answer ESTALE of a put, and the put that is sent again with the version that it names.
use orlop.Prelude.{
  ℕ, Text, Bool, true, false, some, ◌≡◌, ◌≢◌, refl, arith, sym, ◌∙◌, ap, Outcome, ok, err, find,
}
use orlop.Fence.{MountLeaseRegistry}
use orlop.Lease.{
  LeaseManager, YieldStep, proceed, fail, push_and_wait, wait, lease_held, lease_unknown,
}
use orlop.Session.{Denial}
use orlop.Manifest.Rename.Subtree.{Sqlite}
use orlop.DataPlane.{
  Policy, ServerState, RecoveryHint, Reply, done_version, stale, authorize_path, writer_of,
  once_fenced, resolve_session_fence, build_cas_conflict_hint,
}
use orlop.DataPlane.Puts.{
  put_err_to_wire, Arrival, PutRequest, put_manifest, answered_with, commit_put, once_yielded,
  yield_then_put, only_if,
}
use orlop.DataPlane.Writes.{handle_manifest_put}
use orlop.Manifest.Db.{Db, Error, Result, manifest_path, version_conflict}
use orlop.Manifest.Store.{old_version}
use orlop.Manifest.Store.Conflicts.{is_conflict, put-named, put-Calm}

abbrev pub is_stale : Reply → Bool
is_stale (stale h) = true
is_stale _ = false

-- The version that a refused put's answer names is the one that the server stores.
Names : Text → ServerState × Reply → Type 0
Names p r =
    (h : RecoveryHint) (v : ℕ)
    → r.1 ≡ stale h
    → h.current_version ≡ some v
    → old_version (find manifest_path p r.0.db.manifests) ≡ v

conflict_of_stale :
    (db : Db) (x : Error) (p : Text) (yours v : ℕ) (h : RecoveryHint)
    → put_err_to_wire db x p yours ≡ stale h
    → h.current_version ≡ some v
    → x ≡ version_conflict (some v)
unfolding put_err_to_wire build_cas_conflict_hint
conflict_of_stale db x p yours v h e c = ground (arith, e, c)

conflict_if_stale :
    (db : Db) (x : Error) (p : Text) (yours : ℕ)
    → is_conflict x ≡ false
    → is_stale (put_err_to_wire db x p yours) ≡ false
unfolding put_err_to_wire
conflict_if_stale db x p yours c = ground (arith, c)

answered-Names :
    (q : PutRequest) (s : ServerState) (r : Result (ℕ × Db))
    → ((v : ℕ)
        → r ≡ err (version_conflict (some v))
        → old_version (find manifest_path q.path s.db.manifests) ≡ v)
    → Names q.path
        (answered_with done_version (λ x. put_err_to_wire s.db x q.path q.version_expected) s r)
unfolding Names
answered-Names q s (ok (n, d)) k h v e c = ground (arith, e)
answered-Names q s (err x) k h v e c =
    k v (ap err (conflict_of_stale s.db x q.path q.version_expected v h e c))

once_fenced-Names :
    (p : Text) (f : Text → ServerState → ServerState × Reply) (s : ServerState)
    (r : LeaseManager × MountLeaseRegistry × Outcome Denial Text)
    → ((hex : Text) (s' : ServerState) → Names p (f hex s'))
    → Names p (once_fenced f s r)
unfolding Names
once_fenced-Names p f s (m, g, ok hex) k h v e c =
    k hex (record s { leases = m; mount_leases = g }) h v e c
once_fenced-Names p f s (m, g, err x) k h v e c = ground (arith, e)

commit_put-Names :
    (a : Arrival) (q : PutRequest) (s : ServerState) → Names q.path (commit_put a q s)
unfolding commit_put resolve_session_fence
commit_put-Names a q s = once_fenced-Names q.path _ s _ (λ hex s'. answered-Names q s' _ (
    put-named a.present a.now_ms q.path q.version_expected (put_manifest q)
      (writer_of a.caller q.tag) hex s'.db))

once_yielded-Names :
    (a : Arrival) (q : PutRequest) (s : ServerState) (y : LeaseManager × YieldStep)
    → Names q.path (once_yielded a q s y)
unfolding Names
once_yielded-Names a q s (m, proceed) h v e c =
    commit_put-Names a q (record s { leases = m }) h v e c
once_yielded-Names a q s (m, fail lease_held) h v e c = ground (arith, e)
once_yielded-Names a q s (m, fail lease_unknown) h v e c = ground (arith, e)
once_yielded-Names a q s (m, push_and_wait conn id channel held) h v e c = ground (arith, e)
once_yielded-Names a q s (m, wait channel) h v e c = ground (arith, e)

NotStale : ServerState × Reply → Type 0
NotStale r = is_stale r.1 ≡ false

-- The file that a put expects is stored at that version.
IsFresh : PutRequest → ServerState → Type 0
IsFresh q s =
    (old_version (find manifest_path q.path s.db.manifests) ≡ q.version_expected)
    × (q.version_expected ≢ 0)

once_fenced-fresh :
    (q : PutRequest) (f : Text → ServerState → ServerState × Reply) (s : ServerState)
    (r : LeaseManager × MountLeaseRegistry × Outcome Denial Text)
    → ((hex : Text) (s' : ServerState) → IsFresh q s' → NotStale (f hex s'))
    → IsFresh q s
    → NotStale (once_fenced f s r)
unfolding IsFresh NotStale
once_fenced-fresh q f s (m, g, ok hex) k fr = k hex (record s { leases = m; mount_leases = g }) fr
once_fenced-fresh q f s (m, g, err x) k fr = refl

answered-fresh :
    (q : PutRequest) (s : ServerState) (r : Result (ℕ × Db))
    → ((x : Error) → r ≡ err x → is_conflict x ≡ false)
    → NotStale
        (answered_with done_version (λ x. put_err_to_wire s.db x q.path q.version_expected) s r)
unfolding NotStale
answered-fresh q s (ok (n, d)) k = refl
answered-fresh q s (err x) k = conflict_if_stale s.db x q.path q.version_expected (k x refl)

commit_put-fresh :
    (a : Arrival) (q : PutRequest) (s : ServerState) → IsFresh q s → NotStale (commit_put a q s)
unfolding commit_put resolve_session_fence IsFresh
commit_put-fresh a q s fr =
    once_fenced-fresh q _ s _
      (λ hex s' fr'. answered-fresh q s' _ (λ x e.
        put-Calm a.present a.now_ms q.path q.version_expected (put_manifest q)
          (writer_of a.caller q.tag) hex s'.db x fr'.0 fr'.1 e))
      fr

once_yielded-fresh :
    (a : Arrival) (q : PutRequest) (s : ServerState) (y : LeaseManager × YieldStep)
    → IsFresh q s
    → NotStale (once_yielded a q s y)
unfolding IsFresh NotStale
once_yielded-fresh a q s (m, proceed) fr = commit_put-fresh a q (record s { leases = m }) fr
once_yielded-fresh a q s (m, fail lease_held) fr = refl
once_yielded-fresh a q s (m, fail lease_unknown) fr = refl
once_yielded-fresh a q s (m, push_and_wait conn id channel held) fr = refl
once_yielded-fresh a q s (m, wait channel) fr = refl

only_if-Names :
    (p : Text) (b : Bool) (f : ServerState → ServerState × Reply) (s : ServerState)
    → Names p (f s)
    → Names p (only_if b f s)
unfolding Names
only_if-Names p true f s k h v e c = k h v e c
only_if-Names p false f s k h v e c = ground (arith, e)

only_if-fresh :
    (b : Bool) (f : ServerState → ServerState × Reply) (s : ServerState)
    → NotStale (f s)
    → NotStale (only_if b f s)
unfolding NotStale
only_if-fresh true f s k = k
only_if-fresh false f s k = refl

-- If a put is answered ESTALE with a current version other than 0, then a put of the same path that expects that version
-- and is the next to be handled is not answered ESTALE, whoever sends it and whatever it writes.
pub retry_is_not_stale :
    (sql : Sqlite) (glob : Text → Text → Bool) (policy : Policy) (a b : Arrival) (q q' : PutRequest)
    (s : ServerState) (h : RecoveryHint) (v : ℕ)
    → (handle_manifest_put sql glob policy a q s).1 ≡ stale h
    → h.current_version ≡ some v
    → v ≢ 0
    → q'.path ≡ q.path
    → q'.version_expected ≡ v
    → is_stale
        (handle_manifest_put sql glob policy b q' (handle_manifest_put sql glob policy a q s).0).1
      ≡ false
unfolding handle_manifest_put yield_then_put Names IsFresh NotStale
retry_is_not_stale sql glob policy a b q q' s h v e c pos path expected =
    let after : ServerState = (handle_manifest_put sql glob policy a q s).0 in
    let named : old_version (find manifest_path q.path after.db.manifests) ≡ v =
      only_if-Names q.path (authorize_path glob policy a.caller q.path) (yield_then_put a q) s
        (once_yielded-Names a q s _) h v e c in
    only_if-fresh (authorize_path glob policy b.caller q'.path) (yield_then_put b q') after (
      once_yielded-fresh b q' after _ (
        ap (λ p. old_version (find manifest_path p after.db.manifests)) path ∙ named ∙ sym expected,
        λ z. pos (sym expected ∙ z),
      ))
