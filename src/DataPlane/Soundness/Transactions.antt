-- ===== src/DataPlane/Soundness/Transactions.antt =====
-- What the transactions and the checks of the handlers keep: a sound database stays sound.
use orlop.Prelude.{
  ℕ, Text, Bool, ◌≡◌, ◌∙◌, sym, subst, refl, arith, inl, inr, Outcome, ok, err, ◌||◌, is_some,
  Result-cases, Option-cases, Bool-cases, true, false,
}
use orlop.Fence.{MountLeaseRegistry}
use orlop.Lease.{LeaseManager, YieldStep, proceed, fail, push_and_wait, wait}
use orlop.Manifest.Db.{Db, Error, Result}
use orlop.Manifest.Store.{put_with_lease_check}
use orlop.Manifest.Attrs.{set_atime}
use orlop.Manifest.Mutations.{
  Mutation, puts, sets_owner, sets_atime, committed, committed_with, step,
}
use orlop.Manifest.Mutations.Soundness.{step-IsSound}
use orlop.Manifest.Ownership.{IsSound}
use orlop.Manifest.Rename.Subtree.{Sqlite}
use orlop.Session.{Denial}
use orlop.DataPlane.{
  Caller, ServerState, SessionTag, Reply, done, done_version, done_nlink, done_revert, refused,
  stale, waits, once_fenced, resolve_session_fence, writer_of,
}
use orlop.DataPlane.Puts.{
  put_err_to_wire, Arrival, PutRequest, put_manifest, answered, answered_with, only_if, commit_put,
  once_yielded, yield_then_put,
}
use orlop.DataPlane.Writes.{
  SetattrRequest, or_current, stat_owner, chown, set_owner_if, set_atime_if, and_then,
}

-- A request that keeps every sound database sound.
abbrev pub Keeps : (ServerState → ServerState × Reply) → Type 0
Keeps f = (s : ServerState) → IsSound s.db → IsSound (f s).0.db

pub only_if-Keeps :
    (b : Bool) (f : ServerState → ServerState × Reply) → Keeps f → Keeps (only_if b f)
only_if-Keeps true f k s v = k s v
only_if-Keeps false f k s v = v

answered-committed :
    (e : Error → Reply) (s : ServerState) (r : Result Db) → (answered e s r).0.db ≡ committed s.db r
answered-committed e s (ok d) = refl
answered-committed e s (err x) = refl

answered_with-committed :
    (f : ℕ → Reply) (e : Error → Reply) (s : ServerState) (r : Result (ℕ × Db))
    → (answered_with f e s r).0.db ≡ committed_with s.db r
answered_with-committed f e s (ok (n, d)) = refl
answered_with-committed f e s (err x) = refl

pub once_fenced-Keeps :
    (f : Text → ServerState → ServerState × Reply) (s : ServerState)
    (r : LeaseManager × MountLeaseRegistry × Outcome Denial Text)
    → ((hex : Text) → Keeps (f hex))
    → IsSound s.db
    → IsSound (once_fenced f s r).0.db
once_fenced-Keeps f s (m, r, ok hex) k v = k hex (record s { leases = m; mount_leases = r }) v
once_fenced-Keeps f s (m, r, err e) k v = v

pub fenced-Keeps :
    (caller : Caller) (now : ℕ) (tag : SessionTag) (f : Text → ServerState → ServerState × Reply)
    → ((hex : Text) → Keeps (f hex))
    → Keeps (resolve_session_fence caller now tag f)
unfolding resolve_session_fence
fenced-Keeps caller now tag f k s v = once_fenced-Keeps f s _ k v

module _ (sql : Sqlite) where
  -- The answer to the transaction of a mutation.
  pub answered-Keeps :
      (e : ServerState → Error → Reply) (f : Db → Result Db) (c : Mutation)
      → ((db : Db) → committed db (f db) ≡ step sql db c)
      → Keeps (λ s. answered (e s) s (f s.db))
  answered-Keeps e f c same s v =
      subst IsSound (sym (answered-committed (e s) s (f s.db) ∙ same s.db))
        (step-IsSound sql s.db c v)

  pub answered_with-Keeps :
      (g : ℕ → Reply) (e : ServerState → Error → Reply) (f : Db → Result (ℕ × Db)) (c : Mutation)
      → ((db : Db) → committed_with db (f db) ≡ step sql db c)
      → Keeps (λ s. answered_with g (e s) s (f s.db))
  answered_with-Keeps g e f c same s v =
      subst IsSound (sym (answered_with-committed g (e s) s (f s.db) ∙ same s.db))
        (step-IsSound sql s.db c v)

  pub commit_put-Keeps : (a : Arrival) (q : PutRequest) → Keeps (commit_put a q)
  unfolding commit_put step
  commit_put-Keeps a q s v =
      fenced-Keeps a.caller a.now q.tag _
        (λ hex.
          answered_with-Keeps done_version
            (λ s' x. put_err_to_wire s'.db x q.path q.version_expected)
            (put_with_lease_check a.present a.now_ms q.path q.version_expected (put_manifest q)
              (writer_of a.caller q.tag) hex)
            (puts a.present a.now_ms q.path q.version_expected (put_manifest q)
              (writer_of a.caller q.tag) hex)
            (λ db. refl))
        s v

  pub once_yielded-Keeps :
      (a : Arrival) (q : PutRequest) (s : ServerState) (r : LeaseManager × YieldStep)
      → IsSound s.db
      → IsSound (once_yielded a q s r).0.db
  once_yielded-Keeps a q s (m, proceed) v = commit_put-Keeps a q (record s { leases = m }) v
  once_yielded-Keeps a q s (m, fail e) v = v
  once_yielded-Keeps a q s (m, push_and_wait conn id channel held) v = v
  once_yielded-Keeps a q s (m, wait channel) v = v

  pub yield_then_put-Keeps : (a : Arrival) (q : PutRequest) → Keeps (yield_then_put a q)
  unfolding yield_then_put
  yield_then_put-Keeps a q s v = once_yielded-Keeps a q s _ v

  pub chown-Sound :
      (q : SetattrRequest) (db d : Db) (r : Result (ℕ × ℕ))
      → IsSound db
      → chown q db r ≡ ok d
      → IsSound d
  unfolding step
  chown-Sound q db d (err e) v t = ground (arith, t)
  chown-Sound q db d (ok (uid, gid)) v t =
      subst (λ r. IsSound (committed db r)) t
        (step-IsSound sql db (sets_owner q.path (or_current q.uid uid) (or_current q.gid gid)) v)

  pub set_owner_if-Sound :
      (q : SetattrRequest) (db d : Db) → IsSound db → set_owner_if q db ≡ ok d → IsSound d
  unfolding set_owner_if
  set_owner_if-Sound q db d v t = elim (Bool-cases (is_some q.uid || is_some q.gid)) [
    | inl e ↦ chown-Sound q db d (stat_owner q.path db) v (ground (arith, t, e))
    | inr e ↦ let same : db ≡ d = ground (arith, t, e) in subst IsSound same v
  ]

  pub set_atime_if-Sound :
      (q : SetattrRequest) (db d : Db) → IsSound db → set_atime_if q db ≡ ok d → IsSound d
  unfolding set_atime_if step
  set_atime_if-Sound q db d v t = elim (Option-cases q.atime) [
    | inl e ↦ let same : db ≡ d = ground (arith, t, e) in subst IsSound same v
    | inr (n, e) ↦
        let set : set_atime q.path n db ≡ ok d = ground (arith, t, e) in
        subst (λ r. IsSound (committed db r)) set (step-IsSound sql db (sets_atime q.path n) v)
  ]

  pub and_then-Sound :
      (f : Db → Result Db)
      → ((db d : Db) → IsSound db → f db ≡ ok d → IsSound d)
      → (r : ServerState × Reply) → IsSound r.0.db
      → IsSound (and_then f r).0.db
  and_then-Sound f k (s, done) v = elim (Result-cases (f s.db)) [
    | inl (d, e) ↦ rw e (k s.db d v e)
    | inr (x, e) ↦ rw e v
  ]
  and_then-Sound f k (s, done_version n) v = v
  and_then-Sound f k (s, done_nlink n) v = v
  and_then-Sound f k (s, done_revert ps cs) v = v
  and_then-Sound f k (s, refused e) v = v
  and_then-Sound f k (s, stale h) v = v
  and_then-Sound f k (s, waits y) v = v
