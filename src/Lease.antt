-- ===== src/Lease.antt =====
-- cmd/orlop-server/lease.go: the path leases of the data plane. Records live on a heap, since the
-- maps by path and by id share them and the calls change them in place. Each definition is one
-- section under the manager's mutex; time, the random id and the order of a `range` over a map are
-- arguments. A set of ids in `by_conn` is its membership test, a missing set is the empty one.
-- Audit records and metrics, which nothing reads back, are left out.
pub mod Calls
pub mod Invariant
pub mod Preservation
pub mod Removal
pub mod Grants
pub mod Sessions
use orlop.Prelude.{
  ℕ, ◌+◌, ◌<◌, Text, Bool, true, false, Option, none, some, List, [], ◌∷◌, ◌&&◌, ◌||◌, ltb, leb,
  not, ◌==◌, eqb, is_some, if◌then◌else◌,
}
use orlop.Prelude.Map.{Map, put, remove, empty}

pub data LeaseMode : Type 0 where
  shared_read exclusive_write : LeaseMode

abbrev pub same_mode : LeaseMode → LeaseMode → Bool
same_mode shared_read shared_read = true
same_mode exclusive_write exclusive_write = true
same_mode _ _ = false

pub record LeaseConfig : Type 0 where
  pub ttl : ℕ
  pub min_hold : ℕ

-- `revoking` is the channel that waiters block on, once a revoke has been pushed.
pub record LeaseRecord : Type 0 where
  pub id : Text
  pub path : Text
  pub mode : LeaseMode
  pub holder : Text
  pub conn_id : ℕ
  pub granted_at : ℕ
  pub expires_at : ℕ
  pub revoking : Option ℕ

-- `records` is the heap, `next_record` and `next_channel` the addresses not yet in use, `closed` the
-- channels that have been closed.
pub record LeaseManager : Type 0 where
  pub cfg : LeaseConfig
  pub records : ℕ → LeaseRecord
  pub next_record : ℕ
  pub by_path : Map Text ℕ
  pub by_id : Map Text ℕ
  pub by_conn : ℕ → Text → Bool
  pub next_channel : ℕ
  pub closed : ℕ → Bool

pub record GrantResult : Type 0 where
  pub lease_id : Text
  pub expires : ℕ
  pub granted_mode : LeaseMode

pub data LeaseError : Type 0 where
  lease_unknown lease_held : LeaseError

-- A write through a pointer.
abbrev pub store : (ℕ → LeaseRecord) → ℕ → LeaseRecord → ℕ → LeaseRecord
store heap q r x = if x == q then r else heap x

-- Membership of `i` in the set of connection `c`, after adding or deleting one id.
abbrev pub add_conn : (ℕ → Text → Bool) → ℕ → Text → ℕ → Text → Bool
add_conn s c i d j = (c == d && eqb i j) || s d j

abbrev pub drop_conn : (ℕ → Text → Bool) → ℕ → Text → ℕ → Text → Bool
drop_conn s c i d j = not (c == d && eqb i j) && s d j

-- Whether an entry of a map is the pointer `q`.
abbrev pub points_to : Option ℕ → ℕ → Bool
points_to none q = false
points_to (some x) q = x == q

abbrev pub close : (ℕ → Bool) → Option ℕ → ℕ → Bool
close closed none x = closed x
close closed (some ch) x = ch == x || closed x

unfoldable pub new_lease_manager : LeaseConfig → LeaseManager
new_lease_manager cfg = record {
  cfg = cfg;
  records = λ q. record {
    id = [];
    path = [];
    mode = shared_read;
    holder = [];
    conn_id = 0;
    granted_at = 0;
    expires_at = 0;
    revoking = none;
  };
  next_record = 0;
  by_path = empty;
  by_id = empty;
  by_conn = λ c i. false;
  next_channel = 0;
  closed = λ ch. false;
}

unfoldable pub remove_locked : LeaseManager → ℕ → LeaseManager
remove_locked m q =
    let rec = m.records q in
    record m {
      by_id = remove m.by_id rec.id;
      by_path = if points_to (m.by_path rec.path) q then remove m.by_path rec.path else m.by_path;
      by_conn = drop_conn m.by_conn rec.conn_id rec.id;
      closed = close m.closed rec.revoking;
      records = store m.records q (record rec { revoking = none });
    }

unfoldable pub install_locked :
    LeaseManager → Text → ℕ → Text → LeaseMode → Text → ℕ → LeaseManager × GrantResult
install_locked m holder conn path mode fresh now = (
  record m {
    records = store m.records m.next_record (record {
      id = fresh;
      path = path;
      mode = mode;
      holder = holder;
      conn_id = conn;
      granted_at = now;
      expires_at = now + m.cfg.ttl;
      revoking = none;
    });
    next_record = m.next_record + 1;
    by_path = put m.by_path path m.next_record;
    by_id = put m.by_id fresh m.next_record;
    by_conn = add_conn m.by_conn conn fresh;
  },
  record { lease_id = fresh; expires = now + m.cfg.ttl; granted_mode = mode },
)

-- The holder asks again on the same connection, or reclaims a lease of no connection: the id stays.
unfoldable pub regrant : LeaseManager → ℕ → ℕ → ℕ → LeaseManager × GrantResult
regrant m q conn now =
    let rec = m.records q in
    (
      record m {
        records = store m.records q (record rec { conn_id = conn; expires_at = now + m.cfg.ttl });
        by_conn = if rec.conn_id == conn then m.by_conn else add_conn m.by_conn conn rec.id;
      },
      record { lease_id = rec.id; expires = now + m.cfg.ttl; granted_mode = rec.mode },
    )

abbrev answered : LeaseManager × GrantResult → LeaseManager × Option GrantResult
answered r = (r.0, some r.1)

-- The branch of `Grant` for a path that has the lease `q`: a regrant, a takeover by a new
-- connection of the same holder, or another round of the loop.
unfoldable pub grant_held :
    LeaseManager → ℕ → Text → ℕ → Text → LeaseMode → Text → ℕ → LeaseManager × Option GrantResult
grant_held m q holder conn path mode fresh now =
    let rec = m.records q in
    if eqb rec.holder holder && same_mode rec.mode mode
    then (if rec.conn_id == conn || rec.conn_id == 0
        then answered (regrant m q conn now)
        else answered (install_locked (remove_locked m q) holder conn path mode fresh now))
    else (m, none)

-- The locked section of `Grant`, after `YieldFor` let the requester proceed: a result, or another
-- round of the loop.
unfoldable pub grant_locked :
    LeaseManager → Text → ℕ → Text → LeaseMode → Text → ℕ → LeaseManager × Option GrantResult
unfolding grant_held
grant_locked m holder conn path mode fresh now = elim (m.by_path path) [
  | none ↦ answered (install_locked m holder conn path mode fresh now)
  | some q ↦ grant_held m q holder conn path mode fresh now
]

-- How one round of `YieldFor` goes on: return, return an error, push a revoke to the holder's
-- connection and wait on the channel, or wait on the channel of an earlier revoke.
pub data YieldStep : Type 0 where
  proceed : YieldStep
  fail : LeaseError → YieldStep
  push_and_wait : (conn : ℕ) (id : Text) (channel held : ℕ) → YieldStep
  wait : (channel : ℕ) → YieldStep

unfoldable pub yield_check : LeaseManager → Text → Text → ℕ → LeaseManager × YieldStep
yield_check m requester path now = elim (m.by_path path) [
  | none ↦ (m, proceed)
  | some q ↦
      let rec = m.records q in
      let marked = record rec { revoking = some m.next_channel } in
      if eqb rec.holder requester
      then (m, proceed)
      else if ltb now (rec.granted_at + m.cfg.min_hold)
      then (m, fail lease_held)
      else (elim rec.revoking [
        | some ch ↦ (m, wait ch)
        | none ↦ (
          record m { records = store m.records q marked; next_channel = m.next_channel + 1 },
          push_and_wait rec.conn_id rec.id m.next_channel q,
        )
      ])
]

-- The section that runs when the holder has not released within the revoke timeout.
pub yield_timeout : LeaseManager → Text → ℕ → LeaseManager
unfolding remove_locked
yield_timeout m path held = if points_to (m.by_path path) held then remove_locked m held else m

unfoldable pub held_by_conn : LeaseManager → Text → ℕ → Bool
held_by_conn m id conn = elim (m.by_id id) [ none ↦ false | some q ↦ (m.records q).conn_id == conn ]

-- Present, unexpired and not being revoked.
pub live : LeaseManager → Text → ℕ → Bool
live m id now = elim (m.by_id id) [
  | none ↦ false
  | some q ↦ not (is_some (m.records q).revoking) && ltb now (m.records q).expires_at
]

unfoldable pub rebind : LeaseManager → ℕ → ℕ → LeaseManager
rebind m q conn =
    let rec = m.records q in
    record m {
      by_conn = add_conn (drop_conn m.by_conn rec.conn_id rec.id) conn rec.id;
      records = store m.records q (record rec { conn_id = conn });
    }

-- The result is (authorized, rebound).
unfoldable pub authorize_or_rebind_session :
    LeaseManager → Text → Text → ℕ → ℕ → LeaseManager × (Bool × Bool)
authorize_or_rebind_session m id holder conn now = elim (m.by_id id) [
  | none ↦ (m, (false, false))
  | some q ↦
      let rec = m.records q in
      if not (eqb rec.holder holder) || not (ltb now rec.expires_at) || is_some rec.revoking
      then (m, (false, false))
      else if rec.conn_id == conn
      then (m, (true, false))
      else if ltb conn rec.conn_id
      then (m, (false, false))
      else (rebind m q conn, (true, true))
]
