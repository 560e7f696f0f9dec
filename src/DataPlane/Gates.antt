-- ===== src/DataPlane/Gates.antt =====
-- What keeps a request of cmd/orlop-server/dataplane_server.go from changing anything: the policy and the agent's
-- subtree.
use orlop.Prelude.{
  ℕ, Text, Bool, List, [], ◌∷◌, ◌≡◌, refl, arith, ◌&&◌, ◌||◌, not, inl, inr, true, false,
  Bool-cases, ap, eqb, eqb_iff, contains, length, ◌==◌,
}
use orlop.Prelude.Map.{is_empty}
use orlop.Paths.{check_agent_path}
use orlop.Manifest.Rename.Subtree.{Sqlite}
use orlop.DataPlane.{
  Policy, Caller, ServerState, Reply, refused, permits, policy_path, authorize_path, authorize_both,
}
use orlop.DataPlane.Puts.{Arrival, only_if}
use orlop.DataPlane.Writes.{
  handle_manifest_put, handle_manifest_delete, handle_manifest_rename, handle_link,
  handle_dir_create, handle_dir_remove, handle_setattr, handle_symlink, handle_mknod,
  handle_journal_revert_path, all_owned,
}
use orlop.DataPlane.Serve.{
  Request, op_manifest_put, op_manifest_delete, op_manifest_rename, op_link, op_dir_create,
  op_dir_remove, op_setattr, op_symlink, op_mknod, op_journal_revert_path, handle,
}

-- The paths that a request names.
abbrev pub paths_of : Request → List Text
paths_of (op_manifest_put q) = q.path ∷ []
paths_of (op_manifest_delete p expected tag) = p ∷ []
paths_of (op_manifest_rename q) = q.from ∷ q.to ∷ []
paths_of (op_link from to tag) = from ∷ to ∷ []
paths_of (op_dir_create p mode session) = p ∷ []
paths_of (op_dir_remove p session) = p ∷ []
paths_of (op_setattr q) = q.path ∷ []
paths_of (op_symlink p target mode tag) = p ∷ []
paths_of (op_mknod p mode rdev tag) = p ∷ []
paths_of (op_journal_revert_path clock allocation ps force) = ps

-- Every request but a revert is under the policy.
abbrev pub is_under_policy : Request → Bool
is_under_policy (op_journal_revert_path clock allocation ps force) = false
is_under_policy _ = true

-- A path that the policy denies to a request under it, or that is not in the agent's subtree.
abbrev pub is_barred : (Text → Text → Bool) → Policy → Caller → Request → Text → Bool
is_barred glob policy caller q p =
    (is_under_policy q && not (permits glob policy (policy_path p)))
    || not (check_agent_path caller.scoped_agent_id p)

abbrev pub is_refused : Reply → Bool
is_refused (refused e) = true
is_refused _ = false

-- The request leaves the server as it was, and the answer is an error.
abbrev pub IsRefused : ServerState → ServerState × Reply → Type 0
IsRefused s r = (r.0 ≡ s) × (is_refused r.1 ≡ true)

module _ (sql : Sqlite) (glob : Text → Text → Bool) (policy : Policy) (a : Arrival) where
  barred_path :
      (p x : Text)
      → contains (p ∷ []) x ≡ true
      → (not (permits glob policy (policy_path x))
          || not (check_agent_path a.caller.scoped_agent_id x))
        ≡ true
      → authorize_path glob policy a.caller p ≡ false
  unfolding authorize_path
  barred_path p x m b =
      let same : x ≡ p = ground (arith, m, eqb_iff p x, eqb_iff x p) in
      ground (
        arith,
        b,
        ap (λ y. permits glob policy (policy_path y)) same,
        ap (check_agent_path a.caller.scoped_agent_id) same,
      )

  all_owned-barred :
      (ps : List Text) (x : Text)
      → contains ps x ≡ true
      → check_agent_path a.caller.scoped_agent_id x ≡ false
      → all_owned sql glob policy a ps ≡ false
  unfolding all_owned
  all_owned-barred [] x m b = ground (arith, m)
  all_owned-barred (p ∷ ps) x m b = elim (Bool-cases (eqb p x)) [
    | inl e ↦ ground (arith, b, ap (check_agent_path a.caller.scoped_agent_id) ((eqb_iff p x).0 e))
    | inr e ↦ let rest = all_owned-barred ps x (ground (arith, m, e)) b in ground (arith, rest)
  ]

  barred_paths :
      (from to x : Text)
      → contains (from ∷ to ∷ []) x ≡ true
      → (not (permits glob policy (policy_path x))
          || not (check_agent_path a.caller.scoped_agent_id x))
        ≡ true
      → authorize_both glob policy a.caller from to ≡ false
  unfolding authorize_both authorize_path
  barred_paths from to x m b = elim (Bool-cases (eqb from x)) [
    | inl e ↦ let bar = barred_path from x (ground (arith, e)) b in ground (arith, bar)
    | inr e ↦ let bar = barred_path to x (ground (arith, m, e)) b in ground (arith, bar)
  ]

  unauthorized :
      (b : Bool) (f : ServerState → ServerState × Reply) (s : ServerState)
      → b ≡ false
      → IsRefused s (only_if b f s)
  unauthorized true f s e = ground (arith, e)
  unauthorized false f s e = (refl, refl)

  barred_revert :
      (clock : ℕ → ℕ) (allocation : Text) (ps : List Text) (force : Bool) (s : ServerState)
      → all_owned sql glob policy a ps ≡ false
      → IsRefused s (handle_journal_revert_path sql glob policy a clock allocation ps force s)
  unfolding handle_journal_revert_path
  barred_revert clock allocation ps force s e =
      elim (Bool-cases (is_empty allocation || length ps == 0)) [
        | inl f ↦ rw f (refl, refl)
        | inr f ↦ rw f rw e (refl, refl)
      ]

  -- A request that names a path outside the subtree of the agent that the caller's certificate names is refused and changes
  -- nothing, and so is a request other than a revert that names a path which the policy denies. A revert is not under the
  -- policy.
  pub barred_request-IsRefused :
      (q : Request) (x : Text) (s : ServerState)
      → contains (paths_of q) x ≡ true
      → is_barred glob policy a.caller q x ≡ true
      → IsRefused s (handle sql glob policy a q s)
  unfolding handle handle_manifest_put handle_manifest_delete handle_manifest_rename handle_link
      handle_dir_create handle_dir_remove handle_setattr handle_symlink handle_mknod
  barred_request-IsRefused (op_manifest_put q) x s m b =
      unauthorized _ _ s (barred_path q.path x m b)
  barred_request-IsRefused (op_manifest_delete p expected tag) x s m b =
      unauthorized _ _ s (barred_path p x m b)
  barred_request-IsRefused (op_manifest_rename q) x s m b =
      unauthorized _ _ s (barred_paths q.from q.to x m b)
  barred_request-IsRefused (op_link from to tag) x s m b =
      unauthorized _ _ s (barred_paths from to x m b)
  barred_request-IsRefused (op_dir_create p mode session) x s m b =
      unauthorized _ _ s (barred_path p x m b)
  barred_request-IsRefused (op_dir_remove p session) x s m b =
      unauthorized _ _ s (barred_path p x m b)
  barred_request-IsRefused (op_setattr q) x s m b = unauthorized _ _ s (barred_path q.path x m b)
  barred_request-IsRefused (op_symlink p target mode tag) x s m b =
      unauthorized _ _ s (barred_path p x m b)
  barred_request-IsRefused (op_mknod p mode rdev tag) x s m b =
      unauthorized _ _ s (barred_path p x m b)
  barred_request-IsRefused (op_journal_revert_path clock allocation ps force) x s m b =
      barred_revert clock allocation ps force s (all_owned-barred ps x m (ground (arith, b)))
