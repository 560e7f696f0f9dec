-- ===== src/Lease/Preservation.antt =====
-- Every section of the manager's code keeps the invariant.
use orlop.Prelude.{
  ℕ, ◌+◌, ◌<◌, Text, true, false, none, some, List, [], ◌∷◌, ◌≡◌, refl, arith, ◌==◌, eqb, eqb_iff,
  Option-cases, inl, inr, Bool-cases, not, ◌&&◌, ◌||◌, ltb, is_some, length,
}
use orlop.Lease.{
  LeaseManager, LeaseMode, remove_locked, regrant, grant_held, grant_locked, yield_check,
  yield_timeout, rebind, authorize_or_rebind_session, same_mode,
}
use orlop.Lease.Calls.{
  bound_record, refresh, release, sweep_one, sweep_expired, release_one, release_all_for_conn,
}
use orlop.Lease.Invariant.{
  Inv, remove_locked-Inv, install_locked-Inv, store_same-Inv, store_moved-Inv,
}

module _ (m : LeaseManager) (v : Inv m) where
  free_after_removal :
      (p : Text) (q : ℕ) → m.by_path p ≡ some q → (remove_locked m q).by_path p ≡ none
  unfolding remove_locked
  free_after_removal p q e = ground (arith, e, v.path_path p q e, eqb_iff p p, v.path_id p q e)

  unused_after_removal : (i : Text) (q : ℕ) → m.by_id i ≡ none → (remove_locked m q).by_id i ≡ none
  unfolding remove_locked
  unused_after_removal i q e = ground (arith, e)

  regrant-Inv :
      (q conn now : ℕ)
      → m.by_id (m.records q).id ≡ some q
      → 0 < conn
      → ((m.records q).conn_id == conn || (m.records q).conn_id == 0) ≡ true
      → Inv (regrant m q conn now).0
  unfolding regrant
  regrant-Inv q conn now at pos bound =
      store_moved-Inv m v q _ refl refl _ m.next_channel at
        λ c i. ground (arith, v.conns c i, eqb_iff (m.records q).id i)

  grant_held-Inv :
      (q : ℕ) (holder : Text) (conn : ℕ) (path : Text) (mode : LeaseMode) (id : Text) (now : ℕ)
      → m.by_id id ≡ none
      → 0 < conn
      → m.by_id (m.records q).id ≡ some q
      → (remove_locked m q).by_path path ≡ none
      → Inv (grant_held m q holder conn path mode id now).0
  unfolding grant_held
  grant_held-Inv q holder conn path mode id now unused pos at free =
      elim (Bool-cases (eqb (m.records q).holder holder && same_mode (m.records q).mode mode)) [
        | inr differs ↦ rw differs v
        | inl same ↦
            rw same
              (elim (Bool-cases ((m.records q).conn_id == conn || (m.records q).conn_id == 0)) [
                | inl bound ↦ rw bound (regrant-Inv q conn now at pos bound)
                | inr other ↦ rw other (
                    install_locked-Inv (remove_locked m q)
                      (remove_locked-Inv m v (m.records q).id q at) holder conn path mode id now
                      free (unused_after_removal id q unused) pos)
              ])
      ]

  pub grant_locked-Inv :
      (holder : Text) (conn : ℕ) (path : Text) (mode : LeaseMode) (id : Text) (now : ℕ)
      → m.by_id id ≡ none
      → 0 < conn
      → Inv (grant_locked m holder conn path mode id now).0
  unfolding grant_locked
  grant_locked-Inv holder conn path mode id now unused pos = elim (Option-cases (m.by_path path)) [
    | inl e ↦
        rw (e, grant_locked) (install_locked-Inv m v holder conn path mode id now e unused pos)
    | inr (q, e) ↦
        rw (e, grant_locked)
          (grant_held-Inv q holder conn path mode id now unused pos (v.path_id path q e)
            (free_after_removal path q e))
  ]

  pub yield_check-Inv : (requester path : Text) (now : ℕ) → Inv (yield_check m requester path now).0
  unfolding yield_check
  yield_check-Inv requester path now = elim (Option-cases (m.by_path path)) [
    | inl e ↦ rw (e, yield_check) v
    | inr (q, e) ↦
        rw (e, yield_check)
          (elim (Bool-cases (eqb (m.records q).holder requester)) [
            | inl own ↦ rw own v
            | inr foreign ↦
                rw foreign
                  (elim (Bool-cases (ltb now ((m.records q).granted_at + m.cfg.min_hold))) [
                    | inl early ↦ rw early v
                    | inr late ↦ rw late (elim (Option-cases (m.records q).revoking) [
                      | inl idle ↦ rw (idle, yield_check) (store_same-Inv m v q _ refl refl _ refl)
                      | inr (ch, busy) ↦ rw (busy, yield_check) v
                    ])
                  ])
          ])
  ]

  pub yield_timeout-Inv : (path : Text) (held : ℕ) → Inv (yield_timeout m path held)
  unfolding yield_timeout
  yield_timeout-Inv path held = elim (Option-cases (m.by_path path)) [
    | inl e ↦ rw (e, yield_timeout) v
    | inr (q, e) ↦
        rw (e, yield_timeout)
          (elim (Bool-cases (q == held)) [
            | inr moved ↦ rw moved v
            | inl still ↦ rw still (
                remove_locked-Inv m v (m.records held).id held
                  (ground (arith, e, still, v.path_id path q e)))
          ])
  ]

  rebound-Inv :
      (id : Text) (q conn : ℕ)
      → m.by_id id ≡ some q
      → ((m.records q).conn_id == conn) ≡ false
      → ltb conn (m.records q).conn_id ≡ false
      → Inv (rebind m q conn)
  unfolding rebind
  rebound-Inv id q conn at other successor =
      store_moved-Inv m v q _ refl refl _ m.next_channel (ground (arith, v.id_id id q at)) λ c i.
        ground (arith, at, other, successor, v.id_id id q, v.conns c i, eqb_iff (m.records q).id i)

  pub authorize-Inv :
      (id holder : Text) (conn now : ℕ) → Inv (authorize_or_rebind_session m id holder conn now).0
  unfolding authorize_or_rebind_session
  authorize-Inv id holder conn now = elim (Option-cases (m.by_id id)) [
    | inl e ↦ rw (e, authorize_or_rebind_session) v
    | inr (q, e) ↦
        rw (e, authorize_or_rebind_session)
          (elim (Bool-cases (
            not (eqb (m.records q).holder holder)
            || not (ltb now (m.records q).expires_at)
            || is_some (m.records q).revoking)) [
              | inl refused ↦ rw refused v
              | inr fits ↦ rw fits (elim (Bool-cases ((m.records q).conn_id == conn)) [
                | inl same ↦ rw same v
                | inr other ↦ rw other (elim (Bool-cases (ltb conn (m.records q).conn_id)) [
                  | inl old ↦ rw old v
                  | inr successor ↦ rw successor (rebound-Inv id q conn e other successor)
                ])
              ])
            ])
  ]

  pub refresh-Inv : (id : Text) (conn now : ℕ) → Inv (refresh m id conn now).0
  unfolding refresh
  refresh-Inv id conn now = elim (Bool-cases (length id == 16)) [
    | inr bad ↦ rw bad v
    | inl good ↦ rw good (elim (Option-cases (bound_record m id conn)) [
      | inl e ↦ rw (e, refresh) v
      | inr (q, e) ↦ rw (e, refresh) (store_same-Inv m v q _ refl refl m.next_channel refl)
    ])
  ]

  bound_record-lookup :
      (id : Text) (conn q : ℕ) → bound_record m id conn ≡ some q → m.by_id id ≡ some q
  unfolding bound_record
  bound_record-lookup id conn q e = ground arith

  pub release-Inv : (id : Text) (conn : ℕ) → Inv (release m id conn).0
  unfolding release
  release-Inv id conn = elim (Bool-cases (length id == 16)) [
    | inr bad ↦ rw bad v
    | inl good ↦ rw good (elim (Option-cases (bound_record m id conn)) [
      | inl e ↦ rw (e, release) v
      | inr (q, e) ↦ rw (e, release) (remove_locked-Inv m v id q (bound_record-lookup id conn q e))
    ])
  ]

  pub sweep_one-Inv : (now : ℕ) (id : Text) → Inv (sweep_one m now id)
  unfolding sweep_one
  sweep_one-Inv now id = elim (Option-cases (m.by_id id)) [
    | inl e ↦ rw (e, sweep_one) v
    | inr (q, e) ↦
        rw (e, sweep_one)
          (elim (Bool-cases (is_some (m.records q).revoking)) [
            | inl busy ↦ rw busy v
            | inr idle ↦ rw idle (elim (Bool-cases (ltb now (m.records q).expires_at)) [
              | inl valid ↦ rw valid v
              | inr over ↦ rw over (remove_locked-Inv m v id q e)
            ])
          ])
  ]

  pub release_one-Inv : (conn : ℕ) (id : Text) → Inv (release_one m conn id)
  unfolding release_one
  release_one-Inv conn id = elim (Bool-cases (m.by_conn conn id)) [
    | inr other ↦ rw other v
    | inl own ↦ rw own (elim (Option-cases (m.by_id id)) [
      | inl e ↦ rw (e, release_one) v
      | inr (q, e) ↦ rw (e, release_one) (remove_locked-Inv m v id q e)
    ])
  ]

pub sweep_expired-Inv :
    (m : LeaseManager) (now : ℕ) (order : List Text) → Inv m → Inv (sweep_expired m now order)
unfolding sweep_expired
sweep_expired-Inv m now [] v = v
sweep_expired-Inv m now (id ∷ order) v =
    sweep_expired-Inv (sweep_one m now id) now order (sweep_one-Inv m v now id)

pub release_all_for_conn-Inv :
    (m : LeaseManager) (conn : ℕ) (order : List Text)
    → Inv m
    → Inv (release_all_for_conn m conn order)
unfolding release_all_for_conn
release_all_for_conn-Inv m conn [] v = v
release_all_for_conn-Inv m conn (id ∷ order) v =
    release_all_for_conn-Inv (release_one m conn id) conn order (release_one-Inv m v conn id)
