-- ===== src/Lease/Invariant.antt =====
-- The maps of the manager agree: by path, by id and by connection they hold the same leases.
use orlop.Prelude.{
  ℕ, ◌<◌, Text, Bool, false, Option, none, some, ◌≡◌, refl, arith, ◌==◌, eqb, eqb_iff, Option-cases,
  inl, inr, if◌then◌else◌, not, ◌&&◌,
}
use orlop.Lease.{
  LeaseManager, LeaseConfig, LeaseRecord, LeaseMode, new_lease_manager, remove_locked,
  install_locked, store,
}

-- The lease that an entry of `by_id` points to is bound to the connection `c`; 0 stands for none.
abbrev pub bound_to : LeaseManager → Option ℕ → ℕ → Bool
bound_to m none c = false
bound_to m (some q) c = not (c == 0) && (m.records q).conn_id == c

pub record Inv (m : LeaseManager) : Type 0 where
  pub path_id : (p : Text) (q : ℕ) → m.by_path p ≡ some q → m.by_id (m.records q).id ≡ some q
  pub path_path : (p : Text) (q : ℕ) → m.by_path p ≡ some q → (m.records q).path ≡ p
  pub id_id : (i : Text) (q : ℕ) → m.by_id i ≡ some q → (m.records q).id ≡ i
  pub id_path : (i : Text) (q : ℕ) → m.by_id i ≡ some q → m.by_path (m.records q).path ≡ some q
  pub fresh : (i : Text) (q : ℕ) → m.by_id i ≡ some q → q < m.next_record
  pub conns : (c : ℕ) (i : Text) → m.by_conn c i ≡ bound_to m (m.by_id i) c

pub new-Inv : (cfg : LeaseConfig) → Inv (new_lease_manager cfg)
unfolding new_lease_manager
new-Inv cfg = record {
  path_id = λ p q e. cc;
  path_path = λ p q e. cc;
  id_id = λ i q e. cc;
  id_path = λ i q e. cc;
  fresh = λ i q e. cc;
  conns = λ c i. refl;
}

module _ (m : LeaseManager) (v : Inv m) (i : Text) (q : ℕ) (at : m.by_id i ≡ some q) where
  pub remove_locked-Inv : Inv (remove_locked m q)
  unfolding remove_locked
  remove_locked-Inv = record {
    path_id = λ p x e. ground (
      arith,
      at,
      v.id_id i q,
      v.id_path i q,
      v.path_id p x,
      v.path_path p x,
      eqb_iff (m.records q).path p,
      eqb_iff (m.records q).id (m.records x).id,
    );
    path_path = λ p x e.
        ground
          (arith, at, v.id_id i q, v.id_path i q, v.path_path p x, eqb_iff (m.records q).path p);
    id_id = λ j x e. ground (arith, v.id_id j x, eqb_iff (m.records q).id j);
    id_path = λ j x e. ground (
      arith,
      at,
      v.id_id i q,
      v.id_path i q,
      v.id_id j x,
      v.id_path j x,
      eqb_iff (m.records q).id j,
      eqb_iff (m.records q).path (m.records x).path,
    );
    fresh = λ j x e. ground (arith, v.fresh j x, eqb_iff (m.records q).id j);
    conns = λ c j.
        ground (
          arith,
          at,
          v.id_id i q,
          v.conns c j,
          eqb_iff (m.records q).id j,
          Option-cases (m.by_id j),
        );
  }

module _ (m : LeaseManager) (v : Inv m) (holder : Text) (conn : ℕ) (path : Text) (mode : LeaseMode)
    (id : Text) (now : ℕ) (free : m.by_path path ≡ none) (unused : m.by_id id ≡ none)
    (live_conn : 0 < conn) where
  pub install_locked-Inv : Inv (install_locked m holder conn path mode id now).0
  unfolding install_locked
  install_locked-Inv = record {
    path_id = λ p x e. ground (
      arith,
      free,
      unused,
      v.path_id p x,
      v.fresh (m.records x).id x,
      eqb_iff path p,
      eqb_iff id id,
      eqb_iff id (m.records x).id,
    );
    path_path = λ p x e.
        ground (arith, v.path_id p x, v.path_path p x, v.fresh (m.records x).id x, eqb_iff path p);
    id_id = λ j x e. ground (arith, v.id_id j x, v.fresh j x, eqb_iff id j);
    id_path = λ j x e. ground (
      arith,
      free,
      v.id_path j x,
      v.fresh j x,
      eqb_iff id j,
      eqb_iff path path,
      eqb_iff path (m.records x).path,
    );
    fresh = λ j x e. ground (arith, v.fresh j x, eqb_iff id j);
    conns = λ c j. elim (Option-cases (m.by_id j)) [
      | inl e ↦ ground (arith, e, v.conns c j, eqb_iff id j)
      | inr (x, e) ↦ ground (arith, e, unused, v.fresh j x e, v.conns c j, eqb_iff id j)
    ];
  }

-- Changing a record in place keeps the invariant if id and path stay and `by_conn` follows.
module _ (m : LeaseManager) (v : Inv m) (q : ℕ) (r : LeaseRecord)
    (same_id : r.id ≡ (m.records q).id) (same_path : r.path ≡ (m.records q).path) where
  pub store-Inv :
      (s : ℕ → Text → Bool) (n : ℕ)
      → ((c : ℕ) (i : Text)
          → s c i ≡ bound_to (record m { records = store m.records q r }) (m.by_id i) c)
      → Inv (record m { records = store m.records q r; by_conn = s; next_channel = n })
  store-Inv s n keep = record {
    path_id = λ p x e. ground (arith, v.path_id p x e, same_id);
    path_path = λ p x e. ground (arith, v.path_path p x e, same_path);
    id_id = λ i x e. ground (arith, v.id_id i x e, same_id);
    id_path = λ i x e. ground (arith, v.id_path i x e, same_path);
    fresh = v.fresh;
    conns = keep;
  }

  -- The same for a record whose connection stays.
  pub store_same-Inv :
      (n : ℕ)
      → r.conn_id ≡ (m.records q).conn_id
      → Inv (record m { records = store m.records q r; next_channel = n })
  store_same-Inv n same_conn = store-Inv m.by_conn n λ c i. elim (Option-cases (m.by_id i)) [
    | inl e ↦ ground (arith, e, v.conns c i)
    | inr (x, e) ↦ ground (arith, e, v.conns c i, same_conn)
  ]

  -- The same for a record that moves to another connection.
  pub store_moved-Inv :
      (s : ℕ → Text → Bool) (n : ℕ)
      → m.by_id r.id ≡ some q
      → ((c : ℕ) (i : Text)
          → s c i ≡ (if eqb r.id i then not (c == 0) && r.conn_id == c else m.by_conn c i))
      → Inv (record m { records = store m.records q r; by_conn = s; next_channel = n })
  store_moved-Inv s n at moved = store-Inv s n λ c i. elim (Option-cases (m.by_id i)) [
    | inl e ↦ ground (arith, e, at, moved c i, v.conns c i, eqb_iff r.id i)
    | inr (x, e) ↦
        ground (arith, e, at, moved c i, v.conns c i, v.id_id i x e, same_id, eqb_iff r.id i)
  ]
