-- ===== src/Manifest/Mutations/Soundness.antt =====
-- Every database that the mutations reach from a new one is sound.
use orlop.Prelude.{
  Result-cases, ok, err, find, ℕ, ◌+◌, Text, Bool, Option, List, [], ◌∷◌, ◌≡◌, refl, inl, inr,
  arith, Option-cases, eqb_iff, subst,
}
use orlop.Manifest.Db.{
  Manifest, ManifestRow, SymlinkRow, SpecialRow, DirRow, ChunkRow, chunk_hash, Db, Result,
  manifest_path, update_inode, manifest_not_found,
}
use orlop.Manifest.Chunks.{note_chunk_stored, insert_chunk, refcount}
use orlop.Manifest.Journal.{Writer, alloc_rev}
use orlop.Manifest.Store.{get, put_with_lease_check}
use orlop.Manifest.Links.{link_with_lease_check, delete_with_lease_check, insert_entry}
use orlop.Manifest.Nodes.{register_dir, dir_create, symlink, mknod, dir_remove, perm, type_bits}
use orlop.Manifest.Attrs.{set_mode, set_owner, set_atime, set_row, set_node, set_entry, put_mode}
use orlop.Manifest.Rename.Subtree.{Sqlite}
use orlop.Manifest.Rename.{rename_with_lease_check}
use orlop.Manifest.Ownership.{owned, IsSound}
use orlop.Manifest.Ownership.Changes.{IsSound-eq, Sound-update}
use orlop.Manifest.Ownership.Put.{put-IsSound}
use orlop.Manifest.Ownership.Unlink.{link-IsSound, delete-IsSound}
use orlop.Manifest.Ownership.Rename.{rename-IsSound}
use orlop.Manifest.Mutations.{
  Mutation, puts, links, deletes, renames, registers, makes_dir, removes_dir, makes_symlink,
  makes_node, sets_mode, sets_owner, sets_atime, stores_chunk, committed, committed_with, step, run,
  new_db,
}

new-IsSound : IsSound new_db
unfolding owned find
new-IsSound = record { unique = tt; shared = tt; bounded = tt; exact = λ h. refl }

-- A transaction that leaves files, chunks and inodes alone.
untouched :
    (db d : Db)
    → d.manifests ≡ db.manifests
    → d.chunks ≡ db.chunks
    → d.next_inode ≡ db.next_inode
    → IsSound db
    → IsSound d
untouched db d a b c v = IsSound-eq d db.next_inode db.manifests db.chunks c a b v

module _ (db : Db) (v : IsSound db) where
  committed-IsSound : (r : Result Db) → ((d : Db) → r ≡ ok d → IsSound d) → IsSound (committed db r)
  committed-IsSound (ok d) f = f d refl
  committed-IsSound (err e) f = v

  committed_with-IsSound :
      (r : Result (ℕ × Db))
      → ((n : ℕ) (d : Db) → r ≡ ok (n, d) → IsSound d)
      → IsSound (committed_with db r)
  committed_with-IsSound (ok (n, d)) f = f n d refl
  committed_with-IsSound (err e) f = v

  put_checked-IsSound :
      (present : Option (Text → Bool)) (now : ℕ) (p : Text) (expected : ℕ) (mf : Manifest)
      (w : Writer) (hex : Text) (n : ℕ) (d : Db)
      → put_with_lease_check present now p expected mf w hex db ≡ ok (n, d)
      → IsSound d
  unfolding put_with_lease_check
  put_checked-IsSound present now p expected mf w hex n d e =
      put-IsSound present now p expected mf w db n d (ground (arith, e)) v

  set_entry-IsSound :
      (p : Text) (h : ℕ → DirRow → DirRow) (d : Db) → set_entry p h db ≡ ok d → IsSound d
  unfolding set_entry alloc_rev
  set_entry-IsSound p h d e =
      untouched db d (ground (arith, e)) (ground (arith, e)) (ground (arith, e)) v

  set_node-IsSound :
      (p : Text) (f : ℕ → SymlinkRow → SymlinkRow) (g : ℕ → SpecialRow → SpecialRow)
      (h : ℕ → DirRow → DirRow) (d : Db)
      → set_node p f g h db ≡ ok d
      → IsSound d
  unfolding set_node set_entry alloc_rev
  set_node-IsSound p f g h d e =
      untouched db d (ground (arith, e)) (ground (arith, e)) (ground (arith, e)) v

  set_row-IsSound :
      (p : Text) (e : ℕ → ManifestRow → ManifestRow) (f : ℕ → SymlinkRow → SymlinkRow)
      (g : ℕ → SpecialRow → SpecialRow) (h : ℕ → DirRow → DirRow)
      → ((r : ManifestRow) → (e (db.last_rev + 1) r).path ≡ r.path)
      → ((r : ManifestRow) → (e (db.last_rev + 1) r).inode_id ≡ r.inode_id)
      → ((r : ManifestRow) → (e (db.last_rev + 1) r).chunks ≡ r.chunks)
      → ((r s : ManifestRow)
          → r.version ≡ s.version
          → (e (db.last_rev + 1) r).version ≡ (e (db.last_rev + 1) s).version)
      → (d : Db) → set_row p e f g h db ≡ ok d
      → IsSound d
  unfolding set_row alloc_rev
  set_row-IsSound p e f g h path inode chunks version d t =
      elim (Option-cases (find manifest_path p db.manifests)) [
        | inl k ↦ set_node-IsSound p f g h d (ground (arith, t, k))
        | inr (r, k) ↦
            IsSound-eq d db.next_inode (update_inode r.inode_id (e (db.last_rev + 1)) db.manifests)
              db.chunks (ground (arith, t, k)) (ground (arith, t, k)) (ground (arith, t, k))
              (Sound-update r.inode_id (e (db.last_rev + 1)) path inode chunks version db.next_inode
                db.manifests db.chunks v)
      ]

  set_owner-IsSound : (p : Text) (uid gid : ℕ) (d : Db) → set_owner p uid gid db ≡ ok d → IsSound d
  unfolding set_owner
  set_owner-IsSound p uid gid d t =
      set_row-IsSound p (λ rev r. record r { uid = uid; gid = gid; rev = rev })
        (λ rev r. record r { uid = uid; gid = gid; rev = rev })
        (λ rev r. record r { uid = uid; gid = gid; rev = rev })
        (λ rev r. record r { uid = uid; gid = gid; rev = rev }) (λ r. refl) (λ r. refl) (λ r. refl)
        (λ r s x. x) d t

  set_atime-IsSound : (p : Text) (atime : ℕ) (d : Db) → set_atime p atime db ≡ ok d → IsSound d
  unfolding set_atime
  set_atime-IsSound p atime d t =
      set_row-IsSound p (λ rev r. record r { atime = atime; rev = rev })
        (λ rev r. record r { atime = atime; rev = rev })
        (λ rev r. record r { atime = atime; rev = rev })
        (λ rev r. record r { atime = atime; rev = rev }) (λ r. refl) (λ r. refl) (λ r. refl)
        (λ r s x. x) d t

  put_mode-IsSound :
      (present : Option (Text → Bool)) (now : ℕ) (p : Text) (mode : ℕ) (w : Writer) (hex : Text)
      (mf : Manifest) (d : Db)
      → put_mode present now p mode w hex mf db ≡ ok d
      → IsSound d
  put_mode-IsSound present now p mode w hex mf d t =
      let r : Result (ℕ × Db) =
        put_with_lease_check present now p mf.version (record mf { mode = mode }) w hex db in
      elim (Result-cases r) [
        | inr (_, k) ↦ ground (arith, t, k)
        | inl ((n, d1), k) ↦
            let same : d1 ≡ d = ground (arith, t, k) in
            subst IsSound same (
              put_checked-IsSound present now p mf.version (record mf { mode = mode }) w hex n d1 k)
      ]

  set_mode-IsSound :
      (present : Option (Text → Bool)) (now : ℕ) (p : Text) (mode : ℕ) (w : Writer) (hex : Text)
      (d : Db)
      → set_mode present now p mode w hex db ≡ ok d
      → IsSound d
  unfolding set_mode
  set_mode-IsSound present now p mode w hex d t = elim (Result-cases (get p db)) [
    | inl (mf, k) ↦ put_mode-IsSound present now p (perm mode) w hex mf d (ground (arith, t, k))
    | inr (manifest_not_found, k) ↦
        set_node-IsSound p (λ rev r. record r { mode = perm mode; rev = rev })
          (λ rev r. record r { mode = type_bits r.mode + perm mode; rev = rev })
          (λ rev r. record r { mode = perm mode; rev = rev }) d (ground (arith, t, k))
    | inr (x, k) ↦ ground (arith, t, k)
  ]

refcount-insert_chunk :
    (h k : Text) (size at : ℕ) (rows : List ChunkRow)
    → refcount h (insert_chunk k size at rows) ≡ refcount h rows
unfolding find insert_chunk
refcount-insert_chunk h k size at rows = elim (Option-cases (find chunk_hash k rows)) [
  | inl e ↦ ground (arith, e, eqb_iff k h)
  | inr (r, e) ↦ ground (arith, e)
]

stores-IsSound :
    (db : Db) (h : Text) (size at : ℕ)
    → IsSound db
    → IsSound (record db { chunks = note_chunk_stored h size at db.chunks })
unfolding note_chunk_stored
stores-IsSound db h size at v = record {
  unique = v.unique;
  shared = v.shared;
  bounded = v.bounded;
  exact = λ k. omega (arith, v.exact k, refcount-insert_chunk k h size at db.chunks);
}

module _ (sql : Sqlite) where
  pub step-IsSound : (db : Db) (c : Mutation) → IsSound db → IsSound (step sql db c)
  unfolding step link_with_lease_check delete_with_lease_check rename_with_lease_check register_dir
      dir_create symlink mknod dir_remove alloc_rev insert_entry
  step-IsSound db (puts present now p expected mf w hex) v =
      committed_with-IsSound db v _ (put_checked-IsSound db v present now p expected mf w hex)
  step-IsSound db (links now from to w hex) v =
      committed_with-IsSound db v (link_with_lease_check now from to w hex db)
        (λ n d e. link-IsSound now from to w db n d (ground (arith, e)) v)
  step-IsSound db (deletes now p expected w hex) v =
      committed-IsSound db v (delete_with_lease_check now p expected w hex db)
        (λ d e. delete-IsSound now p expected w db d (ground (arith, e)) v)
  step-IsSound db (renames now from to expected_from expected_to no_replace w hex) v =
      committed_with-IsSound db v
        (rename_with_lease_check sql now from to expected_from expected_to no_replace w hex db)
        (λ n d e.
          rename-IsSound sql now from to expected_from expected_to no_replace w db n d
            (ground (arith, e)) v)
  step-IsSound db (registers parent name) v =
      untouched db (register_dir parent name db) refl refl refl v
  step-IsSound db (makes_dir p mode) v =
      committed-IsSound db v (dir_create p mode db)
        (λ d e. untouched db d (ground (arith, e)) (ground (arith, e)) (ground (arith, e)) v)
  step-IsSound db (removes_dir now p) v =
      committed-IsSound db v (dir_remove sql.glob now p db)
        (λ d e. untouched db d (ground (arith, e)) (ground (arith, e)) (ground (arith, e)) v)
  step-IsSound db (makes_symlink p target mode) v =
      committed-IsSound db v (symlink p target mode db)
        (λ d e. untouched db d (ground (arith, e)) (ground (arith, e)) (ground (arith, e)) v)
  step-IsSound db (makes_node p mode rdev) v =
      committed-IsSound db v (mknod p mode rdev db)
        (λ d e. untouched db d (ground (arith, e)) (ground (arith, e)) (ground (arith, e)) v)
  step-IsSound db (sets_mode present now p mode w hex) v =
      committed-IsSound db v _ (set_mode-IsSound db v present now p mode w hex)
  step-IsSound db (sets_owner p uid gid) v =
      committed-IsSound db v _ (set_owner-IsSound db v p uid gid)
  step-IsSound db (sets_atime p atime) v = committed-IsSound db v _ (set_atime-IsSound db v p atime)
  step-IsSound db (stores_chunk hash size added_at) v = stores-IsSound db hash size added_at v

  run-IsSound : (db : Db) (cs : List Mutation) → IsSound db → IsSound (run sql db cs)
  unfolding run
  run-IsSound db [] v = v
  run-IsSound db (c ∷ cs) v = run-IsSound (step sql db c) cs (step-IsSound db c v)

  -- Whatever mutations run one after another on a new tenant's database, failed ones included, the
  -- database that they reach is sound.
  pub reached-IsSound : (cs : List Mutation) → IsSound (run sql new_db cs)
  reached-IsSound cs = run-IsSound new_db cs new-IsSound
