-- ===== src/Manifest/Links/Removal.antt =====
-- What the deletion of a file leaves.
use orlop.Prelude.{
  Result-cases, ok, find, delete_key, ℕ, ◌+◌, Text, Option, none, some, List, [], ◌∷◌, ◌≡◌, refl,
  inl, inr, arith, Option-cases, Bool-cases, Bool, false, not, ◌&&◌, eqb, eqb_iff, find-delete_key,
  if◌then◌else◌,
}
use orlop.Prelude.Map.{is_empty}
use orlop.Manifest.Db.{
  ManifestRow, DirRow, TombstoneRow, has_entry, delete_entry, Db, manifest_path, symlink_path,
  special_path, tombstone_path, update_inode,
}
use orlop.Manifest.Journal.{Writer, alloc_rev, upsert_tombstone}
use orlop.Manifest.Store.{parent_of, name_of, old_version}
use orlop.Manifest.Links.{
  delete, delete_manifest, delete_rows, delete_special_node, delete_symlink, forget_path,
  remove_dir_entry, journal_delete, release_chunks, stamp,
}
use orlop.Manifest.Ownership.Unlink.{unlinked, journal_delete_ok, release_rows}

-- A row without its revision.
abbrev pub content : Option ManifestRow → Option ManifestRow
content none = none
content (some r) = some (record r { rev = 0 })

content-stamp :
    (i rev : ℕ) (q : Text) (rows : List ManifestRow)
    → content (find manifest_path q (update_inode i (stamp rev) rows))
      ≡ content (find manifest_path q rows)
unfolding find update_inode
content-stamp i rev q [] = refl
content-stamp i rev q (r ∷ rows) = ground (arith, content-stamp i rev q rows)

content-unlinked :
    (p : Text) (rev : ℕ) (r : ManifestRow) (q : Text) (rows : List ManifestRow)
    → content (find manifest_path q (unlinked p rev r rows))
      ≡ (if eqb p q then none else content (find manifest_path q rows))
content-unlinked p rev r q rows = ground (
  arith,
  find-delete_key manifest_path p q rows,
  content-stamp r.inode_id rev q (delete_key manifest_path p rows),
)

-- What the transaction on a regular file leaves of each table that it changes.
delete_leaves :
    (now : ℕ) (p : Text) (expected : ℕ) (w : Writer) (db d : Db)
    → delete_manifest now p expected w db ≡ ok d
    → (r : ManifestRow) × (find manifest_path p db.manifests ≡ some r)
      × (r.version ≡ expected)
      × (d.manifests ≡ unlinked p (db.last_rev + 1) r db.manifests)
      × (d.last_rev ≡ db.last_rev + 1)
      × (d.tombstones ≡ upsert_tombstone now p (db.last_rev + 1) db.tombstones)
      × (d.dir_entries ≡ remove_dir_entry p db.dir_entries)
      × (d.symlinks ≡ db.symlinks)
      × (d.special_nodes ≡ db.special_nodes)
unfolding delete_manifest delete_rows forget_path alloc_rev
delete_leaves now p expected w db d e = elim (Option-cases (find manifest_path p db.manifests)) [
  | inl f ↦ ground (arith, e, f)
  | inr (r, f) ↦ elim (Result-cases (journal_delete now w p r db)) [
    | inr (_, g) ↦ ground (arith, e, f, g)
    | inl (d1, g) ↦ elim (Result-cases (release_chunks r d1)) [
      | inr (_, k) ↦ ground (arith, e, f, g, k)
      | inl (d2, k) ↦
          let (js, j) = journal_delete_ok now w p r db d1 g in
          let t = release_rows r d1 d2 k in
          (
            r,
            f,
            ground (arith, e, f, g, k),
            ground (arith, e, f, g, k, j, t),
            ground (arith, e, f, g, k, j, t),
            ground (arith, e, f, g, k, j, t),
            ground (arith, e, f, g, k, j, t),
            ground (arith, e, f, g, k, j, t),
            ground (arith, e, f, g, k, j, t),
          )
    ]
  ]
]

-- Whether a directory's entry is the one of the path; the root has none.
abbrev pub is_entry_of : Text → Text → Text → Bool
is_entry_of p parent name =
    not (is_empty (name_of p)) && eqb (parent_of p) parent && eqb (name_of p) name

has_entry-delete_entry :
    (a n parent name : Text) (ds : List DirRow)
    → has_entry parent name (delete_entry a n ds)
      ≡ (if eqb a parent && eqb n name then false else has_entry parent name ds)
unfolding has_entry delete_entry
has_entry-delete_entry a n parent name [] = ground arith
has_entry-delete_entry a n parent name (d ∷ ds) = ground (
  arith,
  has_entry-delete_entry a n parent name ds,
  eqb_iff d.parent a,
  eqb_iff d.parent parent,
  eqb_iff d.name n,
  eqb_iff d.name name,
  eqb_iff a parent,
  eqb_iff n name,
)

has_entry-removed :
    (p parent name : Text) (ds : List DirRow)
    → has_entry parent name (remove_dir_entry p ds)
      ≡ (if is_entry_of p parent name then false else has_entry parent name ds)
unfolding remove_dir_entry
has_entry-removed p parent name ds = ground (
  arith,
  has_entry-delete_entry (parent_of p) (name_of p) parent name ds,
  Bool-cases (is_empty (name_of p)),
)

find-upserted :
    (now : ℕ) (p : Text) (rev : ℕ) (q : Text) (ts : List TombstoneRow)
    → find tombstone_path q (upsert_tombstone now p rev ts) ≡ (
        if eqb p q
        then some (record { path = p; rev = rev; ts_unix_ms = now })
        else find tombstone_path q ts)
unfolding upsert_tombstone find delete_key
find-upserted now p rev q ts = ground (arith, find-delete_key tombstone_path p q ts)

-- What a deleted file leaves: at its path no file and no entry of a directory, but a tombstone of the new revision; at
-- every other path, and in the tables of the other nodes, what was there.
pub record Deleted (now : ℕ) (p q : Text) (expected : ℕ) (db d : Db) : Type 0 where
  pub had_version : old_version (find manifest_path p db.manifests) ≡ expected
  pub files :
      content (find manifest_path q d.manifests)
      ≡ (if eqb p q then none else content (find manifest_path q db.manifests))
  pub entries :
      (parent name : Text)
      → has_entry parent name d.dir_entries
        ≡ (if is_entry_of p parent name then false else has_entry parent name db.dir_entries)
  pub next_rev : d.last_rev ≡ db.last_rev + 1
  pub tombstone :
      find tombstone_path p d.tombstones
      ≡ some (record { path = p; rev = d.last_rev; ts_unix_ms = now })
  pub other_tombstones :
      eqb p q ≡ false → find tombstone_path q d.tombstones ≡ find tombstone_path q db.tombstones
  pub other_nodes : (d.symlinks ≡ db.symlinks) × (d.special_nodes ≡ db.special_nodes)

-- A deletion that succeeds at a path with no symbolic link and no special node found a file there at the
-- expected version. Afterwards the path has no file and no entry in its directory, but a tombstone of the new revision;
-- every other path has the file that it had, but for the revision of the names that are left, and its entry and tombstone;
-- symbolic links and special nodes stay.
pub delete_lem :
    (now : ℕ) (p q : Text) (expected : ℕ) (w : Writer) (db d : Db)
    → find special_path p db.special_nodes ≡ none
    → find symlink_path p db.symlinks ≡ none
    → delete now p expected w db ≡ ok d
    → Deleted now p q expected db d
unfolding delete delete_special_node delete_symlink find
delete_lem now p q expected w db d a b e =
    let (r, f, version, rows, rev, stones, entries, links, nodes) =
      delete_leaves now p expected w db d (ground (arith, e, a, b)) in
    let at1 = find-upserted now p (db.last_rev + 1) p db.tombstones in
    let at2 = find-upserted now p (db.last_rev + 1) q db.tombstones in
    record {
      had_version = ground (arith, f, version);
      files = ground (arith, rows, content-unlinked p (db.last_rev + 1) r q db.manifests);
      entries = λ parent name. rw entries (has_entry-removed p parent name db.dir_entries);
      next_rev = rev;
      tombstone = ground (arith, stones, rev, eqb_iff p p, at1);
      other_tombstones = λ apart. ground (arith, stones, at2, apart);
      other_nodes = (links, nodes);
    }
