-- ===== src/Manifest/Links.antt =====
-- `ManifestStore.Link`, `Delete` and `DeleteWithLeaseCheck`, and the kinds of nodes.
pub mod Removal
use orlop.Prelude.{
  precedes, guard, ◌>>=◌, ◌>>◌, ok, err, find, delete_key, ℕ, ◌+◌, Text, Bool, true, false, Option,
  none, some, List, [], ◌∷◌, ◌&&◌, not, eqb, ltb, is_some, ◌==◌, if◌then◌else◌,
}
use orlop.Prelude.Map.{is_empty}
use orlop.Manifest.Db.{
  ManifestRow, DirRow, Db, op_create, op_delete, Result, invalid, already_exists, constraint,
  manifest_not_found, version_conflict, manifest_path, symlink_path, special_path, has_entry,
  has_children, delete_entry, nlink, update_inode,
}
use orlop.Manifest.Chunks.{chunk_ref_delta, apply_chunk_ref_delta}
use orlop.Manifest.Journal.{
  Writer, unpaired, journal_if_session, alloc_rev, clear_tombstone, upsert_tombstone,
  validate_session,
}
use orlop.Manifest.Store.{parent_of, name_of, check_parent_exists, prior}

pub data NodeKind : Type 0 where
  node_absent node_regular node_symlink node_special node_dir : NodeKind

-- `resolveKindTx`
unfoldable pub resolve_kind : Text → Db → NodeKind
resolve_kind p db =
    if is_some (find manifest_path p db.manifests)
    then node_regular
    else if is_some (find symlink_path p db.symlinks)
    then node_symlink
    else if is_some (find special_path p db.special_nodes)
    then node_special
    else if has_children p db.dir_entries
    then node_dir
    else if is_empty (name_of p)
    then node_dir
    else if has_entry (parent_of p) (name_of p) db.dir_entries
    then node_dir
    else node_absent

abbrev pub is_absent : NodeKind → Bool
is_absent node_absent = true
is_absent _ = false

abbrev pub stamp : ℕ → ManifestRow → ManifestRow
stamp rev r = record r { rev = rev }

-- insert into dir_entries(parent, name): the primary key refuses a second row
unfoldable pub insert_entry : DirRow → List DirRow → Result (List DirRow)
insert_entry d ds = guard (not (has_entry d.parent d.name ds)) constraint >> ok (d ∷ ds)

abbrev pub plain_entry : Text → Text → DirRow
plain_entry parent name = record {
  parent = parent;
  name = name;
  mode = 493;
  mtime = 0;
  uid = 0;
  gid = 0;
  atime = 0;
  rev = 0;
}

-- The rows of `Link`: the new name of the inode, and the revision on all of its names.
unfoldable pub link_rows : Text → ManifestRow → Db → Result Db
link_rows to r db =
    guard (not (is_some (find manifest_path to db.manifests))) constraint
    >> insert_entry (plain_entry (parent_of to) (name_of to)) db.dir_entries
    >>= λ ds. ok (record db {
      manifests =
          update_inode r.inode_id (stamp db.last_rev)
            (record r { path = to; rev = db.last_rev } ∷ db.manifests);
      tombstones = clear_tombstone to db.tombstones;
      dir_entries = ds;
    })

-- `Link`: the link count, and the database after the commit.
unfoldable pub link : ℕ → Text → Text → Writer → Db → Result (ℕ × Db)
link now from to w db =
    guard (not (unpaired w)) invalid
    >> check_parent_exists to db
    >> guard (is_absent (resolve_kind to db)) already_exists
    >> elim (find manifest_path from db.manifests) [
      | none ↦ err manifest_not_found
      | some r ↦
          link_rows to r (alloc_rev db)
          >>= journal_if_session now w op_create to none (some r.version) []
          >>= λ d. ok (nlink r.inode_id d.manifests, d)
    ]

-- `LinkWithLeaseCheck`
unfoldable pub link_with_lease_check : ℕ → Text → Text → Writer → Text → Db → Result (ℕ × Db)
link_with_lease_check now from to w active_lease_hex db =
    validate_session w.session_id active_lease_hex >> link now from to w db

-- `removeDirEntryTx`
unfoldable pub remove_dir_entry : Text → List DirRow → List DirRow
remove_dir_entry p ds =
    if is_empty (name_of p) then ds else delete_entry (parent_of p) (name_of p) ds

-- What the deletion of a path leaves besides the row itself.
unfoldable pub forget_path : ℕ → Text → Db → Db
unfolding alloc_rev
forget_path now p db = record (alloc_rev db) {
  dir_entries = remove_dir_entry p db.dir_entries;
  tombstones = upsert_tombstone now p (db.last_rev + 1) db.tombstones;
}

-- `deleteSpecialNode`, by `deletePathRow`
unfoldable pub delete_special_node : ℕ → Text → Db → Result Db
delete_special_node now p db =
    guard (is_some (find special_path p db.special_nodes)) manifest_not_found
    >> ok (
        forget_path now p
          (record db { special_nodes = delete_key special_path p db.special_nodes }))

-- `deleteSymlink`, by `deletePathRow`
unfoldable pub delete_symlink : ℕ → Text → Db → Result Db
delete_symlink now p db =
    guard (is_some (find symlink_path p db.symlinks)) manifest_not_found
    >> ok (forget_path now p (record db { symlinks = delete_key symlink_path p db.symlinks }))

-- select path from manifests where inode_id = ? and path <> ? order by path limit 1
unfoldable pub surviving_alias : ℕ → Text → List ManifestRow → Option Text
surviving_alias i p [] = none
surviving_alias i p (r ∷ rs) =
    let rest = surviving_alias i p rs in
    if r.inode_id == i && not (eqb r.path p)
    then (elim rest [
      | none ↦ some r.path
      | some q ↦ some (if precedes q r.path then q else r.path)
    ])
    else rest

-- The column `rename_from` of the entry of a deletion; a scan of no row fails.
unfoldable pub delete_alias : ManifestRow → Text → List ManifestRow → Result Text
delete_alias r p rows =
    if ltb 1 (nlink r.inode_id rows)
    then (elim (surviving_alias r.inode_id p rows) [ none ↦ err invalid | some q ↦ ok q ])
    else ok []

unfoldable pub journal_delete : ℕ → Writer → Text → ManifestRow → Db → Result Db
journal_delete now w p r db =
    if is_empty w.session_id
    then ok db
    else delete_alias r p db.manifests >>= λ from.
        journal_if_session now w op_delete p (some (prior p (some r))) none from db

-- The chunks of an inode go with its last name.
unfoldable pub release_chunks : ManifestRow → Db → Result Db
release_chunks r db =
    if nlink r.inode_id db.manifests == 1
    then apply_chunk_ref_delta (chunk_ref_delta r.chunks []) db.chunks
      >>= (λ cs. ok (record db { chunks = cs }))
    else ok db

-- The row of the path goes; the names that are left get the new revision.
unfoldable pub delete_rows : ℕ → Text → ManifestRow → Db → Db
unfolding forget_path alloc_rev
delete_rows now p r db =
    let rest = delete_key manifest_path p db.manifests in
    record (forget_path now p db) {
      manifests =
          if ltb 1 (nlink r.inode_id db.manifests)
          then update_inode r.inode_id (stamp (db.last_rev + 1)) rest
          else rest;
    }

-- The transaction of `Delete` on a regular file.
unfoldable pub delete_manifest : ℕ → Text → ℕ → Writer → Db → Result Db
delete_manifest now p expected w db = elim (find manifest_path p db.manifests) [
  | none ↦ err manifest_not_found
  | some r ↦
      guard (r.version == expected) (version_conflict (some r.version))
      >> journal_delete now w p r db
      >>= release_chunks r
      >>= λ d. ok (delete_rows now p r d)
]

-- A result, or what comes next when there is no such row.
abbrev pub or_else {ℓ} : {A : Type ℓ} → Result A → Result A → Result A
or_else (ok a) next = ok a
or_else (err manifest_not_found) next = next
or_else (err e) next = err e

-- `Delete`
unfoldable pub delete : ℕ → Text → ℕ → Writer → Db → Result Db
delete now p expected w db =
    guard (not (unpaired w)) invalid
    >> or_else (delete_special_node now p db)
        (or_else (delete_symlink now p db) (delete_manifest now p expected w db))

-- `DeleteWithLeaseCheck`
unfoldable pub delete_with_lease_check : ℕ → Text → ℕ → Writer → Text → Db → Result Db
delete_with_lease_check now p expected w active_lease_hex db =
    validate_session w.session_id active_lease_hex >> delete now p expected w db
