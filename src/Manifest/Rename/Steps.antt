-- ===== src/Manifest/Rename/Steps.antt =====
-- The steps of `renameOpt` that concern one row: the source, the destination that is displaced, and
-- the directory entries.
use orlop.Prelude.{
  guard, ◌>>=◌, ◌>>◌, ok, err, find, delete_key, update_key, ℕ, Text, Bool, true, false, Option,
  none, some, List, ◌∷◌, not, ltb, is_some, ◌==◌, if◌then◌else◌,
}
use orlop.Prelude.Map.{is_empty}
use orlop.Manifest.Db.{
  Manifest, ManifestRow, DirRow, Db, op_rename, Result, invalid, constraint, version_conflict,
  manifest_path, symlink_path, special_path, has_entry, update_entry, nlink, update_inode, succ64,
}
use orlop.Manifest.Journal.{Writer, journal_if_session, clear_tombstone, upsert_tombstone}
use orlop.Manifest.Store.{parent_of, name_of, ignore_entry}
use orlop.Manifest.Links.{
  NodeKind, node_absent, node_regular, node_symlink, node_special, node_dir, stamp,
  remove_dir_entry, release_chunks,
}
use orlop.Manifest.Nodes.{find_entry}

abbrev pub is_node_dir : NodeKind → Bool
is_node_dir node_dir = true
is_node_dir _ = false

abbrev pub is_regular : NodeKind → Bool
is_regular node_regular = true
is_regular _ = false

-- `samePathVersionTx`
unfoldable pub same_path_version : Text → NodeKind → Db → ℕ
same_path_version p node_regular db = elim (find manifest_path p db.manifests) [
  | none ↦ 1
  | some r ↦ r.version
]
same_path_version p _ db = 1

-- `readRenameSourceTx`
unfoldable pub read_rename_source : Text → ℕ → Db → Result ManifestRow
read_rename_source from expected db = elim (find manifest_path from db.manifests) [
  | none ↦ err invalid
  | some r ↦ guard (r.version == expected) (version_conflict (some r.version)) >> ok r
]

abbrev pub source_manifest : Text → ManifestRow → Manifest
source_manifest from r = record {
  path = from;
  inode_id = 0;
  nlink = 0;
  size = r.size;
  mode = r.mode;
  mtime = r.mtime;
  version = r.version;
  chunks = r.chunks;
  uid = r.uid;
  gid = r.gid;
  atime = r.atime;
}

-- The row of the displaced file goes; the other names of its inode get the revision.
unfoldable pub displace_file : Text → ℕ → ManifestRow → Db → Db
displace_file to rev r db =
    let rest = delete_key manifest_path to db.manifests in
    record db {
      manifests =
          if ltb 1 (nlink r.inode_id db.manifests)
          then update_inode r.inode_id (stamp rev) rest
          else rest;
    }

abbrev drop_entry : Text → Db → Db
drop_entry to db = record db { dir_entries = remove_dir_entry to db.dir_entries }

-- `deleteDestTx`
unfoldable pub delete_dest : Text → NodeKind → ℕ → Db → Result Db
delete_dest to node_regular rev db = elim (find manifest_path to db.manifests) [
  | none ↦ err invalid
  | some r ↦ release_chunks r db >>= λ d. ok (drop_entry to (displace_file to rev r d))
]
delete_dest to node_symlink rev db =
    ok (drop_entry to (record db { symlinks = delete_key symlink_path to db.symlinks }))
delete_dest to node_special rev db =
    ok (drop_entry to (record db { special_nodes = delete_key special_path to db.special_nodes }))
delete_dest to node_dir rev db = ok (drop_entry to db)
delete_dest to node_absent rev db = ok (drop_entry to db)

-- A regular file moves with the version that all names of its inode get.
unfoldable pub move_manifest : Text → Text → ℕ → ℕ → ManifestRow → Db → Result Db
move_manifest from to version rev src db =
    guard (not (is_some (find manifest_path to db.manifests))) constraint
    >> ok (record db {
      manifests =
          update_inode src.inode_id (λ r. record r { version = version; rev = rev })
            (update_key manifest_path from (λ r. record r { path = to }) db.manifests);
    })

unfoldable pub move_symlink : Text → Text → ℕ → Db → Result Db
move_symlink from to rev db =
    guard (not (is_some (find symlink_path to db.symlinks))) constraint
    >> ok (record db {
      symlinks = update_key symlink_path from (λ r. record r { path = to; rev = rev }) db.symlinks;
    })

unfoldable pub move_special : Text → Text → ℕ → Db → Result Db
move_special from to rev db =
    guard (not (is_some (find special_path to db.special_nodes))) constraint
    >> ok (record db {
      special_nodes =
          update_key special_path from (λ r. record r { path = to; rev = rev }) db.special_nodes;
    })

-- The metadata of a moved directory; a directory with no row of its own has Go's zero values.
abbrev moved_entry : Text → ℕ → Option DirRow → DirRow
moved_entry to rev none = record {
  parent = parent_of to;
  name = name_of to;
  mode = 0;
  mtime = 0;
  uid = 0;
  gid = 0;
  atime = 0;
  rev = rev;
}
moved_entry to rev (some d) = record {
  parent = parent_of to;
  name = name_of to;
  mode = d.mode;
  mtime = 0;
  uid = d.uid;
  gid = d.gid;
  atime = d.atime;
  rev = rev;
}

-- insert into dir_entries ... on conflict(parent, name) do update
unfoldable pub upsert_entry : DirRow → List DirRow → List DirRow
upsert_entry d ds =
    if has_entry d.parent d.name ds
    then update_entry d.parent d.name
        (λ o. record o { mode = d.mode; uid = d.uid; gid = d.gid; atime = d.atime; rev = d.rev }) ds
    else d ∷ ds

-- `rewriteRenameDirEntriesTx`
unfoldable pub rewrite_entries : Text → Text → NodeKind → ℕ → List DirRow → List DirRow
rewrite_entries from to kind rev ds =
    let old = find_entry (parent_of from) (name_of from) ds in
    let rest = remove_dir_entry from ds in
    if is_empty (name_of to)
    then rest
    else if is_node_dir kind
    then upsert_entry (moved_entry to rev old) rest
    else ignore_entry (parent_of to) (name_of to) rest

-- The version at the destination, and the entry of the journal: `journalRenameTx`.
unfoldable pub journal_rename : ℕ → Text → Text → ℕ → ManifestRow → Writer → Db → Result (ℕ × Db)
journal_rename now from to dst_version src w db =
    journal_if_session now w op_rename to (some (source_manifest from src))
      (some (succ64 dst_version)) from db
    >>= λ d. ok (succ64 dst_version, d)

-- Steps 10 and 11.
unfoldable pub settle_paths : ℕ → Text → Text → NodeKind → ℕ → Db → Db
settle_paths now from to kind rev db = record db {
  dir_entries = rewrite_entries from to kind rev db.dir_entries;
  tombstones = clear_tombstone to (upsert_tombstone now from rev db.tombstones);
}
