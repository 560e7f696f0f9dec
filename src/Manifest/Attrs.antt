-- ===== src/Manifest/Attrs.antt =====
-- `SetMode`, `SetOwner` and `SetAtime` of manifests.go. The checkpoint that `SetMode` asks for on
-- success is left out: it changes no row.
use orlop.Prelude.{
  guard, ◌>>=◌, ◌>>◌, ok, err, find, update_key, ℕ, ◌+◌, Text, Bool, Option, none, some, is_some,
  if◌then◌else◌,
}
use orlop.Prelude.Map.{is_empty}
use orlop.Manifest.Db.{
  Manifest, ManifestRow, SymlinkRow, SpecialRow, DirRow, Db, Result, manifest_not_found,
  manifest_path, symlink_path, special_path, update_entry, update_inode, has_entry,
}
use orlop.Manifest.Journal.{Writer, alloc_rev}
use orlop.Manifest.Store.{parent_of, name_of, get, put_with_lease_check}
use orlop.Manifest.Nodes.{perm, type_bits}

-- The directory's row, the last of the tables that are tried. The root succeeds and is rolled back.
unfoldable pub set_entry : Text → (ℕ → DirRow → DirRow) → Db → Result Db
unfolding alloc_rev
set_entry p f db =
    if is_empty (name_of p)
    then ok db
    else guard (has_entry (parent_of p) (name_of p) db.dir_entries) manifest_not_found
      >> ok (record (alloc_rev db) {
        dir_entries = update_entry (parent_of p) (name_of p) (f (db.last_rev + 1)) db.dir_entries;
      })

-- The tables of nodes that have no manifest: symlinks, special nodes, directories. The functions
-- get the revision of the change.
unfoldable pub set_node :
    Text
    → (ℕ → SymlinkRow → SymlinkRow)
    → (ℕ → SpecialRow → SpecialRow)
    → (ℕ → DirRow → DirRow)
    → Db
    → Result Db
unfolding alloc_rev
set_node p f g h db =
    if is_some (find symlink_path p db.symlinks)
    then ok (record (alloc_rev db) {
      symlinks = update_key symlink_path p (f (db.last_rev + 1)) db.symlinks;
    })
    else if is_some (find special_path p db.special_nodes)
    then ok (record (alloc_rev db) {
      special_nodes = update_key special_path p (g (db.last_rev + 1)) db.special_nodes;
    })
    else set_entry p h db

-- A file's row, on all of its names, or the node at the path.
unfoldable pub set_row :
    Text
    → (ℕ → ManifestRow → ManifestRow)
    → (ℕ → SymlinkRow → SymlinkRow)
    → (ℕ → SpecialRow → SpecialRow)
    → (ℕ → DirRow → DirRow)
    → Db
    → Result Db
unfolding alloc_rev
set_row p e f g h db = elim (find manifest_path p db.manifests) [
  | none ↦ set_node p f g h db
  | some r ↦ ok (record (alloc_rev db) {
    manifests = update_inode r.inode_id (e (db.last_rev + 1)) db.manifests;
  })
]

abbrev pub put_mode :
    Option (Text → Bool) → ℕ → Text → ℕ → Writer → Text → Manifest → Db → Result Db
put_mode present now p mode w hex mf db =
    put_with_lease_check present now p mf.version (record mf { mode = mode }) w hex db >>= λ r.
    ok r.1

-- `SetMode`
unfoldable pub set_mode : Option (Text → Bool) → ℕ → Text → ℕ → Writer → Text → Db → Result Db
set_mode present now p given_mode w active_lease_hex db =
    let mode = perm given_mode in
    elim (get p db) [
      | ok mf ↦ put_mode present now p mode w active_lease_hex mf db
      | err manifest_not_found ↦
          set_node p (λ rev r. record r { mode = mode; rev = rev })
            (λ rev r. record r { mode = type_bits r.mode + mode; rev = rev })
            (λ rev r. record r { mode = mode; rev = rev }) db
      | err e ↦ err e
    ]

-- `SetOwner`
unfoldable pub set_owner : Text → ℕ → ℕ → Db → Result Db
set_owner p uid gid db =
    set_row p (λ rev r. record r { uid = uid; gid = gid; rev = rev })
      (λ rev r. record r { uid = uid; gid = gid; rev = rev })
      (λ rev r. record r { uid = uid; gid = gid; rev = rev })
      (λ rev r. record r { uid = uid; gid = gid; rev = rev }) db

-- `SetAtime`
unfoldable pub set_atime : Text → ℕ → Db → Result Db
set_atime p atime db =
    set_row p (λ rev r. record r { atime = atime; rev = rev })
      (λ rev r. record r { atime = atime; rev = rev })
      (λ rev r. record r { atime = atime; rev = rev })
      (λ rev r. record r { atime = atime; rev = rev }) db
