-- ===== src/Manifest/Nodes.antt =====
-- Directories, symbolic links and special nodes: `RegisterDir`, `IsDir`, `DirCreate`, `DirInfo`,
-- `DirRemove`, `Symlink`, `Readlink`, `SymlinkInfo`, `Mknod` and `SpecialNodeInfo` of manifests.go.
-- SQLite's `glob` is an argument.
use orlop.Prelude.{
  guard, ◌>>=◌, ◌>>◌, ok, err, find, ℕ, ◌+◌, ◌*◌, ◌/◌, ◌%◌, Text, Bool, true, false, Option, none,
  some, List, [], ◌∷◌, ◌++◌, ◌&&◌, ◌||◌, not, eqb, text, is_some, ◌==◌, if◌then◌else◌,
}
use orlop.Prelude.Map.{is_empty}
use orlop.Manifest.Db.{
  SymlinkRow, SpecialRow, DirRow, Db, Result, invalid, already_exists, constraint, not_empty,
  manifest_not_found, manifest_path, symlink_path, special_path, has_entry, has_children,
  delete_entry,
}
use orlop.Manifest.Journal.{alloc_rev, clear_tombstone, upsert_tombstone}
use orlop.Manifest.Store.{parent_of, name_of, check_parent_exists, ignore_entry}
use orlop.Manifest.Links.{insert_entry}

-- `RegisterDir`
unfoldable pub register_dir : Text → Text → Db → Db
register_dir parent name db = record db { dir_entries = ignore_entry parent name db.dir_entries }

-- `IsDir`
unfoldable pub is_dir_path : Text → Db → Bool
is_dir_path p db =
    if has_children p db.dir_entries
    then true
    else if is_empty (name_of p)
    then true
    else has_entry (parent_of p) (name_of p) db.dir_entries

-- The permission bits, `mode & 0o7777`.
abbrev pub perm : ℕ → ℕ
perm mode = mode % 4096

-- The type bits, `mode & sIFMT`.
abbrev pub type_bits : ℕ → ℕ
type_bits mode = mode / 4096 % 16 * 4096

abbrev pub or_default : ℕ → ℕ → ℕ
or_default mode d = if mode == 0 then d else mode

-- A row of dir_entries that belongs to no owner and was never read.
abbrev pub entry : Text → ℕ → ℕ → DirRow
entry p mode rev = record {
  parent = parent_of p;
  name = name_of p;
  mode = mode;
  mtime = 0;
  uid = 0;
  gid = 0;
  atime = 0;
  rev = rev;
}

-- `DirCreate`
unfoldable pub dir_create : Text → ℕ → Db → Result Db
unfolding alloc_rev
dir_create p mode db =
    check_parent_exists p db
    >> guard (not (has_entry (parent_of p) (name_of p) db.dir_entries)) already_exists
    >> insert_entry (entry p (perm (or_default mode 493)) (db.last_rev + 1)) db.dir_entries
    >>= λ ds.
        ok
          (record (alloc_rev db) { dir_entries = ds; tombstones = clear_tombstone p db.tombstones })

-- The row of a directory: the entry (parent, name).
unfoldable pub find_entry : Text → Text → List DirRow → Option DirRow
find_entry parent name [] = none
find_entry parent name (d ∷ ds) =
    if eqb d.parent parent && eqb d.name name then some d else find_entry parent name ds

pub record DirAttrs : Type 0 where
  pub mode : ℕ
  pub uid : ℕ
  pub gid : ℕ
  pub atime : ℕ

abbrev default_attrs : DirAttrs
default_attrs = record { mode = 493; uid = 0; gid = 0; atime = 0 }

-- `DirInfo`: none stands for ok=false.
unfoldable pub dir_info : Text → Db → Option DirAttrs
dir_info p db =
    if is_empty (name_of p)
    then some default_attrs
    else (elim (find_entry (parent_of p) (name_of p) db.dir_entries) [
      | none ↦ if is_dir_path p db then some default_attrs else none
      | some d ↦
          some (record { mode = or_default d.mode 493; uid = d.uid; gid = d.gid; atime = d.atime })
    ])

-- `Symlink`
unfoldable pub symlink : Text → Text → ℕ → Db → Result Db
unfolding alloc_rev
symlink p target given_mode db =
    let mode = perm (or_default given_mode 511) in
    let row : SymlinkRow = record {
      path = p;
      target = target;
      mode = mode;
      mtime = 0;
      uid = 0;
      gid = 0;
      atime = 0;
      rev = db.last_rev + 1;
    } in
    guard (not (is_empty (name_of p))) invalid
    >> check_parent_exists p db
    >> guard (not (has_entry (parent_of p) (name_of p) db.dir_entries)) already_exists
    >> guard (not (is_some (find symlink_path p db.symlinks))) constraint
    >> insert_entry (entry p mode 0) db.dir_entries
    >>= λ ds. ok (record (alloc_rev db) {
      symlinks = row ∷ db.symlinks;
      dir_entries = ds;
      tombstones = clear_tombstone p db.tombstones;
    })

-- `Readlink`
unfoldable pub readlink : Text → Db → Result Text
readlink p db = elim (find symlink_path p db.symlinks) [
  | none ↦ err manifest_not_found
  | some r ↦ ok r.target
]

-- `SymlinkInfo`: the row with the default mode in place of 0; none stands for ok=false.
unfoldable pub symlink_info : Text → Db → Option SymlinkRow
symlink_info p db = elim (find symlink_path p db.symlinks) [
  | none ↦ none
  | some r ↦ some (record r { mode = or_default r.mode 511 })
]

-- `Mknod`
unfoldable pub mknod : Text → ℕ → ℕ → Db → Result Db
unfolding alloc_rev
mknod p mode rdev db =
    let row : SpecialRow = record {
      path = p;
      mode = mode;
      rdev = rdev;
      mtime = 0;
      uid = 0;
      gid = 0;
      atime = 0;
      rev = db.last_rev + 1;
    } in
    guard (not (is_empty (name_of p))) invalid
    >> check_parent_exists p db
    >> guard (not (has_entry (parent_of p) (name_of p) db.dir_entries)) already_exists
    >> guard (not (is_some (find special_path p db.special_nodes))) constraint
    >> insert_entry (entry p (perm mode) 0) db.dir_entries
    >>= λ ds. ok (record (alloc_rev db) {
      special_nodes = row ∷ db.special_nodes;
      dir_entries = ds;
      tombstones = clear_tombstone p db.tombstones;
    })

-- `specialNodeKind`
unfoldable pub special_node_kind : ℕ → Text
special_node_kind mode =
    let t = type_bits mode in
    if t == 4096
    then text "fifo"
    else if t == 49152
    then text "socket"
    else if t == 8192
    then text "chardev"
    else if t == 24576
    then text "blockdev"
    else []

-- `SpecialNodeInfo`: the row and its kind; none stands for ok=false.
unfoldable pub special_node_info : Text → Db → Option (SpecialRow × Text)
special_node_info p db = elim (find special_path p db.special_nodes) [
  | none ↦ none
  | some r ↦ some (r, special_node_kind r.mode)
]

module _ (glob : Text → Text → Bool) where
  -- select count(*) from (table) where path glob (pattern) is not 0
  unfoldable pub any_glob : {R : Type 0} → (R → Text) → Text → List R → Bool
  any_glob key pat [] = false
  any_glob key pat (r ∷ rs) = glob (key r) pat || any_glob key pat rs

  -- `DirRemove`
  unfoldable pub dir_remove : ℕ → Text → Db → Result Db
  unfolding alloc_rev
  dir_remove now p db =
      guard (has_entry (parent_of p) (name_of p) db.dir_entries) manifest_not_found
      >> guard (not (has_children p db.dir_entries)) not_empty
      >> guard (not (any_glob manifest_path (p ++ text "/*") db.manifests)) not_empty
      >> ok (record (alloc_rev db) {
        dir_entries = delete_entry (parent_of p) (name_of p) db.dir_entries;
        tombstones = upsert_tombstone now p (db.last_rev + 1) db.tombstones;
      })

  -- `dirIsEmptyTx`
  unfoldable pub dir_is_empty : Text → Db → Bool
  dir_is_empty p db =
      not (has_children p db.dir_entries)
      && not (any_glob manifest_path (p ++ text "/*") db.manifests)
      && not (any_glob symlink_path (p ++ text "/*") db.symlinks)
      && not (any_glob special_path (p ++ text "/*") db.special_nodes)
