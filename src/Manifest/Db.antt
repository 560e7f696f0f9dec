-- ===== src/Manifest/Db.antt =====
-- The tables of a tenant's database, the errors of the store, and transactions. A transaction is a
-- function of the database before it: an error rolls back, so it returns no database.
use orlop.Prelude.{
  Outcome, ℕ, ◌+◌, ◌%◌, ◌^◌, Text, Bool, true, false, Option, List, [], ◌∷◌, ◌&&◌, eqb, ◌==◌,
  if◌then◌else◌,
}

pub record ChunkRef : Type 0 where
  pub hash : Text
  pub offset : ℕ
  pub len : ℕ

pub record Manifest : Type 0 where
  pub path : Text
  pub inode_id : ℕ
  pub nlink : ℕ
  pub size : ℕ
  pub mode : ℕ
  pub mtime : ℕ
  pub version : ℕ
  pub chunks : List ChunkRef
  pub uid : ℕ
  pub gid : ℕ
  pub atime : ℕ

-- A row of `manifests`; the column `chunks` holds the packed list.
pub record ManifestRow : Type 0 where
  pub path : Text
  pub inode_id : ℕ
  pub size : ℕ
  pub mode : ℕ
  pub mtime : ℕ
  pub version : ℕ
  pub chunks : List ChunkRef
  pub uid : ℕ
  pub gid : ℕ
  pub atime : ℕ
  pub rev : ℕ

pub record SymlinkRow : Type 0 where
  pub path : Text
  pub target : Text
  pub mode : ℕ
  pub mtime : ℕ
  pub uid : ℕ
  pub gid : ℕ
  pub atime : ℕ
  pub rev : ℕ

pub record SpecialRow : Type 0 where
  pub path : Text
  pub mode : ℕ
  pub rdev : ℕ
  pub mtime : ℕ
  pub uid : ℕ
  pub gid : ℕ
  pub atime : ℕ
  pub rev : ℕ

pub record DirRow : Type 0 where
  pub parent : Text
  pub name : Text
  pub mode : ℕ
  pub mtime : ℕ
  pub uid : ℕ
  pub gid : ℕ
  pub atime : ℕ
  pub rev : ℕ

pub record ChunkRow : Type 0 where
  pub hash : Text
  pub size : ℕ
  pub refcount : ℕ
  pub added_at : ℕ

pub record TombstoneRow : Type 0 where
  pub path : Text
  pub rev : ℕ
  pub ts_unix_ms : ℕ

pub data SessionOp : Type 0 where
  op_create op_update op_delete op_rename : SessionOp

-- `before_manifest` is the value that the column holds encoded; `rowid` is SQLite's own column.
pub record JournalRow : Type 0 where
  pub rowid : ℕ
  pub session_id : Text
  pub allocation_id : Text
  pub agent_id : Text
  pub seq : ℕ
  pub path : Text
  pub op : SessionOp
  pub before_version : Option ℕ
  pub after_version : Option ℕ
  pub before_manifest : Option Manifest
  pub rename_from : Text
  pub ts_unix_ms : ℕ

pub record Db : Type 0 where
  pub manifests : List ManifestRow
  pub symlinks : List SymlinkRow
  pub special_nodes : List SpecialRow
  pub dir_entries : List DirRow
  pub chunks : List ChunkRow
  pub tombstones : List TombstoneRow
  pub journal : List JournalRow
  pub next_inode : ℕ
  pub last_rev : ℕ
  pub pruned_before_rev : ℕ

-- `version_conflict none` is the plain `ErrVersionConflict`; `constraint` is a row that a check or a
-- key of the schema refuses; `invalid` is any error made for the occasion.
pub data Error : Type 0 where
  manifest_not_found parent_not_found already_exists not_empty not_dir is_dir : Error
  version_conflict : Option ℕ → Error
  missing_chunk constraint invalid lease_mismatch : Error

abbrev pub Result {ℓ} : Type ℓ → Type ℓ
Result T = Outcome Error T

-- uint64 addition of one.
abbrev pub succ64 : ℕ → ℕ
succ64 v = (v + 1) % 2 ^ 64

abbrev pub manifest_path : ManifestRow → Text
manifest_path r = r.path

abbrev pub symlink_path : SymlinkRow → Text
symlink_path r = r.path

abbrev pub special_path : SpecialRow → Text
special_path r = r.path

abbrev pub chunk_hash : ChunkRow → Text
chunk_hash r = r.hash

abbrev pub tombstone_path : TombstoneRow → Text
tombstone_path r = r.path

-- select 1 from dir_entries where parent = ? and name = ?
unfoldable pub has_entry : Text → Text → List DirRow → Bool
has_entry parent name [] = false
has_entry parent name (d ∷ ds) =
    if eqb d.parent parent && eqb d.name name then true else has_entry parent name ds

-- select 1 from dir_entries where parent = ?
unfoldable pub has_children : Text → List DirRow → Bool
has_children parent [] = false
has_children parent (d ∷ ds) = if eqb d.parent parent then true else has_children parent ds

unfoldable pub delete_entry : Text → Text → List DirRow → List DirRow
delete_entry parent name [] = []
delete_entry parent name (d ∷ ds) =
    let rest = delete_entry parent name ds in
    if eqb d.parent parent && eqb d.name name then rest else d ∷ rest

unfoldable pub update_entry : Text → Text → (DirRow → DirRow) → List DirRow → List DirRow
update_entry parent name f [] = []
update_entry parent name f (d ∷ ds) =
    (if eqb d.parent parent && eqb d.name name then f d else d) ∷ update_entry parent name f ds

-- select count(*) from manifests where inode_id = ?
unfoldable pub nlink : ℕ → List ManifestRow → ℕ
nlink i [] = 0
nlink i (r ∷ rs) = (if r.inode_id == i then 1 else 0) + nlink i rs

-- update manifests set (f) where inode_id = ?
unfoldable pub update_inode : ℕ → (ManifestRow → ManifestRow) → List ManifestRow → List ManifestRow
update_inode i f [] = []
update_inode i f (r ∷ rs) = (if r.inode_id == i then f r else r) ∷ update_inode i f rs
