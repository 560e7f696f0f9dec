-- ===== src/Manifest/Store.antt =====
-- `ManifestStore.Get`, `Put` and `PutWithLeaseCheck`.
pub mod ReadBack
pub mod Conflicts
use orlop.Prelude.{
  guard, ◌>>=◌, ◌>>◌, ok, err, find, ℕ, ◌+◌, Text, Bool, true, false, Option, none, some, List, [],
  ◌∷◌, ◌++◌, ◌&&◌, ◌||◌, not, eqb, ltb, text, is_some, ◌==◌, if◌then◌else◌,
}
use orlop.Prelude.Map.{is_empty}
use orlop.Paths.{split_parent_name}
use orlop.Manifest.Db.{
  ChunkRef, Manifest, ManifestRow, DirRow, Db, SessionOp, op_create, op_update, Result, invalid,
  manifest_not_found, parent_not_found, version_conflict, missing_chunk, manifest_path, has_entry,
  nlink, update_inode, succ64,
}
use orlop.Manifest.Chunks.{chunk_ref_delta, apply_chunk_ref_delta}
use orlop.Manifest.Journal.{
  Writer, unpaired, journal_if_session, alloc_rev, clear_tombstone, validate_session,
}

abbrev pub parent_of : Text → Text
parent_of p = (split_parent_name p).0

abbrev pub name_of : Text → Text
name_of p = (split_parent_name p).1

abbrev pub to_manifest : List ManifestRow → ManifestRow → Manifest
to_manifest rows r = record {
  path = r.path;
  inode_id = r.inode_id;
  nlink = nlink r.inode_id rows;
  size = r.size;
  mode = r.mode;
  mtime = r.mtime;
  version = r.version;
  chunks = r.chunks;
  uid = r.uid;
  gid = r.gid;
  atime = r.atime;
}

-- `Get`
unfoldable pub get : Text → Db → Result Manifest
get p db = elim (find manifest_path p db.manifests) [
  | none ↦ err manifest_not_found
  | some r ↦ ok (to_manifest db.manifests r)
]

-- `checkParentExists`
unfoldable pub check_parent_exists : Text → Db → Result (Unit {0})
check_parent_exists p db =
    let parent = parent_of p in
    if eqb parent (text "/")
    then ok tt
    else guard (has_entry (parent_of parent) (name_of parent) db.dir_entries) parent_not_found

-- insert or ignore into dir_entries (parent, name), with the columns' defaults
unfoldable pub ignore_entry : Text → Text → List DirRow → List DirRow
ignore_entry parent name ds =
    if has_entry parent name ds
    then ds
    else record {
      parent = parent;
      name = name;
      mode = 493;
      mtime = 0;
      uid = 0;
      gid = 0;
      atime = 0;
      rev = 0;
    }
      ∷ ds

all_present : (Text → Bool) → List ChunkRef → Bool
all_present present [] = true
all_present present (c ∷ cs) = present c.hash && all_present present cs

-- `lockAndValidateChunks`: the argument is the store's `HasMany`, none where no store is set.
unfoldable pub lock_and_validate_chunks : Option (Text → Bool) → List ChunkRef → Result (Unit {0})
unfolding all_present
lock_and_validate_chunks none cs = ok tt
lock_and_validate_chunks (some present) cs = guard (all_present present cs) missing_chunk

-- The variables that `Put` scans; they keep Go's zero values when there is no row.
abbrev pub old_version : Option ManifestRow → ℕ
old_version none = 0
old_version (some r) = r.version

abbrev pub old_chunks : Option ManifestRow → List ChunkRef
old_chunks none = []
old_chunks (some r) = r.chunks

abbrev pub old_inode : Option ManifestRow → ℕ
old_inode none = 0
old_inode (some r) = r.inode_id

-- The before-state that `Put` and `Delete` journal has no owner, access time or inode.
abbrev pub prior : Text → Option ManifestRow → Manifest
prior p none = record {
  path = p;
  inode_id = 0;
  nlink = 0;
  size = 0;
  mode = 0;
  mtime = 0;
  version = 0;
  chunks = [];
  uid = 0;
  gid = 0;
  atime = 0;
}
prior p (some r) = record {
  path = p;
  inode_id = 0;
  nlink = 0;
  size = r.size;
  mode = r.mode;
  mtime = r.mtime;
  version = r.version;
  chunks = r.chunks;
  uid = 0;
  gid = 0;
  atime = 0;
}

-- The row of a new file.
abbrev pub new_row : Text → Manifest → ℕ → ℕ → ℕ → ManifestRow
new_row p mf inode version rev = record {
  path = p;
  inode_id = inode;
  size = mf.size;
  mode = mf.mode;
  mtime = mf.mtime;
  version = version;
  chunks = mf.chunks;
  uid = mf.uid;
  gid = mf.gid;
  atime = if mf.atime == 0 then mf.mtime else mf.atime;
  rev = rev;
}

-- A content write keeps the owner and the access time of the row found at the path.
abbrev pub rewritten : Option ManifestRow → Manifest → ℕ → ℕ → ManifestRow → ManifestRow
rewritten none mf version rev r = record r {
  size = mf.size;
  mode = mf.mode;
  mtime = mf.mtime;
  version = version;
  chunks = mf.chunks;
  uid = mf.uid;
  gid = mf.gid;
  atime = mf.atime;
  rev = rev;
}
rewritten (some old) mf version rev r = record r {
  size = mf.size;
  mode = mf.mode;
  mtime = mf.mtime;
  version = version;
  chunks = mf.chunks;
  uid = old.uid;
  gid = old.gid;
  atime = old.atime;
  rev = rev;
}

-- Step 5 of `Put`: the insert of a new file, with the inode that was allocated for it.
unfoldable pub put_insert : Text → Manifest → ℕ → Db → Result Db
put_insert p mf version db =
    guard (not (is_some (find manifest_path p db.manifests))) (version_conflict none)
    >> ok (record db {
      manifests = new_row p mf db.next_inode version db.last_rev ∷ db.manifests;
      tombstones = clear_tombstone p db.tombstones;
    })

-- Step 5 of `Put`: the update of every name of the inode.
unfoldable pub put_update : Option ManifestRow → Manifest → ℕ → Db → Result Db
put_update old mf version db =
    guard (not (nlink (old_inode old) db.manifests == 0)) (version_conflict none)
    >> ok (record db {
      manifests = update_inode (old_inode old) (rewritten old mf version db.last_rev) db.manifests;
    })

-- Step 6 of `Put`.
unfoldable pub refresh_entry : Text → Db → Db
refresh_entry p db =
    if is_empty (name_of p)
    then db
    else record db { dir_entries = ignore_entry (parent_of p) (name_of p) db.dir_entries }

-- update inode_counter set next_id = next_id + 1: only a create takes an inode
unfoldable pub alloc_inode : ℕ → Db → Db
alloc_inode expected db = if expected == 0 then record db { next_inode = db.next_inode + 1 } else db

-- Steps 4 to 6 of `Put`.
unfoldable pub put_rows : Text → ℕ → Manifest → Option ManifestRow → Db → Result Db
put_rows p expected mf old db =
    apply_chunk_ref_delta (chunk_ref_delta (old_chunks old) mf.chunks) db.chunks
    >>= (λ cs.
        if expected == 0
        then put_insert p mf (succ64 expected) (record db { chunks = cs })
        else put_update old mf (succ64 expected) (record db { chunks = cs }))
    >>= (λ d. ok (refresh_entry p d))

-- Step 3b of `Put`.
unfoldable pub put_journal : ℕ → Text → ℕ → Option ManifestRow → Writer → Db → Result Db
put_journal now p expected old w db =
    if expected == 0
    then journal_if_session now w op_create p none (some (succ64 expected)) [] db
    else journal_if_session now w op_update p (some (prior p old)) (some (succ64 expected)) [] db

-- `Put`: the new version and the database after the commit.
unfoldable pub put : Option (Text → Bool) → ℕ → Text → ℕ → Manifest → Writer → Db → Result (ℕ × Db)
put present now p expected mf w db =
    let old = find manifest_path p db.manifests in
    guard (eqb p mf.path) invalid
    >> guard (not (unpaired w)) invalid
    >> lock_and_validate_chunks present mf.chunks
    >> check_parent_exists p db
    >> guard (old_version old == expected) (version_conflict (some (old_version old)))
    >> put_journal now p expected old w (alloc_rev (alloc_inode expected db))
    >>= put_rows p expected mf old
    >>= (λ d. ok (succ64 expected, d))

-- `PutWithLeaseCheck`
unfoldable pub put_with_lease_check :
    Option (Text → Bool) → ℕ → Text → ℕ → Manifest → Writer → Text → Db → Result (ℕ × Db)
put_with_lease_check present now p expected mf w active_lease_hex db =
    validate_session w.session_id active_lease_hex >> put present now p expected mf w db
