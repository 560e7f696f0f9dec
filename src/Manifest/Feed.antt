-- ===== src/Manifest/Feed.antt =====
-- The change feed: changeFeedState, queryChanges and pruneTombstones of changes.go, and the page that the handler of
-- CHANGES_FETCH answers (dataplane_changes.go).
pub mod Order
pub mod Pages
pub mod Pruning
use orlop.Prelude.{
  ℕ, ◌+◌, Text, text, Bool, true, false, Option, none, some, List, [], ◌∷◌, ◌++◌, map, take, length,
  ◌&&◌, ◌||◌, not, ltb, leb, ◌==◌, eqb, precedes, is_some, find, filter, if◌then◌else◌, Outcome, ok,
  err,
}
use orlop.Prelude.Map.{is_empty}
use orlop.Manifest.Db.{
  ChunkRef, ManifestRow, SymlinkRow, SpecialRow, DirRow, TombstoneRow, Db, nlink, manifest_path,
  symlink_path, special_path,
}
use orlop.Manifest.Nodes.{special_node_kind}
use orlop.Manifest.Rename.Subtree.{Sqlite, escape_like, entry_path}

pub record ChangeEntry : Type 0 where
  pub path : Text
  pub kind : Text
  pub rev : ℕ
  pub size : ℕ
  pub mode : ℕ
  pub mtime : ℕ
  pub uid : ℕ
  pub gid : ℕ
  pub atime : ℕ
  pub inode_id : ℕ
  pub nlink : ℕ
  pub version : ℕ
  pub target : Text
  pub rdev : ℕ
  pub chunks : Option (List ChunkRef)

abbrev file_entry : List ManifestRow → ManifestRow → ChangeEntry
file_entry rows r = record {
  path = r.path;
  kind = text "file";
  rev = r.rev;
  size = r.size;
  mode = r.mode;
  mtime = r.mtime;
  uid = r.uid;
  gid = r.gid;
  atime = r.atime;
  inode_id = r.inode_id;
  nlink = nlink r.inode_id rows;
  version = r.version;
  target = [];
  rdev = 0;
  chunks = some r.chunks;
}

-- A symbolic link's size is SQLite's length of its target, which counts characters.
abbrev symlink_entry : (Text → ℕ) → SymlinkRow → ChangeEntry
symlink_entry chars r = record {
  path = r.path;
  kind = text "symlink";
  rev = r.rev;
  size = chars r.target;
  mode = r.mode;
  mtime = r.mtime;
  uid = r.uid;
  gid = r.gid;
  atime = r.atime;
  inode_id = 0;
  nlink = 1;
  version = 0;
  target = r.target;
  rdev = 0;
  chunks = none;
}

abbrev special_entry : SpecialRow → ChangeEntry
special_entry r = record {
  path = r.path;
  kind = text "special";
  rev = r.rev;
  size = 0;
  mode = r.mode;
  mtime = r.mtime;
  uid = r.uid;
  gid = r.gid;
  atime = r.atime;
  inode_id = 0;
  nlink = 1;
  version = 0;
  target = [];
  rdev = r.rdev;
  chunks = none;
}

abbrev dir_entry : Text → DirRow → ChangeEntry
dir_entry p r = record {
  path = p;
  kind = text "dir";
  rev = r.rev;
  size = 0;
  mode = r.mode;
  mtime = r.mtime;
  uid = r.uid;
  gid = r.gid;
  atime = r.atime;
  inode_id = 0;
  nlink = 1;
  version = 0;
  target = [];
  rdev = 0;
  chunks = none;
}

abbrev tombstone_entry : TombstoneRow → ChangeEntry
tombstone_entry t = record {
  path = t.path;
  kind = text "tombstone";
  rev = t.rev;
  size = 0;
  mode = 0;
  mtime = 0;
  uid = 0;
  gid = 0;
  atime = 0;
  inode_id = 0;
  nlink = 0;
  version = 0;
  target = [];
  rdev = 0;
  chunks = none;
}

-- Whether a file, a symbolic link or a special node stands at the path.
abbrev has_node : Db → Text → Bool
has_node db p =
    is_some (find manifest_path p db.manifests)
    || is_some (find symlink_path p db.symlinks)
    || is_some (find special_path p db.special_nodes)

-- (rev, path) < (rev', path')
unfoldable pub comes_after : ℕ → Text → ℕ → Text → Bool
comes_after rev path rev' path' = ltb rev rev' || (rev' == rev && precedes path path')

abbrev pub is_after : ℕ → Text → ChangeEntry → Bool
is_after rev path e = comes_after rev path e.rev e.path

-- order by rev, path
unfoldable pub insert_by_key : ChangeEntry → List ChangeEntry → List ChangeEntry
insert_by_key e [] = e ∷ []
insert_by_key e (d ∷ ds) =
    let rest = insert_by_key e ds in if is_after d.rev d.path e then d ∷ rest else e ∷ d ∷ ds

unfoldable pub sort : List ChangeEntry → List ChangeEntry
sort [] = []
sort (e ∷ es) = insert_by_key e (sort es)

abbrev or_mode : ℕ → ℕ → ℕ
or_mode mode other = if mode == 0 then other else mode

-- What becomes of a row after the scan: the chunks where they are asked for, modes that are unset, concrete kinds.
abbrev pub scanned : Bool → ChangeEntry → ChangeEntry
scanned include_chunks e = record e {
  chunks = if include_chunks then e.chunks else none;
  mode =
      if eqb e.kind (text "dir")
      then or_mode e.mode 493
      else if eqb e.kind (text "symlink")
      then or_mode e.mode 511
      else e.mode;
  kind =
      if eqb e.kind (text "special")
      then (if is_empty (special_node_kind e.mode) then e.kind else special_node_kind e.mode)
      else e.kind;
}

module _ (sql : Sqlite) (chars : Text → ℕ) where
  unfoldable pub dir_changes : Db → List DirRow → List ChangeEntry
  dir_changes db [] = []
  dir_changes db (d ∷ ds) =
      let rest = dir_changes db ds in
      if has_node db (entry_path sql d) then rest else dir_entry (entry_path sql d) d ∷ rest

  -- The union of the tables.
  unfoldable pub feed : Db → List ChangeEntry
  feed db =
      map (file_entry db.manifests) db.manifests
      ++ map (symlink_entry chars) db.symlinks
      ++ map special_entry db.special_nodes
      ++ dir_changes db db.dir_entries
      ++ map tombstone_entry db.tombstones

  abbrev pub in_subtree : Text → ChangeEntry → Bool
  in_subtree subtree e =
      is_empty subtree
      || eqb e.path subtree
      || sql.like_escaped e.path (escape_like subtree ++ text "/%")

  unfoldable pub query_changes : Text → ℕ → Text → ℕ → Bool → Db → List ChangeEntry
  query_changes subtree rev path limit include_chunks db =
      map (scanned include_chunks)
        (take limit (sort (filter (λ e. is_after rev path e && in_subtree subtree e) (feed db))))

pub record FetchRequest : Type 0 where
  pub sync_protocol : ℕ
  pub cursor_rev : ℕ
  pub cursor_path : Text
  pub limit : ℕ
  pub include_chunks : Bool

pub record FetchResponse : Type 0 where
  pub entries : List ChangeEntry
  pub next_rev : ℕ
  pub next_path : Text
  pub current_rev : ℕ
  pub resync_required : Bool
  pub subtree : Text

-- The clamp of the page size; 0 stands for every limit that is not positive.
abbrev pub clamped : ℕ → ℕ
clamped limit = if limit == 0 then 500 else if ltb 1000 limit then 1000 else limit

unfoldable pub last_entry : List ChangeEntry → Option ChangeEntry
last_entry [] = none
last_entry (e ∷ []) = some e
last_entry (e ∷ d ∷ es) = last_entry (d ∷ es)

-- The cursor behind a page, and the revision that is reported as the current one.
unfoldable pub next_cursor : ℕ → ℕ → List ChangeEntry → ℕ × Text × ℕ
next_cursor limit last_rev page = elim (last_entry page) [
  | none ↦ (last_rev, [], last_rev)
  | some e ↦
      if ltb (length page) limit
      then (if leb last_rev e.rev then (e.rev, e.path, e.rev) else (last_rev, [], last_rev))
      else (e.rev, e.path, last_rev)
]

module _ (sql : Sqlite) (chars : Text → ℕ) (permits : Text → Bool) where
  -- `db` is the database when the counter is read, and `db'` the one that is queried. The error is EINVAL.
  unfoldable pub fetch_changes : Text → FetchRequest → Db → Db → Outcome (Unit {0}) FetchResponse
  fetch_changes subtree req db db' =
      if not (req.sync_protocol == 1)
      then err tt
      else if ltb 0 req.cursor_rev && ltb req.cursor_rev db.pruned_before_rev
      then ok (record {
        entries = [];
        next_rev = req.cursor_rev;
        next_path = req.cursor_path;
        current_rev = db.last_rev;
        resync_required = true;
        subtree = subtree;
      })
      else let page =
          query_changes sql chars subtree req.cursor_rev req.cursor_path (clamped req.limit)
            req.include_chunks db' in
        let next = next_cursor (clamped req.limit) db.last_rev page in
        ok (record {
          entries = filter (λ e. permits e.path) page;
          next_rev = next.0;
          next_path = next.1;
          current_rev = next.2;
          resync_required = false;
          subtree = subtree;
        })
