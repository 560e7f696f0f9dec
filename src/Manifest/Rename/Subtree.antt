-- ===== src/Manifest/Rename/Subtree.antt =====
-- Renaming a directory: `reparentDescendantsTx` of manifests.go, with `tombstoneSubtreeTx` and
-- `clearTombstoneSubtreeTx` of changes.go.
use orlop.Prelude.{
  guard, ◌>>◌, ok, find, ℕ, ◌+◌, Text, Bool, true, List, [], ◌∷◌, ◌++◌, ◌&&◌, ◌||◌, not, eqb, ◌==◌,
  text, is_some, if◌then◌else◌, length,
}
use orlop.Manifest.Db.{
  TombstoneRow, DirRow, Db, Result, constraint, manifest_path, symlink_path, special_path,
  has_entry,
}
use orlop.Manifest.Journal.{upsert_tombstone}

-- `escapeLike`: a backslash before each backslash, % and _.
unfoldable pub escape_like : Text → Text
escape_like [] = []
escape_like (c ∷ s) =
    if c == b'\\' || c == b'%' || c == b'_' then b'\\' ∷ c ∷ escape_like s else c ∷ escape_like s

-- SQLite's operators on a path and a pattern, and its `substr`: `like` has no escape character,
-- `like_escaped` has the backslash; `substr p n` starts at the n-th character.
pub record Sqlite : Type 0 where
  pub like : Text → Text → Bool
  pub like_escaped : Text → Text → Bool
  pub glob : Text → Text → Bool
  pub substr : Text → ℕ → Text

-- No two rows have the same key, as a primary key has it.
unfoldable pub unique_key : {R : Type 0} → (R → Text) → List R → Bool
unique_key key [] = true
unique_key key (r ∷ rs) = not (is_some (find key (key r) rs)) && unique_key key rs

unfoldable pub unique_entries : List DirRow → Bool
unique_entries [] = true
unique_entries (d ∷ ds) = not (has_entry d.parent d.name ds) && unique_entries ds

module _ (sql : Sqlite) where
  -- `tombstoneSubtreeTx`, the statement for one table: every row's path at or under `p`.
  unfoldable pub tombstone_rows :
      {R : Type 0} → (R → Text) → ℕ → Text → ℕ → List R → List TombstoneRow → List TombstoneRow
  tombstone_rows key now p rev [] ts = ts
  tombstone_rows key now p rev (r ∷ rs) ts =
      let rest = tombstone_rows key now p rev rs ts in
      if eqb (key r) p || sql.like_escaped (key r) (escape_like p ++ text "/%")
      then upsert_tombstone now (key r) rev rest
      else rest

  -- case when parent = '/' then '/' || name else parent || '/' || name end
  abbrev pub entry_path : DirRow → Text
  entry_path d =
      if eqb d.parent (text "/") then text "/" ++ d.name else d.parent ++ text "/" ++ d.name

  -- `tombstoneSubtreeTx`
  unfoldable pub tombstone_subtree : ℕ → Text → ℕ → Db → Db
  tombstone_subtree now p rev db = record db {
    tombstones = tombstone_rows entry_path now p rev db.dir_entries (
        tombstone_rows special_path now p rev db.special_nodes (
          tombstone_rows symlink_path now p rev db.symlinks
            (tombstone_rows manifest_path now p rev db.manifests db.tombstones)));
  }

  -- `clearTombstoneSubtreeTx`
  unfoldable pub clear_tombstone_subtree : Text → List TombstoneRow → List TombstoneRow
  clear_tombstone_subtree p [] = []
  clear_tombstone_subtree p (t ∷ ts) =
      let rest = clear_tombstone_subtree p ts in
      if eqb t.path p || sql.like_escaped t.path (escape_like p ++ text "/%")
      then rest
      else t ∷ rest

  -- to || substr(path, len(from) + 1)
  abbrev moved_path : Text → Text → Text → Text
  moved_path from to p = to ++ sql.substr p (length from + 1)

  -- update (table) set path = ..., rev = ? where path like from || '/%'
  unfoldable pub reparent :
      {R : Type 0} → (R → Text) → (Text → R → R) → Text → Text → List R → List R
  reparent key set from to [] = []
  reparent key set from to (r ∷ rs) =
      (if sql.like (key r) (from ++ text "/%") then set (moved_path from to (key r)) r else r)
      ∷ reparent key set from to rs

  -- update dir_entries set parent = ?, rev = ? where parent = ?
  unfoldable pub reparent_children : Text → Text → ℕ → List DirRow → List DirRow
  reparent_children from to rev [] = []
  reparent_children from to rev (d ∷ ds) =
      (if eqb d.parent from then record d { parent = to; rev = rev } else d)
      ∷ reparent_children from to rev ds

  -- `reparentDescendantsTx`; keys that meet are refused by the tables.
  unfoldable pub reparent_descendants : ℕ → Text → Text → ℕ → Db → Result Db
  unfolding tombstone_subtree
  reparent_descendants now from to rev db =
      let ms =
        reparent manifest_path (λ p r. record r { path = p; rev = rev }) from to db.manifests in
      let ls =
        reparent symlink_path (λ p r. record r { path = p; rev = rev }) from to db.symlinks in
      let ns =
        reparent special_path (λ p r. record r { path = p; rev = rev }) from to db.special_nodes in
      let direct = reparent_children from to rev db.dir_entries in
      let ds =
        reparent (λ d. d.parent) (λ p d. record d { parent = p; rev = rev }) from to direct in
      guard
        (unique_key manifest_path ms && unique_key symlink_path ls && unique_key special_path ns)
        constraint
      >> guard (unique_entries direct && unique_entries ds) constraint
      >> ok (record (tombstone_subtree now from rev db) {
        manifests = ms;
        symlinks = ls;
        special_nodes = ns;
        dir_entries = ds;
        tombstones = clear_tombstone_subtree to (tombstone_subtree now from rev db).tombstones;
      })
