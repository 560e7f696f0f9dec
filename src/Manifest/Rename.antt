-- ===== src/Manifest/Rename.antt =====
-- `renameOpt`, `Rename` and `RenameWithLeaseCheck` of manifests.go.
pub mod Steps
pub mod Subtree
use orlop.Prelude.{
  guard, ◌>>=◌, ◌>>◌, ok, err, find, delete_key, update_key, ℕ, ◌+◌, Text, Bool, true, false,
  Option, none, some, List, [], ◌∷◌, ◌++◌, ◌&&◌, ◌||◌, not, eqb, ltb, text, is_some, ◌==◌,
  if◌then◌else◌, length,
}
use orlop.Prelude.Map.{is_empty}
use orlop.Manifest.Db.{
  ChunkRef, Manifest, ManifestRow, SymlinkRow, SpecialRow, TombstoneRow, DirRow, Db, SessionOp,
  op_rename, Result, invalid, already_exists, constraint, not_dir, is_dir, not_empty,
  manifest_not_found, version_conflict, manifest_path, symlink_path, special_path, tombstone_path,
  has_entry, delete_entry, update_entry, nlink, update_inode, succ64,
}
use orlop.Manifest.Chunks.{chunk_ref_delta, apply_chunk_ref_delta}
use orlop.Manifest.Journal.{
  Writer, unpaired, journal_if_session, alloc_rev, clear_tombstone, upsert_tombstone,
  validate_session,
}
use orlop.Manifest.Store.{
  parent_of, name_of, check_parent_exists, ignore_entry, old_version, old_inode,
}
use orlop.Manifest.Links.{
  NodeKind, node_absent, node_regular, node_symlink, node_special, node_dir, is_absent,
  resolve_kind, stamp, remove_dir_entry, release_chunks,
}
use orlop.Manifest.Nodes.{find_entry, dir_is_empty}
use orlop.Manifest.Rename.Steps.{
  is_node_dir, is_regular, same_path_version, read_rename_source, displace_file, delete_dest,
  move_manifest, move_symlink, move_special, upsert_entry, rewrite_entries, journal_rename,
  settle_paths,
}
use orlop.Manifest.Rename.Subtree.{
  Sqlite, tombstone_rows, entry_path, tombstone_subtree, clear_tombstone_subtree, reparent,
  unique_key, unique_entries, reparent_children, reparent_descendants,
}

module _ (sql : Sqlite) where
  -- `resolveRenameDestTx`: the kind of the destination and its version.
  unfoldable pub resolve_rename_dest : Text → NodeKind → Bool → ℕ → Db → Result (NodeKind × ℕ)
  resolve_rename_dest to src_kind no_replace expected_to db =
      let kind = resolve_kind to db in
      let old = find manifest_path to db.manifests in
      if is_absent kind
      then ok (kind, 0)
      else guard (not no_replace) already_exists
        >> guard (not (is_node_dir src_kind && not (is_node_dir kind))) not_dir
        >> guard (not (not (is_node_dir src_kind) && is_node_dir kind)) is_dir
        >> guard
            (not (is_node_dir src_kind && is_node_dir kind && not (dir_is_empty sql.glob to db)))
            not_empty
        >> (if is_regular kind
            then guard (expected_to == 0 || old_version old == expected_to)
                (version_conflict (some (old_version old)))
              >> ok (kind, old_version old)
            else ok (kind, 0))

  abbrev pub overwrite : Text → NodeKind → ℕ → Db → Result Db
  overwrite to kind rev db = if is_absent kind then ok db else delete_dest to kind rev db

  -- Steps 6b to 11 for a regular file.
  unfoldable pub relocate_file :
      ℕ → Text → Text → NodeKind × ℕ → ManifestRow → Writer → Db → Result (ℕ × Db)
  unfolding alloc_rev
  relocate_file now from to dst src w db =
      overwrite to dst.0 (db.last_rev + 1) (alloc_rev db)
      >>= journal_rename now from to dst.1 src w
      >>= λ r. move_manifest from to r.0 (db.last_rev + 1) src r.1 >>= λ d.
          ok (r.0, settle_paths now from to node_regular (db.last_rev + 1) d)

  -- Step 6 for a regular file; two names of one inode are left as they are.
  unfoldable pub rename_file : ℕ → Text → Text → ℕ → NodeKind × ℕ → Writer → Db → Result (ℕ × Db)
  rename_file now from to expected_from dst w db =
      read_rename_source from expected_from db >>= λ src.
      if is_regular dst.0 && old_inode (find manifest_path to db.manifests) == src.inode_id
      then ok (src.version, db)
      else relocate_file now from to dst src w db

  -- Step 9 for the other kinds.
  unfoldable pub move_node : ℕ → Text → Text → NodeKind → ℕ → Db → Result Db
  move_node now from to node_symlink rev db = move_symlink from to rev db
  move_node now from to node_special rev db = move_special from to rev db
  move_node now from to node_dir rev db = reparent_descendants sql now from to rev db
  move_node now from to _ rev db = ok db

  -- Steps 6b to 11 for the other kinds, which have version 1 and no journal.
  unfoldable pub rename_node : ℕ → Text → Text → NodeKind → NodeKind × ℕ → Db → Result (ℕ × Db)
  unfolding alloc_rev
  rename_node now from to kind dst db =
      overwrite to dst.0 (db.last_rev + 1) (alloc_rev db)
      >>= move_node now from to kind (db.last_rev + 1)
      >>= λ d. ok (1, settle_paths now from to kind (db.last_rev + 1) d)

  -- Steps 5 to 11, once the destination is resolved.
  unfoldable pub rename_onto :
      ℕ → Text → Text → NodeKind → ℕ → Writer → Db → NodeKind × ℕ → Result (ℕ × Db)
  rename_onto now from to kind expected_from w db dst =
      check_parent_exists to db
      >> (if is_regular kind
          then rename_file now from to expected_from dst w db
          else rename_node now from to kind dst db)

  -- `renameOpt`
  unfoldable pub rename : ℕ → Text → Text → ℕ → ℕ → Bool → Writer → Db → Result (ℕ × Db)
  rename now from to expected_from expected_to no_replace w db =
      let kind = resolve_kind from db in
      guard (not (unpaired w)) invalid
      >> guard (not (is_absent kind)) manifest_not_found
      >> (if eqb from to
          then ok (same_path_version from kind db, db)
          else resolve_rename_dest to kind no_replace expected_to db
            >>= rename_onto now from to kind expected_from w db)

  -- `RenameWithLeaseCheck`
  unfoldable pub rename_with_lease_check :
      ℕ → Text → Text → ℕ → ℕ → Bool → Writer → Text → Db → Result (ℕ × Db)
  rename_with_lease_check now from to expected_from expected_to no_replace w active_lease_hex db =
      validate_session w.session_id active_lease_hex
      >> rename now from to expected_from expected_to no_replace w db
