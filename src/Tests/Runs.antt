-- ===== src/Tests/Runs.antt =====
-- Runs of the manifest store: a file is created, linked, rewritten and deleted, and a directory is
-- renamed.
use orlop.Prelude.{
  precedes, ok, err, find, delete_key, update_key, ◌-◌, Text, text, text_dec, false, none, List, [],
  ◌∷◌, ◌≡◌, ◌≢◌, refl, length, take, drop,
}
use orlop.Paths.{has_prefix, split_parent_name}
use orlop.Manifest.Db.{
  ChunkRef, Manifest, Db, Result, manifest_path, nlink, update_inode, has_entry, has_children,
  delete_entry,
}
use orlop.Manifest.Chunks.{
  occurrences, distinct, hashes, deltas, chunk_ref_delta, insert_chunk, refcount, apply_delta,
  apply_chunk_ref_delta,
}
use orlop.Manifest.Journal.{
  Writer, max_seq, append_journal, journal_before_write, journal_if_session, journal_row, alloc_rev,
  upsert_tombstone, clear_tombstone,
}
use orlop.Manifest.Store.{
  put, put_rows, put_insert, put_update, put_journal, refresh_entry, alloc_inode,
  lock_and_validate_chunks, check_parent_exists, ignore_entry,
}
use orlop.Manifest.Links.{
  link, link_rows, insert_entry, resolve_kind, delete, delete_manifest, delete_rows,
  delete_special_node, delete_symlink, forget_path, journal_delete, release_chunks,
  remove_dir_entry, surviving_alias, delete_alias,
}
use orlop.Manifest.Nodes.{dir_create, find_entry}
use orlop.Manifest.Rename.Subtree.{
  Sqlite, reparent, unique_key, unique_entries, reparent_children, reparent_descendants,
  escape_like, tombstone_rows, tombstone_subtree, clear_tombstone_subtree,
}
use orlop.Manifest.Rename.Steps.{settle_paths, rewrite_entries, upsert_entry}
use orlop.Manifest.Rename.{rename, rename_onto, rename_node, move_node, resolve_rename_dest}
use orlop.Manifest.Ownership.{owned, IsSound}
use orlop.Manifest.Ownership.Put.{put-IsSound}
use orlop.Manifest.Ownership.Unlink.{link-IsSound}

abbrev pub empty_db : Db
empty_db = record {
  manifests = [];
  symlinks = [];
  special_nodes = [];
  dir_entries = [];
  chunks = [];
  tombstones = [];
  journal = [];
  next_inode = 0;
  last_rev = 0;
  pruned_before_rev = 0;
}

abbrev pub chunk : Text → ChunkRef
chunk h = record { hash = h; offset = 0; len = 4 }

abbrev pub file : Text → List ChunkRef → Manifest
file p cs = record {
  path = p;
  inode_id = 0;
  nlink = 0;
  size = 4;
  mode = 420;
  mtime = 7;
  version = 0;
  chunks = cs;
  uid = 1;
  gid = 1;
  atime = 0;
}

abbrev pub a_path : Text
a_path = text "/a"

abbrev pub b_path : Text
b_path = text "/b"

abbrev pub old_file : Manifest
old_file = file a_path (chunk (text "x") ∷ chunk (text "x") ∷ [])

abbrev pub new_file : Manifest
new_file = file a_path (chunk (text "x") ∷ chunk (text "y") ∷ [])

abbrev pub writer : Writer
writer = record { session_id = text "mount:1"; allocation_id = text "al"; agent_id = text "ag" }

abbrev pub second {ℓ} : {A : Type ℓ} → Result (A × Db) → Db
second (ok (n, d)) = d
second (err e) = empty_db

abbrev pub plain : Result Db → Db
plain (ok d) = d
plain (err e) = empty_db

abbrev pub created : Db
created = second (put none 5 a_path 0 old_file writer empty_db)

created_runs : put none 5 a_path 0 old_file writer empty_db ≡ ok (1, created)
unfolding put put_rows put_insert put_update put_journal refresh_entry alloc_inode
    lock_and_validate_chunks check_parent_exists ignore_entry split_parent_name find has_entry
    apply_chunk_ref_delta apply_delta chunk_ref_delta distinct hashes deltas insert_chunk update_key
    occurrences alloc_rev journal_if_session journal_before_write append_journal journal_row max_seq
    clear_tombstone delete_key text_dec
created_runs = refl

pub empty-IsSound : IsSound empty_db
unfolding owned find
empty-IsSound = record { unique = tt; shared = tt; bounded = tt; exact = λ h. refl }

pub created-IsSound : IsSound created
created-IsSound =
    put-IsSound none 5 a_path 0 old_file writer empty_db 1 created created_runs empty-IsSound

abbrev pub linked : Db
linked = second (link 6 a_path b_path writer created)

pub linked_runs : link 6 a_path b_path writer created ≡ ok (2, linked)
unfolding put put_rows put_insert put_update put_journal refresh_entry alloc_inode
    lock_and_validate_chunks check_parent_exists ignore_entry split_parent_name find has_entry
    apply_chunk_ref_delta apply_delta chunk_ref_delta distinct hashes deltas insert_chunk update_key
    occurrences alloc_rev journal_if_session journal_before_write append_journal journal_row max_seq
    clear_tombstone delete_key text_dec nlink update_inode link link_rows insert_entry resolve_kind
    has_children
linked_runs = refl

pub linked-IsSound : IsSound linked
linked-IsSound = link-IsSound 6 a_path b_path writer created 2 linked linked_runs created-IsSound

abbrev pub rewritten_db : Db
rewritten_db = second (put none 8 a_path 1 new_file writer linked)

pub rewritten_runs : put none 8 a_path 1 new_file writer linked ≡ ok (2, rewritten_db)
unfolding put put_rows put_insert put_update put_journal refresh_entry alloc_inode
    lock_and_validate_chunks check_parent_exists ignore_entry split_parent_name find has_entry
    apply_chunk_ref_delta apply_delta chunk_ref_delta distinct hashes deltas insert_chunk update_key
    occurrences alloc_rev journal_if_session journal_before_write append_journal journal_row max_seq
    clear_tombstone delete_key text_dec nlink update_inode link link_rows insert_entry resolve_kind
    has_children
rewritten_runs = refl

abbrev pub removed : Db
removed = plain (delete 9 a_path 1 writer linked)

pub removed_runs : delete 9 a_path 1 writer linked ≡ ok removed
unfolding put put_rows put_insert put_update put_journal refresh_entry alloc_inode
    lock_and_validate_chunks check_parent_exists ignore_entry split_parent_name find has_entry
    apply_chunk_ref_delta apply_delta chunk_ref_delta distinct hashes deltas insert_chunk update_key
    occurrences alloc_rev journal_if_session journal_before_write append_journal journal_row max_seq
    clear_tombstone delete_key text_dec nlink update_inode link link_rows insert_entry resolve_kind
    has_children delete delete_manifest delete_rows delete_special_node delete_symlink forget_path
    journal_delete release_chunks remove_dir_entry delete_entry upsert_tombstone surviving_alias
    precedes delete_alias
removed_runs = refl

-- Two names hold the two references once.
linked_refcount : refcount (text "x") linked.chunks ≡ 2
unfolding put put_rows put_insert put_update put_journal refresh_entry alloc_inode
    lock_and_validate_chunks check_parent_exists ignore_entry split_parent_name find has_entry
    apply_chunk_ref_delta apply_delta chunk_ref_delta distinct hashes deltas insert_chunk update_key
    occurrences alloc_rev journal_if_session journal_before_write append_journal journal_row max_seq
    clear_tombstone delete_key text_dec nlink update_inode link link_rows insert_entry resolve_kind
    has_children
linked_refcount = refl

-- The removal of one name keeps them.
removed_refcount : refcount (text "x") removed.chunks ≡ 2
unfolding put put_rows put_insert put_update put_journal refresh_entry alloc_inode
    lock_and_validate_chunks check_parent_exists ignore_entry split_parent_name find has_entry
    apply_chunk_ref_delta apply_delta chunk_ref_delta distinct hashes deltas insert_chunk update_key
    occurrences alloc_rev journal_if_session journal_before_write append_journal journal_row max_seq
    clear_tombstone delete_key text_dec nlink update_inode link link_rows insert_entry resolve_kind
    has_children delete delete_manifest delete_rows delete_special_node delete_symlink forget_path
    journal_delete release_chunks remove_dir_entry delete_entry upsert_tombstone surviving_alias
    precedes delete_alias
removed_refcount = refl

-- A stand-in for SQLite's operators on paths with no wildcards.
abbrev pub sqlite : Sqlite
sqlite = record {
  like = λ p pat. has_prefix p (take (length pat - 1) pat);
  like_escaped = λ p pat. has_prefix p (take (length pat - 1) pat);
  glob = λ p pat. has_prefix p (take (length pat - 1) pat);
  substr = λ p n. drop (n - 1) p;
}

abbrev pub inner : Manifest
inner = file (text "/d/f") (chunk (text "x") ∷ [])

abbrev pub with_dir : Db
with_dir = plain (dir_create (text "/d") 0 empty_db)

abbrev pub with_inner : Db
with_inner = second (put none 3 (text "/d/f") 0 inner writer with_dir)

with_inner_runs : put none 3 (text "/d/f") 0 inner writer with_dir ≡ ok (1, with_inner)
unfolding put put_rows put_insert put_update put_journal refresh_entry alloc_inode
    lock_and_validate_chunks check_parent_exists ignore_entry split_parent_name find has_entry
    apply_chunk_ref_delta apply_delta chunk_ref_delta distinct hashes deltas insert_chunk update_key
    occurrences alloc_rev journal_if_session journal_before_write append_journal journal_row max_seq
    clear_tombstone delete_key text_dec nlink update_inode dir_create insert_entry resolve_kind
    has_children rename rename_onto rename_node move_node resolve_rename_dest reparent unique_key
    unique_entries reparent_children reparent_descendants escape_like tombstone_rows
    tombstone_subtree clear_tombstone_subtree settle_paths rewrite_entries upsert_entry find_entry
    remove_dir_entry delete_entry upsert_tombstone has_prefix
with_inner_runs = refl

with_dir-IsSound : IsSound with_dir
unfolding put put_rows put_insert put_update put_journal refresh_entry alloc_inode
    lock_and_validate_chunks check_parent_exists ignore_entry split_parent_name find has_entry
    apply_chunk_ref_delta apply_delta chunk_ref_delta distinct hashes deltas insert_chunk update_key
    occurrences alloc_rev journal_if_session journal_before_write append_journal journal_row max_seq
    clear_tombstone delete_key text_dec nlink update_inode dir_create insert_entry resolve_kind
    has_children rename rename_onto rename_node move_node resolve_rename_dest reparent unique_key
    unique_entries reparent_children reparent_descendants escape_like tombstone_rows
    tombstone_subtree clear_tombstone_subtree settle_paths rewrite_entries upsert_entry find_entry
    remove_dir_entry delete_entry upsert_tombstone has_prefix owned
with_dir-IsSound = record { unique = tt; shared = tt; bounded = tt; exact = λ h. refl }

pub with_inner-IsSound : IsSound with_inner
with_inner-IsSound =
    put-IsSound none 3 (text "/d/f") 0 inner writer with_dir 1 with_inner with_inner_runs
      with_dir-IsSound

abbrev pub moved : Db
moved = second (rename sqlite 4 (text "/d") (text "/e") 0 0 false writer with_inner)

pub moved_runs : rename sqlite 4 (text "/d") (text "/e") 0 0 false writer with_inner ≡ ok (1, moved)
unfolding put put_rows put_insert put_update put_journal refresh_entry alloc_inode
    lock_and_validate_chunks check_parent_exists ignore_entry split_parent_name find has_entry
    apply_chunk_ref_delta apply_delta chunk_ref_delta distinct hashes deltas insert_chunk update_key
    occurrences alloc_rev journal_if_session journal_before_write append_journal journal_row max_seq
    clear_tombstone delete_key text_dec nlink update_inode dir_create insert_entry resolve_kind
    has_children rename rename_onto rename_node move_node resolve_rename_dest reparent unique_key
    unique_entries reparent_children reparent_descendants escape_like tombstone_rows
    tombstone_subtree clear_tombstone_subtree settle_paths rewrite_entries upsert_entry find_entry
    remove_dir_entry delete_entry upsert_tombstone has_prefix
moved_runs = refl

moved_path : find manifest_path (text "/e/f") moved.manifests ≢ none
unfolding put put_rows put_insert put_update put_journal refresh_entry alloc_inode
    lock_and_validate_chunks check_parent_exists ignore_entry split_parent_name find has_entry
    apply_chunk_ref_delta apply_delta chunk_ref_delta distinct hashes deltas insert_chunk update_key
    occurrences alloc_rev journal_if_session journal_before_write append_journal journal_row max_seq
    clear_tombstone delete_key text_dec nlink update_inode dir_create insert_entry resolve_kind
    has_children rename rename_onto rename_node move_node resolve_rename_dest reparent unique_key
    unique_entries reparent_children reparent_descendants escape_like tombstone_rows
    tombstone_subtree clear_tombstone_subtree settle_paths rewrite_entries upsert_entry find_entry
    remove_dir_entry delete_entry upsert_tombstone has_prefix
moved_path = λ e. cc
