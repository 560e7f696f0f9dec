-- ===== src/Tests/Files.antt =====
-- The theorems on the manifest store at those runs.
use orlop.Prelude.{
  ok, err, find, delete_key, update_key, ◌+◌, text, text_dec, false, Option, none, some, List, [],
  ◌∷◌, ◌≡◌, refl,
}
use orlop.Paths.{split_parent_name}
use orlop.Manifest.Db.{
  ChunkRow, succ64, ManifestRow, Db, Result, manifest_path, special_path, symlink_path, nlink,
  update_inode, has_entry, has_children, op_create,
}
use orlop.Manifest.Chunks.{
  occurrences, distinct, hashes, deltas, chunk_ref_delta, insert_chunk, apply_delta,
  apply_chunk_ref_delta,
}
use orlop.Manifest.Journal.{
  max_seq, append_journal, journal_before_write, journal_if_session, journal_row, alloc_rev,
  clear_tombstone,
}
use orlop.Manifest.Journal.Sequence.{Numbered, entries, journal_numbers}
use orlop.Manifest.Store.{
  put, put_rows, put_insert, put_update, put_journal, refresh_entry, alloc_inode,
  lock_and_validate_chunks, check_parent_exists, ignore_entry,
}
use orlop.Manifest.Store.ReadBack.{Reads, get-put, get_alias-put}
use orlop.Manifest.Links.{link, link_rows, insert_entry, resolve_kind}
use orlop.Manifest.Ownership.{IsSound}
use orlop.Manifest.Ownership.Total.{Admissible, put_total}
use orlop.Manifest.Mutations.{Mutation, puts, links, deletes, renames, stores_chunk, run, new_db}
use orlop.Manifest.Mutations.Soundness.{reached-IsSound}
use orlop.Manifest.Links.Removal.{Deleted, delete_lem}
use orlop.Tests.Runs.{
  a_path, b_path, old_file, new_file, writer, plain, created, linked, rewritten_db, removed, sqlite,
  linked-IsSound, rewritten_runs, removed_runs,
}

-- A file with two names; one is deleted, the other renamed over a further file.
abbrev mutations : List Mutation
mutations =
    stores_chunk (text "x") 4 1
    ∷ puts none 5 a_path 0 old_file writer (text "1")
    ∷ links 6 a_path b_path writer (text "1")
    ∷ deletes 7 a_path 1 writer (text "1")
    ∷ puts none 8 a_path 0 new_file writer (text "1")
    ∷ renames 9 b_path a_path 1 0 false writer (text "1")
    ∷ []

reached-IsSound_example : IsSound (run sqlite new_db mutations)
reached-IsSound_example = reached-IsSound sqlite mutations

admissible : Admissible none a_path 1 new_file writer linked
unfolding put put_rows put_insert put_update put_journal refresh_entry alloc_inode
    lock_and_validate_chunks check_parent_exists ignore_entry split_parent_name find has_entry
    apply_chunk_ref_delta apply_delta chunk_ref_delta distinct hashes deltas insert_chunk update_key
    occurrences alloc_rev journal_if_session journal_before_write append_journal journal_row max_seq
    clear_tombstone delete_key text_dec nlink update_inode link link_rows insert_entry resolve_kind
    has_children
admissible = record {
  path = refl;
  paired = refl;
  stored = refl;
  parent = refl;
  version = (refl, λ e. cc);
}

put_total_example : (db' : Db) × (put none 8 a_path 1 new_file writer linked ≡ ok (2, db'))
put_total_example = put_total none 8 a_path 1 new_file writer linked linked-IsSound admissible

get-put_example : (2 ≡ succ64 1) × Reads a_path new_file 2 rewritten_db
get-put_example = get-put none 8 a_path 1 new_file writer linked 2 rewritten_db rewritten_runs

abbrev row_of : Option ManifestRow → ManifestRow
row_of (some r) = r
row_of none = record {
  path = [];
  inode_id = 0;
  size = 0;
  mode = 0;
  mtime = 0;
  version = 0;
  chunks = [];
  uid = 0;
  gid = 0;
  atime = 0;
  rev = 0;
}

abbrev a_row : ManifestRow
a_row = row_of (find manifest_path a_path linked.manifests)

abbrev b_row : ManifestRow
b_row = row_of (find manifest_path b_path linked.manifests)

a_found : find manifest_path a_path linked.manifests ≡ some a_row
unfolding put put_rows put_insert put_update put_journal refresh_entry alloc_inode
    lock_and_validate_chunks check_parent_exists ignore_entry split_parent_name find has_entry
    apply_chunk_ref_delta apply_delta chunk_ref_delta distinct hashes deltas insert_chunk update_key
    occurrences alloc_rev journal_if_session journal_before_write append_journal journal_row max_seq
    clear_tombstone delete_key text_dec nlink update_inode link link_rows insert_entry resolve_kind
    has_children
a_found = refl

b_found : find manifest_path b_path linked.manifests ≡ some b_row
unfolding put put_rows put_insert put_update put_journal refresh_entry alloc_inode
    lock_and_validate_chunks check_parent_exists ignore_entry split_parent_name find has_entry
    apply_chunk_ref_delta apply_delta chunk_ref_delta distinct hashes deltas insert_chunk update_key
    occurrences alloc_rev journal_if_session journal_before_write append_journal journal_row max_seq
    clear_tombstone delete_key text_dec nlink update_inode link link_rows insert_entry resolve_kind
    has_children
b_found = refl

same_inode : b_row.inode_id ≡ a_row.inode_id
unfolding put put_rows put_insert put_update put_journal refresh_entry alloc_inode
    lock_and_validate_chunks check_parent_exists ignore_entry split_parent_name find has_entry
    apply_chunk_ref_delta apply_delta chunk_ref_delta distinct hashes deltas insert_chunk update_key
    occurrences alloc_rev journal_if_session journal_before_write append_journal journal_row max_seq
    clear_tombstone delete_key text_dec nlink update_inode link link_rows insert_entry resolve_kind
    has_children
same_inode = refl

get_alias-put_example : Reads b_path new_file 2 rewritten_db
get_alias-put_example =
    get_alias-put none 8 a_path 1 new_file writer linked 2 rewritten_db rewritten_runs b_path a_row
      b_row a_found b_found same_inode

parent_there : check_parent_exists a_path linked ≡ ok tt
unfolding put put_rows put_insert put_update put_journal refresh_entry alloc_inode
    lock_and_validate_chunks check_parent_exists ignore_entry split_parent_name find has_entry
    apply_chunk_ref_delta apply_delta chunk_ref_delta distinct hashes deltas insert_chunk update_key
    occurrences alloc_rev journal_if_session journal_before_write append_journal journal_row max_seq
    clear_tombstone delete_key text_dec nlink update_inode link link_rows insert_entry resolve_kind
    has_children
parent_there = refl

stored_there : lock_and_validate_chunks none new_file.chunks ≡ ok tt
unfolding put put_rows put_insert put_update put_journal refresh_entry alloc_inode
    lock_and_validate_chunks check_parent_exists ignore_entry split_parent_name find has_entry
    apply_chunk_ref_delta apply_delta chunk_ref_delta distinct hashes deltas insert_chunk update_key
    occurrences alloc_rev journal_if_session journal_before_write append_journal journal_row max_seq
    clear_tombstone delete_key text_dec nlink update_inode link link_rows insert_entry resolve_kind
    has_children
stored_there = refl

abbrev one_row : List ChunkRow
one_row = record { hash = text "x"; size = 4; refcount = 2; added_at = 1 } ∷ []

abbrev rows_of : Result (List ChunkRow) → List ChunkRow
rows_of (ok rs) = rs
rows_of (err e) = []

abbrev two_rows : List ChunkRow
two_rows = rows_of (apply_chunk_ref_delta (chunk_ref_delta old_file.chunks new_file.chunks) one_row)

delta_runs :
    apply_chunk_ref_delta (chunk_ref_delta old_file.chunks new_file.chunks) one_row ≡ ok two_rows
unfolding put put_rows put_insert put_update put_journal refresh_entry alloc_inode
    lock_and_validate_chunks check_parent_exists ignore_entry split_parent_name find has_entry
    apply_chunk_ref_delta apply_delta chunk_ref_delta distinct hashes deltas insert_chunk update_key
    occurrences alloc_rev journal_if_session journal_before_write append_journal journal_row max_seq
    clear_tombstone delete_key text_dec nlink update_inode
delta_runs = refl

abbrev journaled : Db
journaled = plain (journal_before_write 9 writer op_create a_path none (some 3) [] created)

journaled_runs :
    journal_before_write 9 writer op_create a_path none (some 3) [] created ≡ ok journaled
unfolding put put_rows put_insert put_update put_journal refresh_entry alloc_inode
    lock_and_validate_chunks check_parent_exists ignore_entry split_parent_name find has_entry
    apply_chunk_ref_delta apply_delta chunk_ref_delta distinct hashes deltas insert_chunk update_key
    occurrences alloc_rev journal_if_session journal_before_write append_journal journal_row max_seq
    clear_tombstone delete_key text_dec nlink update_inode
journaled_runs = refl

created-Numbered : Numbered created.journal
unfolding put put_rows put_insert put_update put_journal refresh_entry alloc_inode
    lock_and_validate_chunks check_parent_exists ignore_entry split_parent_name find has_entry
    apply_chunk_ref_delta apply_delta chunk_ref_delta distinct hashes deltas insert_chunk update_key
    occurrences alloc_rev journal_if_session journal_before_write append_journal journal_row max_seq
    clear_tombstone delete_key text_dec nlink update_inode entries
created-Numbered = (refl, tt)

journal_numbers_example :
    Numbered journaled.journal
    × (entries (text "mount:1") journaled.journal ≡ entries (text "mount:1") created.journal + 1)
    × (max_seq (text "mount:1") journaled.journal ≡ max_seq (text "mount:1") created.journal + 1)
journal_numbers_example =
    journal_numbers 9 writer op_create a_path none (some 3) [] created journaled created-Numbered
      journaled_runs

no_special : find special_path a_path linked.special_nodes ≡ none
unfolding put put_rows put_insert put_update put_journal refresh_entry alloc_inode
    lock_and_validate_chunks check_parent_exists ignore_entry split_parent_name find has_entry
    apply_chunk_ref_delta apply_delta chunk_ref_delta distinct hashes deltas insert_chunk update_key
    occurrences alloc_rev journal_if_session journal_before_write append_journal journal_row max_seq
    clear_tombstone delete_key text_dec nlink update_inode link link_rows insert_entry resolve_kind
    has_children
no_special = refl

no_symlink : find symlink_path a_path linked.symlinks ≡ none
unfolding put put_rows put_insert put_update put_journal refresh_entry alloc_inode
    lock_and_validate_chunks check_parent_exists ignore_entry split_parent_name find has_entry
    apply_chunk_ref_delta apply_delta chunk_ref_delta distinct hashes deltas insert_chunk update_key
    occurrences alloc_rev journal_if_session journal_before_write append_journal journal_row max_seq
    clear_tombstone delete_key text_dec nlink update_inode link link_rows insert_entry resolve_kind
    has_children
no_symlink = refl

delete_lem_example : Deleted 9 a_path b_path 1 linked removed
delete_lem_example =
    delete_lem 9 a_path b_path 1 writer linked removed no_special no_symlink removed_runs
