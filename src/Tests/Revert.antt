-- ===== src/Tests/Revert.antt =====
-- Reverts at concrete writes: an overwrite, a later overwrite by another session, and a deletion.
use orlop.Prelude.{
  ok, find, delete_key, update_key, ◌+◌, Text, text, text_dec, true, false, Option, none, some, [],
  ◌∷◌, ◌≡◌, refl, arith,
}
use orlop.Paths.{split_parent_name}
use orlop.Manifest.Db.{
  ManifestRow, Db, succ64, manifest_path, special_path, symlink_path, nlink, update_inode,
  has_entry, delete_entry,
}
use orlop.Manifest.Chunks.{
  occurrences, distinct, hashes, deltas, chunk_ref_delta, insert_chunk, apply_delta,
  apply_chunk_ref_delta,
}
use orlop.Manifest.Journal.{
  Writer, max_seq, append_journal, journal_before_write, journal_if_session, journal_row, alloc_rev,
  upsert_tombstone, clear_tombstone,
}
use orlop.Manifest.Store.{
  put, put_rows, put_insert, put_update, put_journal, refresh_entry, alloc_inode, prior,
  lock_and_validate_chunks, check_parent_exists, ignore_entry,
}
use orlop.Manifest.Store.ReadBack.{Reads}
use orlop.Manifest.Links.{
  delete, delete_manifest, delete_rows, delete_special_node, delete_symlink, forget_path,
  journal_delete, release_chunks, remove_dir_entry, surviving_alias, delete_alias,
}
use orlop.Manifest.Ownership.{IsSound}
use orlop.Manifest.Ownership.Put.{put-IsSound}
use orlop.Manifest.Revert.{
  all_hashed, reverted, conflicted, concurrent_writer, revert_one, revert_paths,
}
use orlop.Manifest.Revert.Safety.{revert_paths-IsSound}
use orlop.Manifest.Revert.Conflicts.{divergence_is_noticed}
use orlop.Manifest.Revert.Deleted.{revert_undoes_delete}
use orlop.Tests.Runs.{empty_db, chunk, file, a_path, writer, second, plain, sqlite, empty-IsSound}

abbrev hash_a : Text
hash_a = text "0123456789abcdef0123456789abcdef"

abbrev hash_b : Text
hash_b = text "fedcba9876543210fedcba9876543210"

abbrev other : Writer
other = record { session_id = text "mount:2"; allocation_id = text "al"; agent_id = text "ag" }

abbrev before : Db
before = second (put none 5 a_path 0 (file a_path (chunk hash_a ∷ [])) writer empty_db)

before_runs : put none 5 a_path 0 (file a_path (chunk hash_a ∷ [])) writer empty_db ≡ ok (1, before)
unfolding put put_rows put_insert put_update put_journal refresh_entry alloc_inode
    lock_and_validate_chunks check_parent_exists ignore_entry split_parent_name find has_entry
    apply_chunk_ref_delta apply_delta chunk_ref_delta distinct hashes deltas insert_chunk update_key
    occurrences alloc_rev journal_if_session journal_before_write append_journal journal_row max_seq
    clear_tombstone delete_key text_dec
before_runs = refl

before-IsSound : IsSound before
before-IsSound =
    put-IsSound none 5 a_path 0 (file a_path (chunk hash_a ∷ [])) writer empty_db 1 before
      before_runs empty-IsSound

abbrev row_of : Option ManifestRow → ManifestRow
row_of (some r) = r
row_of none = record {
  path = [];
  inode_id = 0;
  size = 0;
  mode = 0;
  mtime = 0;
  version = 0;
  chunks = [];
  uid = 0;
  gid = 0;
  atime = 0;
  rev = 0;
}

abbrev old_row : ManifestRow
old_row = row_of (find manifest_path a_path before.manifests)

abbrev after : Db
after = second (put none 8 a_path 1 (file a_path (chunk hash_b ∷ [])) writer before)

abbrev later_still : Db
later_still = second (put none 9 a_path 2 (file a_path []) other after)

abbrev gone : Db
gone = plain (delete 8 a_path 1 writer before)

-- What is asked of the runs.
record Runs : Type 0 where
  found : find manifest_path a_path before.manifests ≡ some old_row
  overwrites : put none 8 a_path 1 (file a_path (chunk hash_b ∷ [])) writer before ≡ ok (2, after)
  goes_on : put none 9 a_path 2 (file a_path []) other after ≡ ok (3, later_still)
  single : nlink old_row.inode_id before.manifests ≡ 1
  deletes : delete 8 a_path 1 writer before ≡ ok gone
  parent : check_parent_exists a_path gone ≡ ok tt
  no_special : find special_path a_path before.special_nodes ≡ none
  no_symlink : find symlink_path a_path before.symlinks ≡ none
  stored : lock_and_validate_chunks none old_row.chunks ≡ ok tt
  hashed : all_hashed old_row.chunks ≡ true
  small : old_row.version + 2 ≡ 3

runs : Runs
unfolding put put_rows put_insert put_update put_journal refresh_entry alloc_inode
    lock_and_validate_chunks check_parent_exists ignore_entry split_parent_name find has_entry
    apply_chunk_ref_delta apply_delta chunk_ref_delta distinct hashes deltas insert_chunk update_key
    occurrences alloc_rev journal_if_session journal_before_write append_journal journal_row max_seq
    clear_tombstone delete_key text_dec nlink update_inode delete delete_manifest delete_rows
    delete_special_node delete_symlink forget_path journal_delete release_chunks remove_dir_entry
    surviving_alias delete_alias upsert_tombstone delete_entry
runs = record {
  found = refl;
  overwrites = refl;
  goes_on = refl;
  single = refl;
  deletes = refl;
  parent = refl;
  no_special = refl;
  no_symlink = refl;
  stored = refl;
  hashed = refl;
  small = refl;
}

divergence_is_noticed_example :
    (revert_one sqlite none 20
        (text "al")
        a_path
        (text "mount:1")
        (max_seq (text "mount:1") before.journal + 1)
        writer
        false
        later_still
      ≡ ok (later_still, conflicted a_path concurrent_writer))
    × ((d : Db) × (revert_one sqlite none 20
            (text "al")
            a_path
            (text "mount:1")
            (max_seq (text "mount:1") before.journal + 1)
            writer
            true
            later_still
          ≡ ok (d, reverted))
        × Reads a_path (prior a_path (some old_row)) (succ64 3) d)
divergence_is_noticed_example =
    divergence_is_noticed sqlite none 8 9 20 a_path 1 2 (file a_path (chunk hash_b ∷ []))
      (file a_path []) writer other writer before 2 after 3 later_still old_row before-IsSound
      runs.found (omega (arith, runs.small)) runs.hashed runs.stored refl refl runs.overwrites
      runs.goes_on

revert_undoes_delete_example :
    (d : Db) × (revert_one sqlite none 20
        (text "al")
        a_path
        (text "mount:1")
        (max_seq (text "mount:1") before.journal + 1)
        other
        false
        gone
      ≡ ok (d, reverted))
    × Reads a_path (prior a_path (some old_row)) 1 d
    × ((s : ManifestRow) × (find manifest_path a_path d.manifests ≡ some s)
        × (s.uid ≡ 0)
        × (s.gid ≡ 0))
revert_undoes_delete_example =
    revert_undoes_delete sqlite none 8 20 a_path 1 writer other false before gone old_row
      before-IsSound runs.found runs.single runs.no_special runs.no_symlink runs.hashed runs.stored
      refl refl runs.parent runs.deletes

revert_paths-IsSound_example :
    IsSound
      (revert_paths sqlite none
        (λ i. 20 + i)
        (text "al")
        (a_path ∷ text "/none" ∷ [])
        none
        none
        (text "mount:2")
        (text "ag")
        false
        before).db
revert_paths-IsSound_example =
    revert_paths-IsSound sqlite none (λ i. 20 + i) (text "al") (a_path ∷ text "/none" ∷ []) none
      none (text "mount:2") (text "ag") false before before-IsSound
