-- ===== src/Manifest/Revert/Deleted.antt =====
-- The revert of a deletion.
use orlop.Prelude.{
  Result-cases, ok, ℕ, ◌+◌, Text, Bool, true, false, Option, none, some, [], ◌∷◌, ◌≡◌, ◌∙◌, refl,
  inl, inr, arith, not, eqb_iff, ◌&&◌, find, ap,
}
use orlop.Prelude.Map.{is_empty}
use orlop.Manifest.Db.{
  Manifest, ManifestRow, Db, JournalRow, op_delete, manifest_path, special_path, symlink_path,
  nlink,
}
use orlop.Manifest.Chunks.{chunk_ref_delta, apply_chunk_ref_delta}
use orlop.Manifest.Journal.{
  Writer, unpaired, max_seq, journal_row, journal_if_session, journal_before_write, append_journal,
  alloc_rev,
}
use orlop.Manifest.Store.{
  get, put, put_rows, alloc_inode, prior, new_row, lock_and_validate_chunks, check_parent_exists,
}
use orlop.Manifest.Store.ReadBack.{Reads, insert_leaves}
use orlop.Manifest.Links.{
  delete, delete_manifest, delete_special_node, delete_symlink, delete_rows, forget_path,
  journal_delete, delete_alias, release_chunks,
}
use orlop.Manifest.Links.Removal.{Deleted, delete_lem}
use orlop.Manifest.Ownership.{IsSound}
use orlop.Manifest.Ownership.Put.{put_steps}
use orlop.Manifest.Ownership.Unlink.{delete-IsSound}
use orlop.Manifest.Rename.Subtree.{Sqlite}
use orlop.Manifest.Revert.{
  all_hashed, reverted, has_diverged, revert_one, delete_row, inverse, undo_delete, rewrite, seeded,
  current, live_manifest_version, decode_journal_manifest,
}
use orlop.Manifest.Revert.Undo.{revert_one-inverse, Reads-eq, rewrite_total, look_up_front}

-- The row that the journaled deletion of a last name leaves in front.
deletion-journal :
    (now : ℕ) (p : Text) (expected : ℕ) (w : Writer) (db d : Db) (r : ManifestRow)
    → find manifest_path p db.manifests ≡ some r
    → nlink r.inode_id db.manifests ≡ 1
    → is_empty w.session_id ≡ false
    → delete_manifest now p expected w db ≡ ok d
    → d.journal
      ≡ journal_row now w op_delete p (some (prior p (some r))) none [] db.journal ∷ db.journal
unfolding delete_manifest journal_delete delete_alias journal_if_session journal_before_write
    append_journal release_chunks delete_rows forget_path alloc_rev
deletion-journal now p expected w db d r found single named e =
    elim (Result-cases (apply_chunk_ref_delta (chunk_ref_delta r.chunks []) db.chunks)) [
      | inr (_, f) ↦ ground (arith, e, f, found, single, named)
      | inl (cs, f) ↦ ground (arith, e, f, found, single, named)
    ]

-- A file that is written back where there is none has no owner.
written_back-owner :
    (sql : Sqlite) (present : Option (Text → Bool)) (now : ℕ) (p : Text) (m : Manifest) (w : Writer)
    (db d : Db)
    → find manifest_path p db.manifests ≡ none
    → rewrite sql present now p 0 (some m) w db ≡ ok d
    → (s : ManifestRow) × (find manifest_path p d.manifests ≡ some s) × (s.uid ≡ 0) × (s.gid ≡ 0)
unfolding rewrite decode_journal_manifest alloc_rev alloc_inode find
written_back-owner sql present now p m w db d missing e =
    let m' : Manifest = record m {
      path = p;
      inode_id = 0;
      nlink = 0;
      uid = 0;
      gid = 0;
      atime = 0;
    } in
    elim (Result-cases (put present now p 0 m' w db)) [
      | inr (_, f) ↦ ground (arith, e, f)
      | inl ((v, d1), f) ↦
          let same : d1 ≡ d = ground (arith, e, f) in
          let (js, t, _, _) = put_steps present now p 0 m' w db v d1 f in
          let d0 : Db = record (alloc_rev (alloc_inode 0 db)) { journal = js } in
          let t' : put_rows p 0 m' none d0 ≡ ok d1 = ground (arith, t, missing) in
          let rows = insert_leaves p m' d0 d1 t' in
          (
            new_row p m' d0.next_inode 1 d0.last_rev,
            ground (arith, rows, same, eqb_iff p p),
            refl,
            refl,
          )
    ]

deletion_undone :
    (sql : Sqlite) (present : Option (Text → Bool)) (now : ℕ) (p : Text) (row : JournalRow)
    (w : Writer) (db d : Db)
    → row.op ≡ op_delete
    → row.path ≡ p
    → row.rename_from ≡ []
    → live_manifest_version p db ≡ none
    → rewrite sql present now p 0 row.before_manifest w db ≡ ok d
    → inverse sql present row.op now row (seeded p row db) w db ≡ ok d
unfolding inverse undo_delete
deletion_undone sql present now p row w db d is_delete at last live e =
    let cur : current (seeded p row db) p ≡ none = ground (arith, is_delete, live, eqb_iff p p) in
    let op : inverse sql present row.op now row (seeded p row db) w db
        ≡ undo_delete sql present now row (seeded p row db) (current (seeded p row db) row.path) w
            db =
      ap (λ o. inverse sql present o now row (seeded p row db) w db) is_delete in
    op ∙ ground (arith, at, cur, last, e)

missing-live :
    (p : Text) (db : Db)
    → find manifest_path p db.manifests ≡ none
    → live_manifest_version p db ≡ none
unfolding live_manifest_version get
missing-live p db e = ground (arith, e)

-- A deleted row: the version that a revert compares is absent, as the live one is.
absent_agrees :
    (p session : Text) (seq : ℕ) (row : JournalRow) (db : Db) (force : Bool)
    → is_empty session ≡ false
    → live_manifest_version p db ≡ none
    → row.after_version ≡ none
    → (not force && has_diverged p session seq row db) ≡ false
unfolding has_diverged
absent_agrees p session seq row db force pinned live after = ground (arith, pinned, live, after)

Deleted-missing :
    (now : ℕ) (p : Text) (expected : ℕ) (db d : Db)
    → Deleted now p p expected db d
    → find manifest_path p d.manifests ≡ none
Deleted-missing now p expected db d gone = ground (arith, gone.files, eqb_iff p p)

module _ (sql : Sqlite) (present : Option (Text → Bool)) (now later : ℕ) (p : Text) (expected : ℕ)
    (w by : Writer) (force : Bool) (db db' : Db) (r : ManifestRow) where
  -- The journaled deletion of a file's only name, on a sound database, is undone by the revert that is pinned to its
  -- row, when nothing came between, its directory is there and its chunks are still stored: the revert succeeds
  -- and the path reads as it did, at version 1, but the file belongs to user 0 and group 0 whoever owned it.
  pub revert_undoes_delete :
      IsSound db
      → find manifest_path p db.manifests ≡ some r
      → nlink r.inode_id db.manifests ≡ 1
      → find special_path p db.special_nodes ≡ none
      → find symlink_path p db.symlinks ≡ none
      → all_hashed r.chunks ≡ true
      → lock_and_validate_chunks present r.chunks ≡ ok tt
      → is_empty w.session_id ≡ false
      → unpaired by ≡ false
      → check_parent_exists p db' ≡ ok tt
      → delete now p expected w db ≡ ok db'
      → (d : Db) × (revert_one sql present later w.allocation_id p w.session_id
            (max_seq w.session_id db.journal + 1)
            by
            force
            db'
          ≡ ok (d, reverted))
        × Reads p (prior p (some r)) 1 d
        × ((s : ManifestRow) × (find manifest_path p d.manifests ≡ some s)
            × (s.uid ≡ 0)
            × (s.gid ≡ 0))
  unfolding journal_row delete delete_special_node delete_symlink
  revert_undoes_delete sound found single special link hashed stored named paired parent e =
      let rows =
        deletion-journal now p expected w db db' r found single named
          (ground (arith, e, special, link)) in
      let missing =
        Deleted-missing now p expected db db'
          (delete_lem now p p expected w db db' special link e) in
      let live = missing-live p db' missing in
      let row : JournalRow =
        journal_row now w op_delete p (some (prior p (some r))) none [] db.journal in
      let (d, undone, reads) =
        rewrite_total sql present later p 0 (prior p (some r)) by db'
          (delete-IsSound now p expected w db db' e sound) hashed stored paired parent
          (rw missing refl) in
      (
        record d { journal = delete_row row.session_id row.seq d.journal },
        revert_one-inverse sql present later w.allocation_id p w.session_id row.seq by force db' d
            row
            (rw rows
              (look_up_front row db.journal (max_seq w.session_id db.journal) named (omega arith)))
            (absent_agrees p w.session_id row.seq row db' force named live refl)
            (deletion_undone sql present later p row by db' d refl refl refl live undone),
        Reads-eq p (prior p (some r)) 1 d _ refl reads,
        written_back-owner sql present later p (prior p (some r)) by db' d missing undone,
      )
