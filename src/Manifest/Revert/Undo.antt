-- ===== src/Manifest/Revert/Undo.antt =====
-- A reverted write reads as before it.
use orlop.Prelude.{
  Result-cases, ok, ℕ, suc, Text, Bool, true, false, Option, none, some, List, [], ◌∷◌, ◌≡◌, ◌≢◌,
  ◌∙◌, refl, inl, inr, arith, Option-cases, Bool-cases, not, eqb_iff, subst, ◌&&◌, ◌==◌, find, ap,
}
use orlop.Prelude.Map.{is_empty}
use orlop.Manifest.Db.{
  Manifest, ManifestRow, DirRow, Db, JournalRow, op_update, succ64, manifest_path, has_entry,
}
use orlop.Manifest.Chunks.{chunk_ref_delta, apply_chunk_ref_delta}
use orlop.Manifest.Journal.{
  Writer, unpaired, journal_row, journal_if_session, journal_before_write, append_journal,
  alloc_rev,
}
use orlop.Manifest.Store.{
  get, put, put_rows, put_insert, put_update, put_journal, refresh_entry, alloc_inode, prior,
  old_version, old_chunks, lock_and_validate_chunks, check_parent_exists, ignore_entry, parent_of,
  name_of,
}
use orlop.Manifest.Store.ReadBack.{Reads, get-put}
use orlop.Manifest.Ownership.{IsSound}
use orlop.Manifest.Ownership.Put.{put_steps}
use orlop.Manifest.Ownership.Total.{FitsVersion, put_total}
use orlop.Manifest.Rename.Subtree.{Sqlite}
use orlop.Manifest.Revert.{
  current, seeded, inverse, apply_inverse, undo_update, rewrite, decode_journal_manifest,
  all_hashed, row_for_session_seq, look_up, reverted, settle, has_diverged, revert_one, delete_row,
  live_manifest_version,
}

-- The path reads the same where the files are the same.
pub Reads-eq :
    (p : Text) (m : Manifest) (n : ℕ) (d d' : Db)
    → d'.manifests ≡ d.manifests
    → Reads p m n d
    → Reads p m n d'
unfolding get
Reads-eq p m n d d' same r = record {
  found = r.found;
  reads = rw same r.reads;
  has_size = r.has_size;
  has_mode = r.has_mode;
  has_mtime = r.has_mtime;
  has_chunks = r.has_chunks;
  has_version = r.has_version;
}

module _ (sql : Sqlite) (present : Option (Text → Bool)) where
  -- What was recorded is written back, on any sound database whose checks pass.
  pub rewrite_total :
      (now : ℕ) (p : Text) (n : ℕ) (m : Manifest) (w : Writer) (db : Db)
      → IsSound db
      → all_hashed m.chunks ≡ true
      → lock_and_validate_chunks present m.chunks ≡ ok tt
      → unpaired w ≡ false
      → check_parent_exists p db ≡ ok tt
      → FitsVersion (find manifest_path p db.manifests) n
      → (d : Db) × (rewrite sql present now p n (some m) w db ≡ ok d) × Reads p m (succ64 n) d
  unfolding rewrite decode_journal_manifest
  rewrite_total now p n m w db sound hashed stored paired parent fits =
      let m' : Manifest = record m {
        path = p;
        inode_id = 0;
        nlink = 0;
        uid = 0;
        gid = 0;
        atime = 0;
      } in
      let (d, e) = put_total present now p n m' w db sound (record {
        path = refl;
        paired = paired;
        stored = stored;
        parent = parent;
        version = fits;
      }) in
      let r = (get-put present now p n m' w db (succ64 n) d e).1 in
      (
        d,
        rw (hashed, e) refl,
        record {
          found = r.found;
          reads = r.reads;
          has_size = r.has_size;
          has_mode = r.has_mode;
          has_mtime = r.has_mtime;
          has_chunks = r.has_chunks;
          has_version = r.has_version;
        },
      )

  -- A row whose inverse succeeds is reverted, and goes.
  pub revert_one-inverse :
      (now : ℕ) (allocation p session : Text) (seq : ℕ) (w : Writer) (force : Bool) (db d : Db)
      (row : JournalRow)
      → look_up allocation p session seq db.journal ≡ some row
      → (not force && has_diverged p session seq row db) ≡ false
      → inverse sql present row.op now row (seeded p row db) w db ≡ ok d
      → revert_one sql present now allocation p session seq w force db
        ≡ ok (record d { journal = delete_row row.session_id row.seq d.journal }, reverted)
  unfolding revert_one apply_inverse settle
  revert_one-inverse now allocation p session seq w force db d row found agrees undone =
      ground (arith, found, agrees, undone)

-- The row at a path is what the path reads as.
pub row-Reads :
    (p : Text) (m : Manifest) (n : ℕ) (db : Db)
    → Reads p m n db
    → (r : ManifestRow) × (find manifest_path p db.manifests ≡ some r) × (r.version ≡ n)
unfolding get
row-Reads p m n db r = elim (Option-cases (find manifest_path p db.manifests)) [
  | inl e ↦ let bad : ⊥ = ground (arith, e, r.reads) in absurd bad
  | inr (row, e) ↦ (row, e, ground (arith, e, r.reads, r.has_version))
]

pub put_rows-journal :
    (p : Text) (expected : ℕ) (mf : Manifest) (old : Option ManifestRow) (d d' : Db)
    → put_rows p expected mf old d ≡ ok d'
    → d'.journal ≡ d.journal
unfolding put_rows put_insert put_update refresh_entry
put_rows-journal p expected mf old d d' e =
    elim (Result-cases
      (apply_chunk_ref_delta (chunk_ref_delta (old_chunks old) mf.chunks) d.chunks)) [
        | inr (_, f) ↦ ground (arith, e, f)
        | inl (cs, f) ↦ ground (arith, e, f)
      ]

has_entry-ignore_entry :
    (parent name parent' name' : Text) (ds : List DirRow)
    → has_entry parent name ds ≡ true
    → has_entry parent name (ignore_entry parent' name' ds) ≡ true
unfolding has_entry ignore_entry
has_entry-ignore_entry parent name parent' name' ds e = ground (arith, e)

put_rows-parent :
    (q p : Text) (expected : ℕ) (mf : Manifest) (old : Option ManifestRow) (d d' : Db)
    → put_rows p expected mf old d ≡ ok d'
    → check_parent_exists q d ≡ ok tt
    → check_parent_exists q d' ≡ ok tt
unfolding put_rows put_insert put_update refresh_entry check_parent_exists
put_rows-parent q p expected mf old d d' e f =
    elim (Result-cases
      (apply_chunk_ref_delta (chunk_ref_delta (old_chunks old) mf.chunks) d.chunks)) [
        | inr (_, g) ↦ ground (arith, e, g)
        | inl (cs, g) ↦ ground (
          arith,
          e,
          f,
          g,
          has_entry-ignore_entry (parent_of (parent_of q)) (name_of (parent_of q)) (parent_of p)
              (name_of p) d.dir_entries,
        )
      ]

insert_refused :
    (p : Text) (mf : Manifest) (old : Option ManifestRow) (r : ManifestRow) (d d' : Db)
    → find manifest_path p d.manifests ≡ some r
    → put_rows p 0 mf old d ≢ ok d'
unfolding put_rows put_insert
insert_refused p mf old r d d' f e =
    elim (Result-cases
      (apply_chunk_ref_delta (chunk_ref_delta (old_chunks old) mf.chunks) d.chunks)) [
        | inr (_, g) ↦ ground (arith, e, g)
        | inl (cs, g) ↦ ground (arith, e, f, g)
      ]

module _ (present : Option (Text → Bool)) (now : ℕ) (p : Text) (expected : ℕ) (mf : Manifest)
    (w : Writer) (db : Db) (v : ℕ) (db' : Db)
    (e : put present now p expected mf w db ≡ ok (v, db')) where
  pub put_checked :
      (check_parent_exists p db ≡ ok tt)
      × (old_version (find manifest_path p db.manifests) ≡ expected)
      × (v ≡ succ64 expected)
  unfolding put
  put_checked = (ground (arith, e), ground (arith, e), ground (arith, e))

  -- The parent of a written path is there after the write.
  pub put-parent : check_parent_exists p db' ≡ ok tt
  unfolding alloc_rev alloc_inode check_parent_exists
  put-parent =
      let (js, t, _, _) = put_steps present now p expected mf w db v db' e in
      put_rows-parent p p expected mf (find manifest_path p db.manifests)
        (record (alloc_rev (alloc_inode expected db)) { journal = js }) db' t
        (ground (arith, put_checked.0))

  pub overwrite_expects :
      (r : ManifestRow) → find manifest_path p db.manifests ≡ some r → expected ≢ 0
  unfolding alloc_rev alloc_inode
  overwrite_expects r f z =
      let (js, t, _, _) = put_steps present now p expected mf w db v db' e in
      let d : Db = record (alloc_rev (alloc_inode expected db)) { journal = js } in
      let t0 : put_rows p 0 mf (find manifest_path p db.manifests) d ≡ ok db' =
        subst (λ k. put_rows p k mf (find manifest_path p db.manifests) d ≡ ok db') z t in
      insert_refused p mf (find manifest_path p db.manifests) r d db' (ground (arith, f)) t0

  -- The row that a journaled overwrite leaves in front.
  pub overwritten :
      (r : ManifestRow)
      → find manifest_path p db.manifests ≡ some r
      → is_empty w.session_id ≡ false
      → db'.journal
        ≡ journal_row now w op_update p (some (prior p (some r))) (some v) [] db.journal
          ∷ db.journal
  unfolding put put_journal journal_if_session journal_before_write append_journal alloc_rev
      alloc_inode
  overwritten r f g =
      let z : (expected == 0) ≡ false = ground (arith, overwrite_expects r f) in
      elim (Bool-cases (is_empty w.allocation_id)) [
        | inl a ↦ let bad : ⊥ = ground (arith, e, g, a) in absurd bad
        | inr a ↦
            let js =
              journal_row now w op_update p (some (prior p (some r))) (some v) [] db.journal
              ∷ db.journal in
            let d : Db = record (alloc_rev db) { journal = js } in
            let t : put_rows p expected mf (some r) d ≡ ok db' =
              ground (arith, e, f, g, z, a, put_checked) in
            put_rows-journal p expected mf (some r) d db' t
      ]

pub look_up_front :
    (row : JournalRow) (rows : List JournalRow) (n : ℕ)
    → is_empty row.session_id ≡ false
    → row.seq ≡ suc n
    → look_up row.allocation_id row.path row.session_id row.seq (row ∷ rows) ≡ some row
unfolding look_up row_for_session_seq
look_up_front row rows n named pos = ground (
  arith,
  named,
  pos,
  eqb_iff row.session_id row.session_id,
  eqb_iff row.allocation_id row.allocation_id,
  eqb_iff row.path row.path,
)

pub row-delete_row :
    (allocation p session : Text) (seq : ℕ) (rows : List JournalRow)
    → row_for_session_seq allocation p session seq (delete_row session seq rows) ≡ none
unfolding row_for_session_seq delete_row
row-delete_row allocation p session seq [] = refl
row-delete_row allocation p session seq (j ∷ js) =
    ground (arith, row-delete_row allocation p session seq js)

pub Reads-live :
    (p : Text) (m : Manifest) (n : ℕ) (db : Db)
    → Reads p m n db
    → live_manifest_version p db ≡ some n
unfolding live_manifest_version
Reads-live p m n db r = ground (arith, r.reads, r.has_version)

pub not_diverged :
    (p session : Text) (seq : ℕ) (row : JournalRow) (db : Db) (n : ℕ)
    → is_empty session ≡ false
    → live_manifest_version p db ≡ some n
    → row.after_version ≡ some n
    → has_diverged p session seq row db ≡ false
unfolding has_diverged
not_diverged p session seq row db n pinned live after = ground (arith, pinned, live, after)

-- The inverse of an overwrite whose version is still the live one.
pub update_undone :
    (sql : Sqlite) (present : Option (Text → Bool)) (now : ℕ) (p : Text) (row : JournalRow)
    (w : Writer) (db d : Db) (n : ℕ)
    → row.op ≡ op_update
    → row.path ≡ p
    → live_manifest_version p db ≡ some n
    → rewrite sql present now p n row.before_manifest w db ≡ ok d
    → inverse sql present row.op now row (seeded p row db) w db ≡ ok d
unfolding inverse undo_update
update_undone sql present now p row w db d n is_update at live e =
    let cur : current (seeded p row db) p ≡ some n = ground (arith, is_update, live, eqb_iff p p) in
    let op : inverse sql present row.op now row (seeded p row db) w db
        ≡ undo_update sql present now row.path (current (seeded p row db) row.path)
            row.before_manifest w db =
      ap (λ o. inverse sql present o now row (seeded p row db) w db) is_update in
    op ∙ rw at (rw cur e)
