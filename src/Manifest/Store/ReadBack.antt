-- ===== src/Manifest/Store/ReadBack.antt =====
-- What a read finds after a write, and when a write is refused.
use orlop.Prelude.{
  Result-cases, ok, err, find, ℕ, Text, Bool, false, Option, none, some, List, [], ◌∷◌, ◌≡◌, ◌≢◌,
  refl, inl, inr, arith, eqb_iff, Option-cases,
}
use orlop.Manifest.Db.{
  Manifest, ManifestRow, manifest_path, update_inode, Db, succ64, version_conflict,
}
use orlop.Manifest.Chunks.{chunk_ref_delta, apply_chunk_ref_delta}
use orlop.Manifest.Journal.{Writer, alloc_rev, unpaired}
use orlop.Manifest.Store.{
  get, put, put_rows, put_insert, put_update, refresh_entry, rewritten, new_row, old_version,
  alloc_inode, to_manifest, lock_and_validate_chunks, check_parent_exists,
}
use orlop.Manifest.Ownership.Put.{put_steps}

-- The path reads as the content of `mf`, at version `v`.
pub record Reads (q : Text) (mf : Manifest) (v : ℕ) (db : Db) : Type 0 where
  pub found : Manifest
  pub reads : get q db ≡ ok found
  pub has_size : found.size ≡ mf.size
  pub has_mode : found.mode ≡ mf.mode
  pub has_mtime : found.mtime ≡ mf.mtime
  pub has_chunks : found.chunks ≡ mf.chunks
  pub has_version : found.version ≡ v

find-updated :
    (i : ℕ) (f : ManifestRow → ManifestRow) (q : Text) (s : ManifestRow) (rows : List ManifestRow)
    → ((r : ManifestRow) → (f r).path ≡ r.path)
    → find manifest_path q rows ≡ some s
    → s.inode_id ≡ i
    → find manifest_path q (update_inode i f rows) ≡ some (f s)
unfolding find update_inode
find-updated i f q s [] keeps e n = ground (arith, e)
find-updated i f q s (r ∷ rows) keeps e n =
    ground (arith, e, n, keeps r, find-updated i f q s rows keeps)

Reads-row :
    (q : Text) (mf : Manifest) (v : ℕ) (db : Db) (r : ManifestRow)
    → find manifest_path q db.manifests ≡ some r
    → r.size ≡ mf.size
    → r.mode ≡ mf.mode
    → r.mtime ≡ mf.mtime
    → r.chunks ≡ mf.chunks
    → r.version ≡ v
    → Reads q mf v db
unfolding get
Reads-row q mf v db r e a b c d f = record {
  found = to_manifest db.manifests r;
  reads = rw (e, get) refl;
  has_size = a;
  has_mode = b;
  has_mtime = c;
  has_chunks = d;
  has_version = f;
}

-- The rows that a write leaves.
update_leaves :
    (p : Text) (expected : ℕ) (mf : Manifest) (r : ManifestRow) (d d' : Db)
    → put_rows p expected mf (some r) d ≡ ok d'
    → find manifest_path p d.manifests ≡ some r
    → d'.manifests
      ≡ update_inode r.inode_id (rewritten (some r) mf (succ64 expected) d.last_rev) d.manifests
unfolding put_rows put_insert put_update refresh_entry
update_leaves p expected mf r d d' e f =
    elim (Result-cases (apply_chunk_ref_delta (chunk_ref_delta r.chunks mf.chunks) d.chunks)) [
      | inr (_, g) ↦ ground (arith, e, g)
      | inl (cs, g) ↦ ground (arith, e, f, g)
    ]

pub insert_leaves :
    (p : Text) (mf : Manifest) (d d' : Db)
    → put_rows p 0 mf none d ≡ ok d'
    → d'.manifests ≡ new_row p mf d.next_inode 1 d.last_rev ∷ d.manifests
unfolding put_rows put_insert put_update refresh_entry
insert_leaves p mf d d' e =
    elim (Result-cases (apply_chunk_ref_delta (chunk_ref_delta [] mf.chunks) d.chunks)) [
      | inr (_, g) ↦ ground (arith, e, g)
      | inl (cs, g) ↦ ground (arith, e, g)
    ]

module _ (present : Option (Text → Bool)) (now : ℕ) (p : Text) (expected : ℕ) (mf : Manifest)
    (w : Writer) (db : Db) (v : ℕ) (db' : Db)
    (e : put present now p expected mf w db ≡ ok (v, db')) where
  -- After a write that succeeds, every name of the file that stood at the path reads as what was
  -- written, at the new version.
  pub get_alias-put :
      (q : Text) (r s : ManifestRow)
      → find manifest_path p db.manifests ≡ some r
      → find manifest_path q db.manifests ≡ some s
      → s.inode_id ≡ r.inode_id
      → Reads q mf v db'
  unfolding alloc_rev alloc_inode
  get_alias-put q r s f g i =
      let (js, t, ver, eq) = put_steps present now p expected mf w db v db' e in
      let d : Db = record (alloc_rev (alloc_inode expected db)) { journal = js } in
      let h : put_rows p expected mf (some r) d ≡ ok db' = ground (arith, t, f) in
      let k : (ManifestRow → ManifestRow) = rewritten (some r) mf (succ64 expected) d.last_rev in
      let l : d.manifests ≡ db.manifests = ground arith in
      let rows = update_leaves p expected mf r d db' h (ground (arith, f, l)) in
      Reads-row q mf v db' (k s)
        (ground (arith, rows, l, find-updated r.inode_id k q s db.manifests (λ x. refl) g i)) refl
        refl refl refl (ground (arith, eq))

  -- After a write that succeeds, the path reads as what was written, at the version that the write
  -- returned, which is one more than the version expected.
  pub get-put : (v ≡ succ64 expected) × Reads p mf v db'
  unfolding alloc_rev alloc_inode find
  get-put =
      let (js, t, ver, eq) = put_steps present now p expected mf w db v db' e in
      let d : Db = record (alloc_rev (alloc_inode expected db)) { journal = js } in
      elim (Option-cases (find manifest_path p db.manifests)) [
        | inr (r, f) ↦ (eq, get_alias-put p r r f f refl)
        | inl f ↦
            let z : expected ≡ 0 = ground (arith, ver, f) in
            let h : put_rows p 0 mf none d ≡ ok db' = ground (arith, t, f, z) in
            let rows = insert_leaves p mf d db' h in
            let one : v ≡ 1 = ground (arith, eq, z) in
            (
              eq,
              Reads-row p mf v db' (new_row p mf d.next_inode 1 d.last_rev)
                  (ground (arith, rows, eqb_iff p p)) refl refl refl refl (ground (arith, one)),
            )
      ]

-- A write that expects another version than the stored one is refused with the stored version.
pub put_stale :
    (present : Option (Text → Bool)) (now : ℕ) (p : Text) (expected : ℕ) (mf : Manifest)
    (w : Writer) (db : Db)
    → mf.path ≡ p
    → unpaired w ≡ false
    → lock_and_validate_chunks present mf.chunks ≡ ok tt
    → check_parent_exists p db ≡ ok tt
    → old_version (find manifest_path p db.manifests) ≢ expected
    → put present now p expected mf w db
      ≡ err (version_conflict (some (old_version (find manifest_path p db.manifests))))
unfolding put
put_stale present now p expected mf w db path paired stored parent ne =
    ground (arith, path, eqb_iff p mf.path, paired, stored, parent, ne)
