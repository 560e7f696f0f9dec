-- ===== src/Manifest/Store/Conflicts.antt =====
-- The version conflicts of `PutWithLeaseCheck`.
use orlop.Prelude.{
  ℕ, ◌≤◌, Text, Bool, true, false, Option, some, List, [], ◌∷◌, ◌≡◌, ◌≢◌, refl, arith, sym, ◌∙◌, ap,
  inl, inr, ok, err, find, Result-cases, Option-cases,
}
use orlop.Manifest.Db.{
  Manifest, ManifestRow, ChunkRow, Db, Error, Result, manifest_path, version_conflict, nlink,
}
use orlop.Manifest.Chunks.{Delta, apply_delta, apply_chunk_ref_delta, chunk_ref_delta}
use orlop.Manifest.Journal.{
  Writer, alloc_rev, journal_if_session, journal_before_write, append_journal, validate_session,
}
use orlop.Manifest.Store.{
  put, put_with_lease_check, put_journal, put_rows, put_insert, put_update, alloc_inode,
  old_version, old_chunks, lock_and_validate_chunks, check_parent_exists,
}
use orlop.Manifest.Ownership.Rows.{nlink-find}

-- An error that says that the version is another.
abbrev pub is_conflict : Error → Bool
is_conflict (version_conflict v) = true
is_conflict _ = false

Calm : {T : Type 0} → Result T → Type 0
Calm {T} r = (e : Error) → r ≡ err e → is_conflict e ≡ false

apply_chunk_ref_delta-Calm :
    (ds : List Delta) (rows : List ChunkRow) (e : Error)
    → apply_chunk_ref_delta ds rows ≡ err e
    → is_conflict e ≡ false
unfolding apply_chunk_ref_delta apply_delta
apply_chunk_ref_delta-Calm [] rows e t = ground (arith, t)
apply_chunk_ref_delta-Calm (d ∷ ds) rows e t = elim (Result-cases (apply_delta d rows)) [
  | inl (rows', f) ↦ apply_chunk_ref_delta-Calm ds rows' e (ground (arith, t, f))
  | inr (x, f) ↦ ground (arith, t, f)
]

put_journal-Calm :
    (now : ℕ) (p : Text) (expected : ℕ) (old : Option ManifestRow) (w : Writer) (db : Db)
    (e : Error)
    → put_journal now p expected old w db ≡ err e
    → is_conflict e ≡ false
unfolding put_journal journal_if_session journal_before_write append_journal
put_journal-Calm now p expected old w db e t = ground (arith, t)

put_journal-manifests :
    (now : ℕ) (p : Text) (expected : ℕ) (old : Option ManifestRow) (w : Writer) (db d : Db)
    → put_journal now p expected old w db ≡ ok d
    → d.manifests ≡ db.manifests
unfolding put_journal journal_if_session journal_before_write append_journal
put_journal-manifests now p expected old w db d t = ground (arith, t)

-- The rows of a file that is there are rewritten, or an error of the refcounts comes.
put_rows-Calm :
    (p : Text) (expected : ℕ) (mf : Manifest) (r : ManifestRow) (db : Db) (e : Error)
    → find manifest_path p db.manifests ≡ some r
    → expected ≢ 0
    → put_rows p expected mf (some r) db ≡ err e
    → is_conflict e ≡ false
unfolding put_rows put_update
put_rows-Calm p expected mf r db e found pos t =
    let some_name : 1 ≤ nlink r.inode_id db.manifests = nlink-find p r db.manifests found in
    elim (Result-cases (apply_chunk_ref_delta (chunk_ref_delta r.chunks mf.chunks) db.chunks)) [
      | inl (cs, f) ↦ ground (arith, t, f, pos, some_name)
      | inr (x, f) ↦
          let calm =
            apply_chunk_ref_delta-Calm (chunk_ref_delta r.chunks mf.chunks) db.chunks x f in
          ground (arith, t, f, calm)
    ]

-- An error that names the stored version.
abbrev names_version : Error → Bool
names_version (version_conflict (some v)) = true
names_version _ = false

unnamed : (e : Error) → is_conflict e ≡ false → names_version e ≡ false
unnamed (version_conflict v) c = ground (arith, c)
unnamed _ c = refl

put_rows-unnamed :
    (p : Text) (expected : ℕ) (mf : Manifest) (old : Option ManifestRow) (db : Db) (e : Error)
    → put_rows p expected mf old db ≡ err e
    → names_version e ≡ false
unfolding put_rows put_update put_insert
put_rows-unnamed p expected mf old db e t =
    elim (Result-cases
      (apply_chunk_ref_delta (chunk_ref_delta (old_chunks old) mf.chunks) db.chunks)) [
        | inl (cs, f) ↦ ground (arith, t, f)
        | inr (x, f) ↦
            let calm = unnamed x (
              apply_chunk_ref_delta-Calm (chunk_ref_delta (old_chunks old) mf.chunks) db.chunks x
                f) in
            ground (arith, t, f, calm)
      ]

module _ (present : Option (Text → Bool)) (now : ℕ) (p : Text) (expected : ℕ) (mf : Manifest)
    (w : Writer) (hex : Text) (db : Db) where
  abbrev old : Option ManifestRow
  old = find manifest_path p db.manifests

  -- The version that a refused put names is the stored one.
  pub put-named :
      (v : ℕ)
      → put_with_lease_check present now p expected mf w hex db ≡ err (version_conflict (some v))
      → old_version old ≡ v
  unfolding put_with_lease_check put validate_session lock_and_validate_chunks check_parent_exists
  put-named v t =
      let begun : Db = alloc_rev (alloc_inode expected db) in
      elim (Result-cases (put_journal now p expected old w begun)) [
        | inr (x, f) ↦
            let calm = put_journal-Calm now p expected old w begun x f in ground (arith, t, f, calm)
        | inl (d, f) ↦ elim (Result-cases (put_rows p expected mf old d)) [
          | inl (d', g) ↦ ground (arith, t, f, g)
          | inr (x, g) ↦
              let calm = put_rows-unnamed p expected mf old d x g in ground (arith, t, f, g, calm)
        ]
      ]

  begun-manifests : (alloc_rev (alloc_inode expected db)).manifests ≡ db.manifests
  unfolding alloc_rev alloc_inode
  begun-manifests = ground arith

  -- A put that expects the stored version of a file that is there meets no conflict.
  pub put-Calm :
      (e : Error)
      → old_version old ≡ expected
      → expected ≢ 0
      → put_with_lease_check present now p expected mf w hex db ≡ err e
      → is_conflict e ≡ false
  unfolding put_with_lease_check put validate_session lock_and_validate_chunks check_parent_exists
  put-Calm e same pos t =
      let begun : Db = alloc_rev (alloc_inode expected db) in
      elim (Option-cases old) [
        | inl f ↦ ground (arith, same, pos, f)
        | inr (r, found) ↦ elim (Result-cases (put_journal now p expected old w begun)) [
          | inr (x, f) ↦
              let calm = put_journal-Calm now p expected old w begun x f in
              ground (arith, t, f, calm, same)
          | inl (d, f) ↦
              let rows = put_journal-manifests now p expected old w begun d f in
              elim (Result-cases (put_rows p expected mf old d)) [
                | inl (d', g) ↦ ground (arith, t, f, g, same)
                | inr (x, g) ↦
                    let calm =
                      put_rows-Calm p expected mf r d x
                        (ap (find manifest_path p) (rows ∙ begun-manifests) ∙ found) pos
                        (ap (λ o. put_rows p expected mf o d) (sym found) ∙ g) in
                    ground (arith, t, f, g, calm, same)
              ]
        ]
      ]
