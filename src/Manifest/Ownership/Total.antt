-- ===== src/Manifest/Ownership/Total.antt =====
-- `put` is total on sound databases: nothing but its checks refuses a write.
use orlop.Prelude.{
  ok, find, ℕ, ◌≤◌, Text, Bool, false, Option, none, some, List, [], ◌≡◌, ◌≢◌, refl, inl, inr, ◌==◌,
  arith, eqb_iff, Bool-cases, subst,
}
use orlop.Manifest.Db.{ChunkRow, Manifest, ManifestRow, manifest_path, nlink, Db, succ64}
use orlop.Manifest.Chunks.{occurrences, refcount}
use orlop.Manifest.Chunks.Total.{apply_chunk_ref_delta_ok}
use orlop.Manifest.Journal.{
  Writer, alloc_rev, journal_if_session, journal_before_write, append_journal, unpaired,
}
use orlop.Manifest.Store.{
  lock_and_validate_chunks, check_parent_exists, put, put_journal, put_rows, put_insert, put_update,
  old_version, alloc_inode,
}
use orlop.Manifest.Ownership.Put.{put_journal_ok}
use orlop.Manifest.Ownership.{Sound, IsSound}
use orlop.Manifest.Ownership.Rows.{nlink-find}
use orlop.Manifest.Ownership.Changes.{Sound-covers}
use orlop.Prelude.Map.{is_empty}

-- A write of the version that is stored, or of a new file where there is none.
abbrev pub FitsVersion : Option ManifestRow → ℕ → Type 0
FitsVersion none expected = expected ≡ 0
FitsVersion (some r) expected = (r.version ≡ expected) × (expected ≢ 0)

-- A request that no check of `put` refuses.
pub record Admissible (present : Option (Text → Bool)) (p : Text) (expected : ℕ) (mf : Manifest)
    (w : Writer) (db : Db) : Type 0 where
  pub path : mf.path ≡ p
  pub paired : unpaired w ≡ false
  pub stored : lock_and_validate_chunks present mf.chunks ≡ ok tt
  pub parent : check_parent_exists p db ≡ ok tt
  pub version : FitsVersion (find manifest_path p db.manifests) expected

journal_total :
    (now : ℕ) (p : Text) (expected : ℕ) (old : Option ManifestRow) (w : Writer) (db : Db)
    → unpaired w ≡ false
    → (d : Db) × (put_journal now p expected old w db ≡ ok d)
unfolding put_journal journal_if_session journal_before_write append_journal
journal_total now p expected old w db e = elim (Bool-cases (expected == 0)) [
  | inl f ↦ elim (Bool-cases (is_empty w.session_id)) [
    | inl g ↦ rw (f, g) (_, refl)
    | inr g ↦ elim (Bool-cases (is_empty w.allocation_id)) [
      | inl h ↦ ground (arith, e, g, h)
      | inr h ↦ rw (f, g, h) (_, refl)
    ]
  ]
  | inr f ↦ elim (Bool-cases (is_empty w.session_id)) [
    | inl g ↦ rw (f, g) (_, refl)
    | inr g ↦ elim (Bool-cases (is_empty w.allocation_id)) [
      | inl h ↦ ground (arith, e, g, h)
      | inr h ↦ rw (f, g, h) (_, refl)
    ]
  ]
]

nothing_owed : (h : Text) (cs : List ChunkRow) → occurrences h [] ≤ refcount h cs
unfolding occurrences
nothing_owed h cs = omega arith

module _ (p : Text) (expected n : ℕ) (mf : Manifest) (d : Db) where
  put_rows_total :
      (old : Option ManifestRow)
      → find manifest_path p d.manifests ≡ old
      → FitsVersion old expected
      → Sound n d.manifests d.chunks
      → (d' : Db) × (put_rows p expected mf old d ≡ ok d')
  unfolding put_rows put_insert put_update
  put_rows_total none g fit v =
      let (cs, f) = apply_chunk_ref_delta_ok [] mf.chunks d.chunks (λ h. nothing_owed h d.chunks) in
      rw (f, fit, g) (_, refl)
  put_rows_total (some r) g (same, pos) v =
      let (cs, f) =
        apply_chunk_ref_delta_ok r.chunks mf.chunks d.chunks
          (Sound-covers n d.manifests d.chunks p r v g) in
      let z : (expected == 0) ≡ false = ground (arith, pos) in
      let t : (nlink r.inode_id d.manifests == 0) ≡ false =
        ground (arith, nlink-find p r d.manifests g) in
      rw (f, z, t) (_, refl)

fits_version : (o : Option ManifestRow) (e : ℕ) → FitsVersion o e → old_version o ≡ e
fits_version none e f = ground (arith, f)
fits_version (some r) e (f, _) = f

-- A write that no check refuses succeeds on a sound database: the chunk table never refuses its
-- delta, and the row is found or free.
pub put_total :
    (present : Option (Text → Bool)) (now : ℕ) (p : Text) (expected : ℕ) (mf : Manifest)
    (w : Writer) (db : Db)
    → IsSound db
    → Admissible present p expected mf w db
    → (db' : Db) × (put present now p expected mf w db ≡ ok (succ64 expected, db'))
unfolding put alloc_rev alloc_inode
put_total present now p expected mf w db sound a =
    let old : Option ManifestRow = find manifest_path p db.manifests in
    let d0 : Db = alloc_rev (alloc_inode expected db) in
    let (d, f) = journal_total now p expected old w d0 a.paired in
    let (js, j) = put_journal_ok now p expected old w d0 d f in
    let d1 : Db = record d0 { journal = js } in
    let f1 : put_journal now p expected old w d0 ≡ ok d1 =
      subst (λ x. put_journal now p expected old w d0 ≡ ok x) j f in
    let same : d1.manifests ≡ db.manifests = ground arith in
    let same' : d1.chunks ≡ db.chunks = ground arith in
    let sound1 : Sound db.next_inode d1.manifests d1.chunks = rw (same, same') sound in
    let (d2, g) =
      put_rows_total p expected db.next_inode mf d1 old (ground (arith, same)) a.version sound1 in
    (
      d2,
      ground (
        arith,
        a.path,
        eqb_iff p mf.path,
        a.paired,
        a.stored,
        a.parent,
        f1,
        g,
        fits_version old expected a.version,
      ),
    )
