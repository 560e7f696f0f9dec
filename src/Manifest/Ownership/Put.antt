-- ===== src/Manifest/Ownership/Put.antt =====
-- `put` keeps the refcounts exact.
use orlop.Prelude.{
  Result-cases, ok, find, ℕ, ◌+◌, Text, Bool, Option, none, some, List, [], ◌∷◌, ◌≡◌, inl, inr,
  ◌==◌, arith, Bool-cases, subst, if◌then◌else◌,
}
use orlop.Manifest.Db.{
  ChunkRef, ChunkRow, Manifest, ManifestRow, manifest_path, update_inode, Db, succ64, JournalRow,
  op_create, op_update,
}
use orlop.Manifest.Chunks.{occurrences, refcount, chunk_ref_delta, apply_chunk_ref_delta}
use orlop.Manifest.Chunks.Total.{refcount-chunk_ref_delta}
use orlop.Manifest.Journal.{Writer, alloc_rev}
use orlop.Manifest.Store.{
  put, put_journal, prior, put_rows, put_insert, put_update, refresh_entry, rewritten, new_row,
  old_version, alloc_inode,
}
use orlop.Manifest.Peel.{journal_ok}
use orlop.Manifest.Ownership.{Sound, IsSound}
use orlop.Manifest.Ownership.Changes.{Sound-insert, Sound-rewrite, IsSound-eq}

-- The inodes that `alloc_inode` may have taken from the counter.
abbrev taken : ℕ → ℕ → ℕ
taken expected n = if expected == 0 then n + 1 else n

fresh_delta :
    (new : List ChunkRef) (cs cs' : List ChunkRow) (h : Text)
    → apply_chunk_ref_delta (chunk_ref_delta [] new) cs ≡ ok cs'
    → refcount h cs' ≡ refcount h cs + occurrences h new
unfolding occurrences
fresh_delta new cs cs' h e = omega (arith, refcount-chunk_ref_delta [] new cs cs' h e)

module _ (p : Text) (expected n : ℕ) (mf : Manifest) (d d' : Db) where
  put_rows-Sound :
      (old : Option ManifestRow)
      → find manifest_path p d.manifests ≡ old
      → put_rows p expected mf old d ≡ ok d'
      → old_version old ≡ expected
      → d.next_inode ≡ taken expected n
      → Sound n d.manifests d.chunks
      → IsSound d'
  unfolding put_rows put_insert put_update refresh_entry
  put_rows-Sound none g e ver next v =
      elim (Result-cases (apply_chunk_ref_delta (chunk_ref_delta [] mf.chunks) d.chunks)) [
        | inr (_, f) ↦ ground (arith, e, f)
        | inl (cs, f) ↦
            IsSound-eq d' (n + 1)
              (new_row p mf d.next_inode (succ64 expected) d.last_rev ∷ d.manifests) cs
              (ground (arith, e, f, g, ver, next)) (ground (arith, e, f, g, ver, next))
              (ground (arith, e, f, g, ver, next))
              (Sound-insert n d.manifests d.chunks cs
                (new_row p mf d.next_inode (succ64 expected) d.last_rev) v g
                (ground (arith, ver, next)) (λ h. fresh_delta mf.chunks d.chunks cs h f))
      ]
  put_rows-Sound (some r) g e ver next v =
      elim (Result-cases (apply_chunk_ref_delta (chunk_ref_delta r.chunks mf.chunks) d.chunks)) [
        | inr (_, f) ↦ ground (arith, e, f)
        | inl (cs, f) ↦
            IsSound-eq d' n
              (update_inode r.inode_id (rewritten (some r) mf (succ64 expected) d.last_rev)
                d.manifests)
              cs (ground (arith, e, f, g, ver, next)) (ground (arith, e, f, g, ver, next))
              (ground (arith, e, f, g, ver, next))
              (Sound-rewrite n d.manifests d.chunks cs p r mf (succ64 expected) d.last_rev v g
                (λ h. refcount-chunk_ref_delta r.chunks mf.chunks d.chunks cs h f))
      ]

-- What the journal step of `put` leaves.
pub put_journal_ok :
    (now : ℕ) (p : Text) (expected : ℕ) (old : Option ManifestRow) (w : Writer) (db d : Db)
    → put_journal now p expected old w db ≡ ok d
    → (js : List JournalRow) × (d ≡ record db { journal = js })
unfolding put_journal
put_journal_ok now p expected old w db d e = elim (Bool-cases (expected == 0)) [
  | inl f ↦
      journal_ok now w op_create p none (some (succ64 expected)) [] db d (ground (arith, e, f))
  | inr f ↦
      journal_ok now w op_update p (some (prior p old)) (some (succ64 expected)) [] db d
        (ground (arith, e, f))
]

-- What the steps of `put` did, when it succeeds.
pub put_steps :
    (present : Option (Text → Bool)) (now : ℕ) (p : Text) (expected : ℕ) (mf : Manifest)
    (w : Writer) (db : Db) (v : ℕ) (db' : Db)
    → put present now p expected mf w db ≡ ok (v, db')
    → (js : List JournalRow) × (put_rows p expected mf
          (find manifest_path p db.manifests)
          (record (alloc_rev (alloc_inode expected db)) { journal = js })
        ≡ ok db')
      × (old_version (find manifest_path p db.manifests) ≡ expected)
      × (v ≡ succ64 expected)
unfolding put
put_steps present now p expected mf w db v db' e =
    let old : Option ManifestRow = find manifest_path p db.manifests in
    elim (Result-cases (put_journal now p expected old w (alloc_rev (alloc_inode expected db)))) [
      | inr (_, f) ↦ ground (arith, e, f)
      | inl (d, f) ↦ elim (Result-cases (put_rows p expected mf old d)) [
        | inr (_, g) ↦ ground (arith, e, f, g)
        | inl (d1, g) ↦
            let (js, j) =
              put_journal_ok now p expected old w (alloc_rev (alloc_inode expected db)) d f in
            let k : put_rows p expected mf old d ≡ ok db' = ground (arith, e, f, g) in
            (
              js,
              subst (λ x. put_rows p expected mf old x ≡ ok db') j k,
              ground (arith, e, f, g),
              ground (arith, e, f, g),
            )
      ]
    ]

-- A write that succeeds on a sound database leaves a sound one: every stored refcount is still the
-- number of references that the inodes own.
pub put-IsSound :
    (present : Option (Text → Bool)) (now : ℕ) (p : Text) (expected : ℕ) (mf : Manifest)
    (w : Writer) (db : Db) (v : ℕ) (db' : Db)
    → put present now p expected mf w db ≡ ok (v, db')
    → IsSound db
    → IsSound db'
unfolding alloc_rev alloc_inode
put-IsSound present now p expected mf w db v db' e sound =
    let (js, f, ver, _) = put_steps present now p expected mf w db v db' e in
    let d : Db = record (alloc_rev (alloc_inode expected db)) { journal = js } in
    put_rows-Sound p expected db.next_inode mf d db' (find manifest_path p db.manifests)
      (ground arith) f ver (ground arith) (ground (arith, sound))
