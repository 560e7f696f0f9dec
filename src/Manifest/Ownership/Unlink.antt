-- ===== src/Manifest/Ownership/Unlink.antt =====
-- `link` and `delete` keep the refcounts exact.
use orlop.Prelude.{
  Result-cases, ok, find, delete_key, ℕ, ◌+◌, Text, none, some, List, [], ◌∷◌, ◌≡◌, refl, inl, inr,
  ◌==◌, arith, ◌||◌, ltb, Bool-cases, Option-cases, subst, is_some, if◌then◌else◌,
}
use orlop.Manifest.Db.{
  ChunkRow, ManifestRow, manifest_path, special_path, symlink_path, nlink, update_inode, Db,
  JournalRow, op_create, op_delete,
}
use orlop.Manifest.Chunks.{occurrences, refcount, chunk_ref_delta, apply_chunk_ref_delta}
use orlop.Manifest.Chunks.Total.{refcount-chunk_ref_delta}
use orlop.Manifest.Journal.{Writer, alloc_rev, journal_if_session}
use orlop.Manifest.Links.{
  link, link_rows, insert_entry, stamp, delete_rows, release_chunks, delete_manifest, delete,
  journal_delete, delete_alias, forget_path, delete_special_node, delete_symlink,
}
use orlop.Manifest.Store.{prior}
use orlop.Prelude.Map.{is_empty}
use orlop.Manifest.Peel.{journal_ok}
use orlop.Manifest.Ownership.{Sound, IsSound}
use orlop.Manifest.Ownership.Changes.{Sound-alias, Sound-update, Sound-delete, IsSound-eq}

pub Sound-stamp :
    (i rev n : ℕ) (rows : List ManifestRow) (cs : List ChunkRow)
    → Sound n rows cs
    → Sound n (update_inode i (stamp rev) rows) cs
Sound-stamp i rev n rows cs v =
    Sound-update i (stamp rev) (λ r. refl) (λ r. refl) (λ r. refl) (λ r s e. e) n rows cs v

-- The chunks that go with the last name.
release_delta :
    (r : ManifestRow) (d d' : Db) (h : Text)
    → release_chunks r d ≡ ok d'
    → refcount h d'.chunks
        + (if nlink r.inode_id d.manifests == 1 then occurrences h r.chunks else 0)
      ≡ refcount h d.chunks
unfolding release_chunks occurrences
release_delta r d d' h e =
    elim (Result-cases (apply_chunk_ref_delta (chunk_ref_delta r.chunks []) d.chunks)) [
      | inr (_, f) ↦ ground (arith, e, f)
      | inl (cs, f) ↦ ground (arith, e, f, refcount-chunk_ref_delta r.chunks [] d.chunks cs h f)
    ]

pub release_rows :
    (r : ManifestRow) (d d' : Db)
    → release_chunks r d ≡ ok d'
    → d' ≡ record d { chunks = d'.chunks }
unfolding release_chunks
release_rows r d d' e =
    elim (Result-cases (apply_chunk_ref_delta (chunk_ref_delta r.chunks []) d.chunks)) [
      | inr (_, f) ↦ ground (arith, e, f)
      | inl (cs, f) ↦ ground (arith, e, f)
    ]

-- The rows that the removal of a name leaves.
abbrev pub unlinked : Text → ℕ → ManifestRow → List ManifestRow → List ManifestRow
unlinked p rev r rows =
    if ltb 1 (nlink r.inode_id rows)
    then update_inode r.inode_id (stamp rev) (delete_key manifest_path p rows)
    else delete_key manifest_path p rows

pub Sound-unlinked :
    (p : Text) (rev : ℕ) (r : ManifestRow) (d d' : Db)
    → IsSound d
    → find manifest_path p d.manifests ≡ some r
    → release_chunks r d ≡ ok d'
    → Sound d.next_inode (unlinked p rev r d.manifests) d'.chunks
Sound-unlinked p rev r d d' v e f =
    let s : Sound d.next_inode (delete_key manifest_path p d.manifests) d'.chunks =
      Sound-delete d.next_inode d.manifests d.chunks d'.chunks p r v e
        (λ h. release_delta r d d' h f) in
    elim (Bool-cases (ltb 1 (nlink r.inode_id d.manifests))) [
      | inl t ↦ rw t (
          Sound-stamp r.inode_id rev d.next_inode (delete_key manifest_path p d.manifests) d'.chunks
            s)
      | inr t ↦ rw t s
    ]

pub journal_delete_ok :
    (now : ℕ) (w : Writer) (p : Text) (r : ManifestRow) (db d : Db)
    → journal_delete now w p r db ≡ ok d
    → (js : List JournalRow) × (d ≡ record db { journal = js })
unfolding journal_delete
journal_delete_ok now w p r db d e = elim (Bool-cases (is_empty w.session_id)) [
  | inl f ↦ (db.journal, ground (arith, e, f))
  | inr f ↦ elim (Result-cases (delete_alias r p db.manifests)) [
    | inr (_, g) ↦ ground (arith, e, f, g)
    | inl (from, g) ↦
        journal_ok now w op_delete p (some (prior p (some r))) none from db d
          (ground (arith, e, f, g))
  ]
]

delete_manifest-IsSound :
    (now : ℕ) (p : Text) (expected : ℕ) (w : Writer) (db db' : Db)
    → delete_manifest now p expected w db ≡ ok db'
    → IsSound db
    → IsSound db'
unfolding delete_manifest delete_rows forget_path alloc_rev
delete_manifest-IsSound now p expected w db db' e v =
    elim (Option-cases (find manifest_path p db.manifests)) [
      | inl f ↦ ground (arith, e, f)
      | inr (r, f) ↦ elim (Result-cases (journal_delete now w p r db)) [
        | inr (_, g) ↦ ground (arith, e, f, g)
        | inl (d, g) ↦ elim (Result-cases (release_chunks r d)) [
          | inr (_, k) ↦ ground (arith, e, f, g, k)
          | inl (d1, k) ↦
              let (js, j) = journal_delete_ok now w p r db d g in
              let t : d1 ≡ record d { chunks = d1.chunks } = release_rows r d d1 k in
              IsSound-eq db' db.next_inode (unlinked p (db.last_rev + 1) r db.manifests) d1.chunks
                (ground (arith, e, f, g, k, j, t)) (ground (arith, e, f, g, k, j, t))
                (ground (arith, e, f, g, k, j, t))
                (Sound-unlinked p (db.last_rev + 1) r (record db { journal = js }) d1 v f
                  (subst (λ x. release_chunks r x ≡ ok d1) j k))
        ]
      ]
    ]

-- A deletion that succeeds on a sound database leaves a sound one, whatever node stood at the path:
-- the chunks of a file go with its last name and no earlier.
pub delete-IsSound :
    (now : ℕ) (p : Text) (expected : ℕ) (w : Writer) (db db' : Db)
    → delete now p expected w db ≡ ok db'
    → IsSound db
    → IsSound db'
unfolding delete delete_special_node delete_symlink forget_path alloc_rev
delete-IsSound now p expected w db db' e v =
    elim (Result-cases (delete_manifest now p expected w db)) [
      | inl (d, f) ↦
          elim (Bool-cases (
            is_some (find special_path p db.special_nodes)
            || is_some (find symlink_path p db.symlinks))) [
              | inl t ↦
                  IsSound-eq db' db.next_inode db.manifests db.chunks (ground (arith, e, f, t))
                    (ground (arith, e, f, t)) (ground (arith, e, f, t)) v
              | inr t ↦ delete_manifest-IsSound now p expected w db db' (ground (arith, e, f, t)) v
            ]
      | inr (_, f) ↦
          IsSound-eq db' db.next_inode db.manifests db.chunks (ground (arith, e, f))
            (ground (arith, e, f)) (ground (arith, e, f)) v
    ]

-- The rows that a new name of an inode leaves.
abbrev linked : Text → ℕ → ManifestRow → List ManifestRow → List ManifestRow
linked to rev r rows =
    update_inode r.inode_id (stamp rev) (record r { path = to; rev = rev } ∷ rows)

link_rows_ok :
    (to : Text) (r : ManifestRow) (db d : Db)
    → link_rows to r db ≡ ok d
    → (find manifest_path to db.manifests ≡ none)
      × (d.manifests ≡ linked to db.last_rev r db.manifests)
      × (d.chunks ≡ db.chunks)
      × (d.next_inode ≡ db.next_inode)
unfolding link_rows insert_entry
link_rows_ok to r db d e =
    (ground (arith, e), ground (arith, e), ground (arith, e), ground (arith, e))

-- A link that succeeds on a sound database leaves a sound one: the further name owns no chunks.
pub link-IsSound :
    (now : ℕ) (from to : Text) (w : Writer) (db : Db) (n : ℕ) (db' : Db)
    → link now from to w db ≡ ok (n, db')
    → IsSound db
    → IsSound db'
unfolding link alloc_rev
link-IsSound now from to w db n db' e v =
    elim (Option-cases (find manifest_path from db.manifests)) [
      | inl f ↦ ground (arith, e, f)
      | inr (r, f) ↦ elim (Result-cases (link_rows to r (alloc_rev db))) [
        | inr (_, g) ↦ ground (arith, e, f, g)
        | inl (d, g) ↦
            elim (Result-cases (journal_if_session now w op_create to none (some r.version) [] d)) [
              | inr (_, k) ↦ ground (arith, e, f, g, k)
              | inl (d1, k) ↦
                  let (js, j) = journal_ok now w op_create to none (some r.version) [] d d1 k in
                  let (absent, ms, cs, next) = link_rows_ok to r (alloc_rev db) d g in
                  IsSound-eq db' db.next_inode (linked to (db.last_rev + 1) r db.manifests)
                    db.chunks (ground (arith, e, f, g, k, j, next))
                    (ground (arith, e, f, g, k, j, ms)) (ground (arith, e, f, g, k, j, cs))
                    (Sound-stamp r.inode_id (db.last_rev + 1) db.next_inode _ db.chunks (
                      Sound-alias db.next_inode db.manifests db.chunks from r
                        (record r { path = to; rev = db.last_rev + 1 }) v f absent refl refl refl))
            ]
      ]
    ]
