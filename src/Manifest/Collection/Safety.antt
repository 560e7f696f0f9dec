-- ===== src/Manifest/Collection/Safety.antt =====
-- The collection takes no chunk that a file has.
use orlop.Prelude.{
  ℕ, Text, Bool, true, false, none, List, [], ◌∷◌, ◌&&◌, ◌||◌, not, ==_iff, eqb, eqb_iff, is_some,
  find, ◌≡◌, ◌⊎◌, refl, subst, ap, ◌∙◌, arith, Bool-cases, Option-cases, inl, inr,
}
use orlop.Manifest.Db.{ChunkRow, Db, chunk_hash}
use orlop.Manifest.Chunks.{refcount}
use orlop.Manifest.Ownership.{owned, IsSound}
use orlop.Manifest.Collection.{
  Candidate, delete_garbage, meets_garbage, delete_gc_batch, sweep_batch, select_gc_candidates,
}

-- The primary key of the table of chunks.
abbrev pub has_unique_hashes : List ChunkRow → Bool
has_unique_hashes [] = true
has_unique_hashes (r ∷ rs) = not (is_some (find chunk_hash r.hash rs)) && has_unique_hashes rs

abbrev pub is_among : Text → List Candidate → Bool
is_among h [] = false
is_among h (c ∷ cs) = eqb c.hash h || is_among h cs

find-delete_garbage :
    (cutoff : ℕ) (h g : Text) (rows : List ChunkRow)
    → find chunk_hash g rows ≡ none
    → find chunk_hash g (delete_garbage cutoff h rows) ≡ none
unfolding find delete_garbage
find-delete_garbage cutoff h g [] e = refl
find-delete_garbage cutoff h g (r ∷ rs) e = ground (arith, e, find-delete_garbage cutoff h g rs)

unique-delete_garbage :
    (cutoff : ℕ) (h : Text) (rows : List ChunkRow)
    → has_unique_hashes rows ≡ true
    → has_unique_hashes (delete_garbage cutoff h rows) ≡ true
unfolding delete_garbage
unique-delete_garbage cutoff h [] e = refl
unique-delete_garbage cutoff h (r ∷ rs) e = ground (
  arith,
  e,
  unique-delete_garbage cutoff h rs,
  find-delete_garbage cutoff h r.hash rs,
  Option-cases (find chunk_hash r.hash rs),
)

refcount-delete_garbage :
    (cutoff : ℕ) (h g : Text) (rows : List ChunkRow)
    → has_unique_hashes rows ≡ true
    → refcount g (delete_garbage cutoff h rows) ≡ refcount g rows
unfolding find delete_garbage
refcount-delete_garbage cutoff h g [] e = refl
refcount-delete_garbage cutoff h g (r ∷ rs) e = ground (
  arith,
  e,
  refcount-delete_garbage cutoff h g rs,
  find-delete_garbage cutoff h g rs,
  eqb_iff r.hash g,
  eqb_iff r.hash h,
  Option-cases (find chunk_hash r.hash rs),
)

meets_garbage-none :
    (cutoff : ℕ) (h : Text) (rows : List ChunkRow)
    → find chunk_hash h rows ≡ none
    → meets_garbage cutoff h rows ≡ false
unfolding find meets_garbage
meets_garbage-none cutoff h [] e = refl
meets_garbage-none cutoff h (r ∷ rs) e = ground (arith, e, meets_garbage-none cutoff h rs)

meets_garbage-refcount :
    (cutoff : ℕ) (h : Text) (rows : List ChunkRow)
    → has_unique_hashes rows ≡ true
    → meets_garbage cutoff h rows ≡ true
    → refcount h rows ≡ 0
unfolding find meets_garbage
meets_garbage-refcount cutoff h [] e f = refl
meets_garbage-refcount cutoff h (r ∷ rs) e f = elim (Bool-cases (eqb r.hash h)) [
  | inl g ↦
      let same : find chunk_hash r.hash rs ≡ find chunk_hash h rs =
        ap (λ k. find chunk_hash k rs) ((eqb_iff r.hash h).0 g) in
      ground (
        arith,
        e,
        f,
        g,
        same,
        meets_garbage-none cutoff h rs,
        Option-cases (find chunk_hash h rs),
        ==_iff r.refcount 0,
      )
  | inr g ↦ ground (arith, e, f, g, meets_garbage-refcount cutoff h rs)
]

-- A batch leaves every refcount, and what it deletes has none.
delete_gc_batch-refcount :
    (cutoff : ℕ) (g : Text) (cs : List Candidate) (rows : List ChunkRow)
    → has_unique_hashes rows ≡ true
    → (refcount g (delete_gc_batch cutoff cs rows).2 ≡ refcount g rows)
      × ((is_among g (delete_gc_batch cutoff cs rows).0 ≡ false) ⊎ (refcount g rows ≡ 0))
unfolding delete_gc_batch
delete_gc_batch-refcount cutoff g [] rows unique = (refl, inl refl)
delete_gc_batch-refcount cutoff g (c ∷ cs) rows unique =
    let left = delete_garbage cutoff c.hash rows in
    let rest =
      delete_gc_batch-refcount cutoff g cs left (unique-delete_garbage cutoff c.hash rows unique) in
    let same = refcount-delete_garbage cutoff c.hash g rows unique in
    elim (Bool-cases (meets_garbage cutoff c.hash rows)) [
      | inr e ↦ rw e (rest.0 ∙ same, ground (arith, rest.1, same))
      | inl e ↦
          let gone = meets_garbage-refcount cutoff c.hash rows unique e in
          rw e (
            rest.0 ∙ same,
            (elim (Bool-cases (eqb c.hash g)) [
              | inl f ↦ inr (subst (λ k. refcount k rows ≡ 0) ((eqb_iff c.hash g).0 f) gone)
              | inr f ↦ ground (arith, rest.1, same, f)
            ]),
          )
    ]

-- A batch of the collection on a database that is sound when the deletion meets it leaves a sound database, and a chunk
-- is in the list of no file or not deleted, whatever the other writers did since the candidates were selected.
pub sweep_batch-IsSound :
    (meanwhile : Db → Db) (cutoff batch_size : ℕ) (db : Db) (h : Text)
    → IsSound (meanwhile db)
    → has_unique_hashes (meanwhile db).chunks ≡ true
    → IsSound (sweep_batch meanwhile cutoff batch_size db).2
      × ((is_among h (sweep_batch meanwhile cutoff batch_size db).0 ≡ false)
          ⊎ (owned h (meanwhile db).manifests ≡ 0))
unfolding sweep_batch
sweep_batch-IsSound meanwhile cutoff batch_size db h sound unique =
    let cs = select_gc_candidates cutoff batch_size db.chunks in
    let rows : List ChunkRow = (meanwhile db).chunks in
    (
      record {
        unique = sound.unique;
        shared = sound.shared;
        bounded = sound.bounded;
        exact = λ g. (delete_gc_batch-refcount cutoff g cs rows unique).0 ∙ sound.exact g;
      },
      ground (arith, (delete_gc_batch-refcount cutoff h cs rows unique).1, sound.exact h),
    )
