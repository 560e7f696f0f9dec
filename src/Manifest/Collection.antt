-- ===== src/Manifest/Collection.antt =====
-- The garbage collection of chunks: selectGCCandidates and deleteGCBatch of gc.go, and one round of sweepTenant over them.
-- The files of the deleted chunks, the locks on them and the time budget are not modelled.
pub mod Safety
use orlop.Prelude.{
  ℕ, ◌+◌, Text, Bool, true, false, List, [], ◌∷◌, take, ◌&&◌, ◌||◌, not, ltb, ◌==◌, eqb,
  if◌then◌else◌,
}
use orlop.Manifest.Db.{ChunkRow, Db}

pub record Candidate : Type 0 where
  pub hash : Text
  pub size : ℕ

-- refcount = 0 and added_at < ?
abbrev pub is_garbage : ℕ → ChunkRow → Bool
is_garbage cutoff r = r.refcount == 0 && ltb r.added_at cutoff

unfoldable pub insert_by_age : ChunkRow → List ChunkRow → List ChunkRow
insert_by_age r [] = r ∷ []
insert_by_age r (s ∷ ss) =
    let rest = insert_by_age r ss in if ltb s.added_at r.added_at then s ∷ rest else r ∷ s ∷ ss

unfoldable pub garbage_by_age : ℕ → List ChunkRow → List ChunkRow
garbage_by_age cutoff [] = []
garbage_by_age cutoff (r ∷ rs) =
    let rest = garbage_by_age cutoff rs in
    if is_garbage cutoff r then insert_by_age r rest else rest

abbrev candidates_of : List ChunkRow → List Candidate
candidates_of [] = []
candidates_of (r ∷ rs) = record { hash = r.hash; size = r.size } ∷ candidates_of rs

unfoldable pub select_gc_candidates : ℕ → ℕ → List ChunkRow → List Candidate
select_gc_candidates cutoff limit rows = candidates_of (take limit (garbage_by_age cutoff rows))

-- delete from chunks where hash = ? and refcount = 0 and added_at < ?
unfoldable pub delete_garbage : ℕ → Text → List ChunkRow → List ChunkRow
delete_garbage cutoff h [] = []
delete_garbage cutoff h (r ∷ rs) =
    let rest = delete_garbage cutoff h rs in
    if eqb r.hash h && is_garbage cutoff r then rest else r ∷ rest

-- Whether the statement meets a row.
unfoldable pub meets_garbage : ℕ → Text → List ChunkRow → Bool
meets_garbage cutoff h [] = false
meets_garbage cutoff h (r ∷ rs) = (eqb r.hash h && is_garbage cutoff r) || meets_garbage cutoff h rs

-- The candidates whose rows were deleted, the bytes freed, and the rows left.
unfoldable pub delete_gc_batch :
    ℕ → List Candidate → List ChunkRow → List Candidate × ℕ × List ChunkRow
delete_gc_batch cutoff [] rows = ([], 0, rows)
delete_gc_batch cutoff (c ∷ cs) rows =
    let rest = delete_gc_batch cutoff cs (delete_garbage cutoff c.hash rows) in
    if meets_garbage cutoff c.hash rows then (c ∷ rest.0, c.size + rest.1, rest.2) else rest

-- A batch: the candidates are those of `db`, and the deletion meets the database that it has become.
unfoldable pub sweep_batch : (Db → Db) → ℕ → ℕ → Db → List Candidate × ℕ × Db
sweep_batch meanwhile cutoff batch_size db =
    let db' : Db = meanwhile db in
    let done =
      delete_gc_batch cutoff (select_gc_candidates cutoff batch_size db.chunks) db'.chunks in
    (done.0, done.1, record db' { chunks = done.2 })
