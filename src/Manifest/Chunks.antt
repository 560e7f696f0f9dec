-- ===== src/Manifest/Chunks.antt =====
-- The refcounts of chunks: `chunkRefDelta`, `applyChunkRefDelta` and `NoteChunkStored` of manifests.go.
pub mod Laws
pub mod Packing
pub mod Total
use orlop.Prelude.{
  ◌>>=◌, ok, err, find, update_key, ℕ, ◌+◌, ◌-◌, Text, Bool, true, false, Option, none, some, List,
  [], ◌∷◌, ◌++◌, ltb, ◌==◌, eqb, contains, if◌then◌else◌,
}
use orlop.Manifest.Db.{ChunkRef, ChunkRow, chunk_hash, Result, constraint}

-- How often a hash occurs in a chunk list.
unfoldable pub occurrences : Text → List ChunkRef → ℕ
occurrences h [] = 0
occurrences h (c ∷ cs) = (if eqb c.hash h then 1 else 0) + occurrences h cs

-- The entry of the Go map for a hash: its count is gained - lost.
pub record Delta : Type 0 where
  pub hash : Text
  pub gained : ℕ
  pub lost : ℕ

unfoldable pub hashes : List ChunkRef → List Text
hashes [] = []
hashes (c ∷ cs) = c.hash ∷ hashes cs

unfoldable pub distinct : List Text → List Text
distinct [] = []
distinct (h ∷ hs) = let rest = distinct hs in if contains rest h then rest else h ∷ rest

unfoldable pub deltas : List ChunkRef → List ChunkRef → List Text → List Delta
deltas old new [] = []
deltas old new (h ∷ hs) =
    record { hash = h; gained = occurrences h new; lost = occurrences h old } ∷ deltas old new hs

-- One entry for each hash of either list; a range over the map meets each of them once.
unfoldable pub chunk_ref_delta : List ChunkRef → List ChunkRef → List Delta
chunk_ref_delta old new = deltas old new (distinct (hashes (new ++ old)))

-- insert into chunks(...) values(...) on conflict(hash) do nothing
unfoldable pub insert_chunk : Text → ℕ → ℕ → List ChunkRow → List ChunkRow
insert_chunk h size added_at rows = elim (find chunk_hash h rows) [
  | none ↦ record { hash = h; size = size; refcount = 0; added_at = added_at } ∷ rows
  | some r ↦ rows
]

abbrev pub refcount_of : Option ChunkRow → ℕ
refcount_of none = 0
refcount_of (some r) = r.refcount

-- The stored refcount of a hash; a hash with no row counts as 0.
abbrev pub refcount : Text → List ChunkRow → ℕ
refcount h rows = refcount_of (find chunk_hash h rows)

abbrev pub adjust : Delta → ChunkRow → ChunkRow
adjust d r = record r { refcount = r.refcount + d.gained - d.lost }

-- The column's check refuses a refcount below 0.
unfoldable pub apply_delta : Delta → List ChunkRow → Result (List ChunkRow)
apply_delta d rows =
    if d.gained == d.lost
    then ok rows
    else if ltb (refcount d.hash rows + d.gained) d.lost
    then err constraint
    else ok (update_key chunk_hash d.hash (adjust d) (insert_chunk d.hash 0 0 rows))

unfoldable pub apply_chunk_ref_delta : List Delta → List ChunkRow → Result (List ChunkRow)
apply_chunk_ref_delta [] rows = ok rows
apply_chunk_ref_delta (d ∷ ds) rows = apply_delta d rows >>= apply_chunk_ref_delta ds

-- `NoteChunkStored`
unfoldable pub note_chunk_stored : Text → ℕ → ℕ → List ChunkRow → List ChunkRow
note_chunk_stored h size added_at rows = insert_chunk h size added_at rows
