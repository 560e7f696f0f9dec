-- ===== src/Manifest/Chunks/Laws.antt =====
-- Applying the delta of two chunk lists moves each refcount by the difference of the occurrences.
use orlop.Prelude.{
  ok, find, update_key, ◌+◌, Text, false, none, some, List, [], ◌∷◌, ◌++◌, ◌≡◌, ◌≢◌, refl, inl, inr,
  eqb, eqb_iff, contains, arith, Bool-cases, Option-cases, if◌then◌else◌,
}
use orlop.Manifest.Db.{ChunkRef, ChunkRow, chunk_hash}
use orlop.Manifest.Chunks.{
  occurrences, Delta, hashes, distinct, insert_chunk, refcount, adjust, apply_delta,
}

pub contains-distinct : (hs : List Text) (h : Text) → contains (distinct hs) h ≡ contains hs h
unfolding distinct
contains-distinct [] h = refl
contains-distinct (x ∷ hs) h = ground (arith, contains-distinct hs h, contains-distinct hs x)

-- No text occurs twice.
abbrev pub Once : List Text → Type 0
Once [] = Unit {0}
Once (h ∷ hs) = (contains hs h ≡ false) × Once hs

pub distinct-Once : (hs : List Text) → Once (distinct hs)
unfolding distinct
distinct-Once [] = tt
distinct-Once (h ∷ hs) = elim (Bool-cases (contains (distinct hs) h)) [
  | inl e ↦ rw e (distinct-Once hs)
  | inr e ↦ rw e (e, distinct-Once hs)
]

pub occurrences-append :
    (h : Text) (cs ds : List ChunkRef)
    → occurrences h (cs ++ ds) ≡ occurrences h cs + occurrences h ds
unfolding occurrences
occurrences-append h [] ds = omega arith
occurrences-append h (c ∷ cs) ds = omega (arith, occurrences-append h cs ds)

pub occurrences_absent :
    (h : Text) (cs : List ChunkRef) → contains (hashes cs) h ≡ false → occurrences h cs ≡ 0
unfolding occurrences hashes
occurrences_absent h [] e = refl
occurrences_absent h (c ∷ cs) e = ground (arith, occurrences_absent h cs)

find-update :
    (h k : Text) (d : Delta) (rows : List ChunkRow)
    → find chunk_hash h (update_key chunk_hash k (adjust d) rows) ≡ (
        if eqb k h
        then (elim (find chunk_hash h rows) [ none ↦ none | some r ↦ some (adjust d r) ])
        else find chunk_hash h rows)
unfolding find update_key
find-update h k d [] = ground (arith)
find-update h k d (r ∷ rows) =
    ground (arith, find-update h k d rows, eqb_iff r.hash k, eqb_iff r.hash h, eqb_iff k h)

find-insert :
    (h k : Text) (rows : List ChunkRow) → refcount h (insert_chunk k 0 0 rows) ≡ refcount h rows
unfolding find insert_chunk
find-insert h k rows = elim (Option-cases (find chunk_hash k rows)) [
  | inl e ↦ ground (arith, e, eqb_iff k h)
  | inr (r, e) ↦ ground (arith, e)
]

insert_found :
    (k : Text) (rows : List ChunkRow) → find chunk_hash k (insert_chunk k 0 0 rows) ≢ none
unfolding find insert_chunk
insert_found k rows e = elim (Option-cases (find chunk_hash k rows)) [
  | inl f ↦ ground (arith, e, f, eqb_iff k k)
  | inr (r, f) ↦ ground (arith, e, f)
]

-- The refcount after one entry, and when the entry is refused.
pub refcount-apply_delta :
    (d : Delta) (rows rows' : List ChunkRow) (h : Text)
    → apply_delta d rows ≡ ok rows'
    → refcount h rows' + (if eqb d.hash h then d.lost else 0)
      ≡ refcount h rows + (if eqb d.hash h then d.gained else 0)
unfolding apply_delta
refcount-apply_delta d rows rows' h e = ground (
  arith,
  e,
  eqb_iff d.hash h,
  find-update h d.hash d (insert_chunk d.hash 0 0 rows),
  find-insert h d.hash rows,
  insert_found d.hash rows,
)
