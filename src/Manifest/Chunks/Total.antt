-- ===== src/Manifest/Chunks/Total.antt =====
-- The whole delta of two chunk lists: what it does to each refcount, and that it is not refused
-- while the refcounts cover the old list.
use orlop.Prelude.{
  Result-cases, ok, ◌+◌, ◌≤◌, Text, true, List, [], ◌∷◌, ◌++◌, ◌≡◌, refl, inl, inr, ltb, ◌==◌,
  eqb_iff, contains, arith, Bool-cases, if◌then◌else◌,
}
use orlop.Manifest.Db.{ChunkRef, ChunkRow}
use orlop.Manifest.Chunks.{
  occurrences, Delta, hashes, distinct, deltas, chunk_ref_delta, refcount, apply_delta,
  apply_chunk_ref_delta,
}
use orlop.Manifest.Chunks.Laws.{
  contains-distinct, Once, distinct-Once, occurrences-append, occurrences_absent,
  refcount-apply_delta,
}

refcount-deltas :
    (old new : List ChunkRef) (hs : List Text)
    → Once hs
    → (rows rows' : List ChunkRow) (h : Text)
    → apply_chunk_ref_delta (deltas old new hs) rows ≡ ok rows'
    → refcount h rows' + (if contains hs h then occurrences h old else 0)
      ≡ refcount h rows + (if contains hs h then occurrences h new else 0)
unfolding apply_chunk_ref_delta deltas
refcount-deltas old new [] once rows rows' h e = ground (arith, e)
refcount-deltas old new (x ∷ hs) (fresh, once) rows rows' h e =
    elim (Result-cases (
      apply_delta (record { hash = x; gained = occurrences x new; lost = occurrences x old })
        rows)) [
          | inl (mid, f) ↦ ground (
            arith,
            e,
            f,
            fresh,
            eqb_iff x h,
            refcount-deltas old new hs once mid rows' h,
            refcount-apply_delta
                (record { hash = x; gained = occurrences x new; lost = occurrences x old }) rows mid
                h,
          )
          | inr (_, f) ↦ ground (arith, e, f)
        ]

-- A delta that is applied moves the refcount of every hash by the occurrences gained and lost, and
-- of no other.
pub refcount-chunk_ref_delta :
    (old new : List ChunkRef) (rows rows' : List ChunkRow) (h : Text)
    → apply_chunk_ref_delta (chunk_ref_delta old new) rows ≡ ok rows'
    → refcount h rows' + occurrences h old ≡ refcount h rows + occurrences h new
unfolding chunk_ref_delta
refcount-chunk_ref_delta old new rows rows' h e =
    let hs : List Text = hashes (new ++ old) in
    ground (
      arith,
      contains-distinct hs h,
      occurrences-append h new old,
      occurrences_absent h (new ++ old),
      refcount-deltas old new (distinct hs) (distinct-Once hs) rows rows' h e,
    )

Covered : List ChunkRef → List Text → List ChunkRow → Type 0
Covered old hs rows = (h : Text) → contains hs h ≡ true → occurrences h old ≤ refcount h rows

apply_delta_ok :
    (old new : List ChunkRef) (x : Text) (rows : List ChunkRow)
    → occurrences x old ≤ refcount x rows
    → (rows' : List ChunkRow) × (apply_delta
          (record { hash = x; gained = occurrences x new; lost = occurrences x old })
          rows
        ≡ ok rows')
unfolding apply_delta
apply_delta_ok old new x rows le = elim (Bool-cases (occurrences x new == occurrences x old)) [
  | inl e ↦ rw e (rows, refl)
  | inr e ↦ elim (Bool-cases (ltb (refcount x rows + occurrences x new) (occurrences x old))) [
    | inl f ↦ ground (arith, f, le)
    | inr f ↦ rw (e, f) (_, refl)
  ]
]

apply_deltas_ok :
    (old new : List ChunkRef) (hs : List Text)
    → Once hs
    → (rows : List ChunkRow) → Covered old hs rows
    → (rows' : List ChunkRow) × (apply_chunk_ref_delta (deltas old new hs) rows ≡ ok rows')
unfolding apply_chunk_ref_delta deltas Covered
apply_deltas_ok old new [] once rows c = (rows, refl)
apply_deltas_ok old new (x ∷ hs) (fresh, once) rows c =
    let (mid, e) = apply_delta_ok old new x rows (c x (ground arith)) in
    let d : Delta = record { hash = x; gained = occurrences x new; lost = occurrences x old } in
    rw e (
      apply_deltas_ok old new hs once mid (λ h t. ground (
        arith,
        t,
        fresh,
        eqb_iff x h,
        refcount-apply_delta d rows mid h e,
        c h (ground (arith, t)),
      )))

-- A delta is applied, never refused by the column's check, while the stored refcounts cover the
-- occurrences in the old list.
pub apply_chunk_ref_delta_ok :
    (old new : List ChunkRef) (rows : List ChunkRow)
    → ((h : Text) → occurrences h old ≤ refcount h rows)
    → (rows' : List ChunkRow) × (apply_chunk_ref_delta (chunk_ref_delta old new) rows ≡ ok rows')
unfolding chunk_ref_delta Covered
apply_chunk_ref_delta_ok old new rows c =
    let hs : List Text = hashes (new ++ old) in
    apply_deltas_ok old new (distinct hs) (distinct-Once hs) rows (λ h t. c h)
