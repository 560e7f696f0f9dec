-- ===== src/Manifest/Revert/Conflicts.antt =====
-- A revert after somebody else's write: refused, or by force.
use orlop.Prelude.{
  Result-cases, ok, ℕ, suc, ◌+◌, ◌^◌, ◌<◌, ◌≤◌, Text, Bool, true, false, Option, none, some, List,
  [], ◌∷◌, ◌≡◌, ◌≢◌, ◌∙◌, ◌⊎◌, refl, sym, inl, inr, arith, Bool-cases, eqb, eqb_iff, subst, ◌==◌,
  find, ap,
}
use orlop.Prelude.Map.{is_empty}
use orlop.Manifest.Db.{
  Manifest, ManifestRow, Db, JournalRow, op_create, op_update, succ64, manifest_path,
}
use orlop.Manifest.Journal.{
  Writer, unpaired, max_seq, journal_row, journal_if_session, journal_before_write, append_journal,
  alloc_rev,
}
use orlop.Manifest.Store.{put, put_rows, put_journal, alloc_inode, prior, lock_and_validate_chunks}
use orlop.Manifest.Store.ReadBack.{Reads, get-put}
use orlop.Manifest.Ownership.{IsSound}
use orlop.Manifest.Ownership.Put.{put-IsSound}
use orlop.Manifest.Rename.Subtree.{Sqlite}
use orlop.Manifest.Revert.{
  all_hashed, row_for_session_seq, look_up, reverted, conflicted, concurrent_writer, has_diverged,
  revert_one, delete_row, live_manifest_version,
}
use orlop.Manifest.Revert.Undo.{
  revert_one-inverse, Reads-eq, rewrite_total, row-Reads, Reads-live, put_rows-journal, put_checked,
  put-parent, overwritten, look_up_front, update_undone,
}

-- A write adds one row to the journal at most, under the next number of its session.
abbrev Extends : List JournalRow → List JournalRow → Type 0
Extends js js' =
    (js' ≡ js) ⊎ ((j : JournalRow) × (j.seq ≡ max_seq j.session_id js + 1) × (js' ≡ j ∷ js))

journaled :
    (now : ℕ) (p : Text) (expected : ℕ) (old : Option ManifestRow) (w : Writer) (d d1 : Db)
    → put_journal now p expected old w d ≡ ok d1
    → Extends d.journal d1.journal
unfolding put_journal journal_if_session journal_before_write append_journal journal_row
journaled now p expected old w d d1 e = elim (Bool-cases (is_empty w.session_id)) [
  | inl f ↦ inl (ground (arith, e, f))
  | inr f ↦ elim (Bool-cases (expected == 0)) [
    | inl g ↦ inr (
      journal_row now w op_create p none (some (succ64 expected)) [] d.journal,
      refl,
      ground (arith, e, f, g),
    )
    | inr g ↦ inr (
      journal_row now w op_update p (some (prior p old)) (some (succ64 expected)) [] d.journal,
      refl,
      ground (arith, e, f, g),
    )
  ]
]

put-Extends :
    (present : Option (Text → Bool)) (now : ℕ) (p : Text) (expected : ℕ) (mf : Manifest)
    (w : Writer) (db : Db) (v : ℕ) (db' : Db)
    → put present now p expected mf w db ≡ ok (v, db')
    → Extends db.journal db'.journal
unfolding put alloc_rev alloc_inode
put-Extends present now p expected mf w db v db' e =
    let old : Option ManifestRow = find manifest_path p db.manifests in
    let d0 : Db = alloc_rev (alloc_inode expected db) in
    let same : d0.journal ≡ db.journal = ground arith in
    elim (Result-cases (put_journal now p expected old w d0)) [
      | inr (_, f) ↦ ground (arith, e, f)
      | inl (d, f) ↦
          let g : put_rows p expected mf old d ≡ ok db' = ground (arith, e, f) in
          rw (put_rows-journal p expected mf old d db' g)
            (subst (λ js. Extends js d.journal) same (journaled now p expected old w d0 d f))
    ]

row-le-max_seq :
    (a p s : Text) (n : ℕ) (js : List JournalRow) (row : JournalRow)
    → row_for_session_seq a p s n js ≡ some row
    → n ≤ max_seq s js
unfolding row_for_session_seq max_seq
row-le-max_seq a p s n [] row e = ground (arith, e)
row-le-max_seq a p s n (j ∷ js) row e = ground (arith, e, row-le-max_seq a p s n js row)

row-behind :
    (a p s : Text) (n : ℕ) (j : JournalRow) (js : List JournalRow) (row : JournalRow)
    → j.seq ≡ max_seq j.session_id js + 1
    → row_for_session_seq a p s n js ≡ some row
    → row_for_session_seq a p s n (j ∷ js) ≡ some row
unfolding row_for_session_seq
row-behind a p s n j js row next e = elim (Bool-cases (eqb j.session_id s)) [
  | inr f ↦ ground (arith, e, f)
  | inl f ↦
      let same : max_seq j.session_id js ≡ max_seq s js =
        ap (λ t. max_seq t js) ((eqb_iff j.session_id s).0 f) in
      ground (arith, e, next, same, row-le-max_seq a p s n js row e)
]

look_up_pinned :
    (a p s : Text) (n : ℕ) (js : List JournalRow)
    → is_empty s ≡ false
    → look_up a p s (suc n) js ≡ row_for_session_seq a p s (suc n) js
unfolding look_up
look_up_pinned a p s n js named = ground (arith, named)

-- A pinned row is found after a write too.
still_found :
    (a p s : Text) (n : ℕ) (js js' : List JournalRow) (row : JournalRow)
    → Extends js js'
    → look_up a p s (suc n) js ≡ some row
    → is_empty s ≡ false
    → look_up a p s (suc n) js' ≡ some row
still_found a p s n js js' row (inl same) e named = rw same e
still_found a p s n js js' row (inr (j, next, eq)) e named = rw eq (
    look_up_pinned a p s n (j ∷ js) named
    ∙ row-behind a p s (suc n) j js row next (sym (look_up_pinned a p s n js named) ∙ e))

diverged :
    (p session : Text) (seq : ℕ) (row : JournalRow) (db : Db) (n m : ℕ)
    → live_manifest_version p db ≡ some m
    → row.after_version ≡ some n
    → n ≢ m
    → has_diverged p session seq row db ≡ true
unfolding has_diverged
diverged p session seq row db n m live after ne = ground (arith, live, after, ne)

refused :
    (sql : Sqlite) (present : Option (Text → Bool)) (now : ℕ) (allocation p session : Text)
    (seq : ℕ) (w : Writer) (db : Db) (row : JournalRow)
    → look_up allocation p session seq db.journal ≡ some row
    → has_diverged p session seq row db ≡ true
    → revert_one sql present now allocation p session seq w false db
      ≡ ok (db, conflicted p concurrent_writer)
unfolding revert_one
refused sql present now allocation p session seq w db row found differs =
    ground (arith, found, differs)

module _ (sql : Sqlite) (present : Option (Text → Bool)) (now after later : ℕ) (p : Text)
    (expected expected' : ℕ) (mf mf' : Manifest) (w w' by : Writer) (db : Db) (v : ℕ) (db1 : Db)
    (v' : ℕ) (db2 : Db) (r : ManifestRow) where
  -- A journaled write over a file of a sound database, and a later write of whomever to the same path: the revert that
  -- is pinned to the first write's row is refused as a concurrent writer's and changes nothing; by force it brings
  -- back the content before the first write, at the version after the later one, when the chunks of that content
  -- are still stored.
  pub divergence_is_noticed :
      IsSound db
      → find manifest_path p db.manifests ≡ some r
      → r.version + 2 < 2 ^ 64
      → all_hashed r.chunks ≡ true
      → lock_and_validate_chunks present r.chunks ≡ ok tt
      → is_empty w.session_id ≡ false
      → unpaired by ≡ false
      → put present now p expected mf w db ≡ ok (v, db1)
      → put present after p expected' mf' w' db1 ≡ ok (v', db2)
      → (revert_one sql present later w.allocation_id p w.session_id
            (max_seq w.session_id db.journal + 1)
            by
            false
            db2
          ≡ ok (db2, conflicted p concurrent_writer))
        × ((d : Db) × (revert_one sql present later w.allocation_id p w.session_id
                (max_seq w.session_id db.journal + 1)
                by
                true
                db2
              ≡ ok (d, reverted))
            × Reads p (prior p (some r)) (succ64 v') d)
  unfolding journal_row
  divergence_is_noticed sound found small hashed stored named paired e f =
      let (_, old, ver) = put_checked present now p expected mf w db v db1 e in
      let first : v ≡ r.version + 1 = ground (arith, old, ver, found, small) in
      let reads1 = (get-put present now p expected mf w db v db1 e).1 in
      let (r1, found1, version1) = row-Reads p mf v db1 reads1 in
      let (_, old', ver') = put_checked present after p expected' mf' w' db1 v' db2 f in
      let second : v' ≡ r.version + 2 =
        ground (arith, old', ver', found1, version1, first, small) in
      let reads2 = (get-put present after p expected' mf' w' db1 v' db2 f).1 in
      let (r2, found2, version2) = row-Reads p mf' v' db2 reads2 in
      let live = Reads-live p mf' v' db2 reads2 in
      let rows = overwritten present now p expected mf w db v db1 e r found named in
      let row : JournalRow =
        journal_row now w op_update p (some (prior p (some r))) (some v) [] db.journal in
      let n : ℕ = max_seq w.session_id db.journal in
      let seq : n + 1 ≡ suc n = omega arith in
      let here : look_up w.allocation_id p w.session_id (n + 1) db2.journal ≡ some row =
        subst (λ k. look_up w.allocation_id p w.session_id k db2.journal ≡ some row) (sym seq)
          (still_found w.allocation_id p w.session_id n db1.journal db2.journal row
            (put-Extends present after p expected' mf' w' db1 v' db2 f)
            (subst (λ k. look_up w.allocation_id p w.session_id k db1.journal ≡ some row) seq
              (rw rows (look_up_front row db.journal n named seq)))
            named) in
      let sound1 = put-IsSound present now p expected mf w db v db1 e sound in
      let (d, undone, reads) =
        rewrite_total sql present later p v' (prior p (some r)) by db2
          (put-IsSound present after p expected' mf' w' db1 v' db2 f sound1) hashed stored paired
          (put-parent present after p expected' mf' w' db1 v' db2 f)
          (rw found2 (version2, λ z. ground (arith, z, second))) in
      (
        refused sql present later w.allocation_id p w.session_id (n + 1) by db2 row here
            (diverged p w.session_id (n + 1) row db2 v v' live refl (omega (arith, first, second))),
        (
          record d { journal = delete_row row.session_id row.seq d.journal },
          revert_one-inverse sql present later w.allocation_id p w.session_id (n + 1) by true db2 d
              row here refl
              (update_undone sql present later p row by db2 d v' refl refl live undone),
          Reads-eq p (prior p (some r)) (succ64 v') d _ refl reads,
        ),
      )
