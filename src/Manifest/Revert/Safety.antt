-- ===== src/Manifest/Revert/Safety.antt =====
-- What a revert may change: the tables stay sound, and a write of somebody else is not undone.
use orlop.Prelude.{
  Outcome, Result-cases, ok, err, ◌>>=◌, ℕ, suc, Text, Bool, false, Option, none, some, List, [],
  ◌∷◌, ◌≡◌, refl, inl, inr, arith, Option-cases, Bool-cases, not, subst, ◌&&◌,
}
use orlop.Prelude.Map.{is_empty}
use orlop.Manifest.Db.{
  Manifest, Db, JournalRow, SessionOp, op_create, op_update, op_delete, op_rename, Result,
}
use orlop.Manifest.Journal.{Writer}
use orlop.Manifest.Store.{put}
use orlop.Manifest.Links.{link, delete}
use orlop.Manifest.Rename.Subtree.{Sqlite}
use orlop.Manifest.Rename.{rename}
use orlop.Manifest.Ownership.{IsSound}
use orlop.Manifest.Ownership.Put.{put-IsSound}
use orlop.Manifest.Ownership.Unlink.{link-IsSound, delete-IsSound}
use orlop.Manifest.Ownership.Rename.{rename-IsSound}
use orlop.Manifest.Revert.{
  InverseError, revert_conflict, failed, wrap_cas, wrap_rename, Working, current, lazily,
  undo_create, rewrite, undo_update, relink, undo_delete, move_back, undo_rename, inverse,
  apply_inverse, delete_row, decode_journal_manifest, look_up, Verdict, reverted, conflicted,
  settle, has_diverged, seeded, revert_one, Report, noted, first_text, first_seq, others,
  revert_from, revert_paths, as_many,
}

-- What is wrapped succeeded as it is.
wrap_cas_ok : {T : Type 0} (p : Text) (r : Result T) (a : T) → wrap_cas p r ≡ ok a → r ≡ ok a
wrap_cas_ok p r a e = ground (arith, e)

wrap_rename_ok :
    {T : Type 0} (p from : Text) (r : Result T) (a : T) → wrap_rename p from r ≡ ok a → r ≡ ok a
wrap_rename_ok p from r a e = ground (arith, e)

-- The database of a wrapped call that succeeded.
wrapped_db :
    (r : Outcome InverseError (ℕ × Db)) (d : Db)
    → (r >>= λ x. ok x.1) ≡ ok d
    → (n : ℕ) × (r ≡ ok (n, d))
wrapped_db (ok (n, d1)) d e = (n, ground (arith, e))
wrapped_db (err x) d e = ground (arith, e)

module _ (sql : Sqlite) (present : Option (Text → Bool)) (now : ℕ) (w : Writer) (db d : Db)
    (v : IsSound db) where
  undo_create-IsSound :
      (p : Text) (cur : Option ℕ) → undo_create sql present now p cur w db ≡ ok d → IsSound d
  unfolding undo_create
  undo_create-IsSound p none e = let same : db ≡ d = ground (arith, e) in subst IsSound same v
  undo_create-IsSound p (some n) e =
      delete-IsSound now p n w db d (wrap_cas_ok p (delete now p n w db) d e) v

  rewrite-IsSound :
      (p : Text) (n : ℕ) (before : Option Manifest)
      → rewrite sql present now p n before w db ≡ ok d
      → IsSound d
  unfolding rewrite
  rewrite-IsSound p n before e = elim (Result-cases (decode_journal_manifest p before)) [
    | inr (x, f) ↦ ground (arith, e, f)
    | inl (prior, f) ↦
        let (m, g) =
          wrapped_db (wrap_cas p (put present now p n prior w db)) d (ground (arith, e, f)) in
        put-IsSound present now p n prior w db m d
          (wrap_cas_ok p (put present now p n prior w db) (m, d) g) v
  ]

  relink-IsSound :
      (p from : Text) (cur : Option ℕ) → relink sql present now p from cur w db ≡ ok d → IsSound d
  unfolding relink
  relink-IsSound p from none e = ground (arith, e)
  relink-IsSound p from (some n) e =
      let (m, g) = wrapped_db (wrap_cas p (link now from p w db)) d e in
      link-IsSound now from p w db m d (wrap_cas_ok p (link now from p w db) (m, d) g) v

  move_back-IsSound :
      (p from : Text) (n : ℕ) (occupied : Option ℕ)
      → move_back sql present now p from n occupied w db ≡ ok d
      → IsSound d
  unfolding move_back
  move_back-IsSound p from n (some x) e = ground (arith, e)
  move_back-IsSound p from n none e =
      let (m, g) = wrapped_db (wrap_rename p from (rename sql now p from n 0 false w db)) d e in
      rename-IsSound sql now p from n 0 false w db m d
        (wrap_rename_ok p from (rename sql now p from n 0 false w db) (m, d) g) v

  undo_delete-IsSound :
      (row : JournalRow) (working : Working) (cur : Option ℕ)
      → undo_delete sql present now row working cur w db ≡ ok d
      → IsSound d
  unfolding undo_delete
  undo_delete-IsSound row working (some n) e = ground (arith, e)
  undo_delete-IsSound row working none e = elim (Bool-cases (is_empty row.rename_from)) [
    | inl f ↦ rewrite-IsSound row.path 0 row.before_manifest (ground (arith, e, f))
    | inr f ↦
        relink-IsSound row.path row.rename_from (lazily working row.rename_from db)
          (ground (arith, e, f))
  ]

  undo_update-IsSound :
      (p : Text) (cur : Option ℕ) (before : Option Manifest)
      → undo_update sql present now p cur before w db ≡ ok d
      → IsSound d
  unfolding undo_update
  undo_update-IsSound p none before e = ground (arith, e)
  undo_update-IsSound p (some n) before e = rewrite-IsSound p n before e

  undo_rename-IsSound :
      (row : JournalRow) (working : Working) (cur : Option ℕ)
      → undo_rename sql present now row working cur w db ≡ ok d
      → IsSound d
  unfolding undo_rename
  undo_rename-IsSound row working none e = ground (arith, e)
  undo_rename-IsSound row working (some n) e =
      move_back-IsSound row.path row.rename_from n (lazily working row.rename_from db) e

  inverse-IsSound :
      (op : SessionOp) (row : JournalRow) (working : Working)
      → inverse sql present op now row working w db ≡ ok d
      → IsSound d
  unfolding inverse
  inverse-IsSound op_create row working e =
      undo_create-IsSound row.path (current working row.path) e
  inverse-IsSound op_update row working e =
      undo_update-IsSound row.path (current working row.path) row.before_manifest e
  inverse-IsSound op_delete row working e =
      undo_delete-IsSound row working (current working row.path) e
  inverse-IsSound op_rename row working e =
      undo_rename-IsSound row working (current working row.path) e

settle-IsSound :
    (row : JournalRow) (db : Db) (r : Outcome InverseError Db) (d : Db) (x : Verdict)
    → IsSound db
    → ((d1 : Db) → r ≡ ok d1 → IsSound d1)
    → settle row db r ≡ ok (d, x)
    → IsSound d
unfolding settle
settle-IsSound row db (ok d1) d x v s e =
    let same : record d1 { journal = delete_row row.session_id row.seq d1.journal } ≡ d =
      ground (arith, e) in
    subst IsSound same (s d1 refl)
settle-IsSound row db (err (failed y)) d x v s e = ground (arith, e)
settle-IsSound row db (err (revert_conflict q n)) d x v s e =
    let same : db ≡ d = ground (arith, e) in subst IsSound same v

module _ (sql : Sqlite) (present : Option (Text → Bool)) (allocation : Text) (w : Writer)
    (force : Bool) where
  revert_one-IsSound :
      (now : ℕ) (p session : Text) (seq : ℕ) (db d : Db) (x : Verdict)
      → IsSound db
      → revert_one sql present now allocation p session seq w force db ≡ ok (d, x)
      → IsSound d
  unfolding revert_one apply_inverse
  revert_one-IsSound now p session seq db d x v e =
      elim (Option-cases (look_up allocation p session seq db.journal)) [
        | inl f ↦ let same : db ≡ d = ground (arith, e, f) in subst IsSound same v
        | inr (row, f) ↦ elim (Bool-cases (not force && has_diverged p session seq row db)) [
          | inl g ↦ let same : db ≡ d = ground (arith, e, f, g) in subst IsSound same v
          | inr g ↦
              settle-IsSound row db (inverse sql present row.op now row (seeded p row db) w db) d x
                v (λ d1. inverse-IsSound sql present now w db d1 v row.op row (seeded p row db))
                (ground (arith, e, f, g))
        ]
      ]

  db-noted : (p : Text) (x : Verdict) (rep : Report) → (noted p x rep).db ≡ rep.db
  db-noted p reverted rep = refl
  db-noted p (conflicted q why) rep = refl

  revert_from-IsSound :
      (clock : ℕ → ℕ) (i : ℕ) (ps : List Text) (sessions : Option (List Text))
      (seqs : Option (List ℕ)) (db : Db)
      → IsSound db
      → IsSound (revert_from sql present clock i allocation ps sessions seqs w force db).db
  unfolding revert_from
  revert_from-IsSound clock i [] sessions seqs db v = v
  revert_from-IsSound clock i (p ∷ ps) sessions seqs db v =
      let r : Result (Db × Verdict) =
        revert_one sql present (clock i) allocation p (first_text sessions) (first_seq seqs) w force
          db in
      elim (Result-cases r) [
        | inr (_, f) ↦ rw (f, revert_from) v
        | inl ((d, x), f) ↦
            rw (f, revert_from)
              (rw
                (db-noted p x (
                  revert_from sql present clock (suc i) allocation ps (others sessions)
                    (others seqs) w force d))
                (revert_from-IsSound clock (suc i) ps (others sessions) (others seqs) d (
                  revert_one-IsSound (clock i) p (first_text sessions) (first_seq seqs) db d x v
                    f)))
      ]

-- Whatever paths are reverted, pinned or not and by force or not, and whether or not an error ends the call, a sound
-- database stays sound.
pub revert_paths-IsSound :
    (sql : Sqlite) (present : Option (Text → Bool)) (clock : ℕ → ℕ) (allocation : Text)
    (ps : List Text) (sessions : Option (List Text)) (seqs : Option (List ℕ))
    (writer_session writer_agent : Text) (force : Bool) (db : Db)
    → IsSound db
    → IsSound
        (revert_paths sql present clock allocation ps sessions seqs writer_session writer_agent
          force db).db
unfolding revert_paths
revert_paths-IsSound sql present clock allocation ps sessions seqs writer_session writer_agent force
      db v =
    let w : Writer = record {
      session_id = writer_session;
      allocation_id = allocation;
      agent_id = writer_agent;
    } in
    elim (Bool-cases (as_many seqs ps && as_many sessions ps)) [
      | inl f ↦
          rw f (revert_from-IsSound sql present allocation w force clock 0 ps sessions seqs db v)
      | inr f ↦ rw f v
    ]
