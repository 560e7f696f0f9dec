-- ===== src/Manifest/Revert.antt =====
-- The revert of journaled writes: revert.go, with `DeleteRow` and `decodeJournalManifest` of journal.go.
-- The inverse operations are transactions of the manifest store.
pub mod Safety
pub mod Undo
pub mod Conflicts
pub mod Deleted
use orlop.Prelude.{
  guard, ◌>>=◌, ◌>>◌, ok, err, Outcome, ℕ, suc, ◌+◌, Text, Bool, true, false, Option, none, some,
  List, [], ◌∷◌, ◌&&◌, ◌||◌, not, eqb, ltb, length, is_some, ◌==◌, if◌then◌else◌,
}
use orlop.Prelude.Map.{is_empty}
use orlop.Manifest.Db.{
  ChunkRef, Manifest, Db, JournalRow, SessionOp, op_create, op_update, op_delete, op_rename, Error,
  Result, invalid, already_exists, version_conflict,
}
use orlop.Manifest.Chunks.Packing.{hash_len}
use orlop.Manifest.Journal.{Writer}
use orlop.Manifest.Store.{get, put}
use orlop.Manifest.Links.{link, delete}
use orlop.Manifest.Rename.Subtree.{Sqlite}
use orlop.Manifest.Rename.{rename}

pub data Reason : Type 0 where
  no_journal_row concurrent_writer revert_blocked : Reason

pub record Conflict : Type 0 where
  pub path : Text
  pub reason : Reason

-- A `RevertConflictError`, with its path and the current version, or any other error.
pub data InverseError : Type 0 where
  revert_conflict : Text → ℕ → InverseError
  failed : Error → InverseError

-- `delete from session_journal where session_id = ? and seq = ?`
unfoldable pub delete_row : Text → ℕ → List JournalRow → List JournalRow
delete_row session seq [] = []
delete_row session seq (j ∷ js) =
    let rest = delete_row session seq js in
    if eqb j.session_id session && j.seq == seq then rest else j ∷ rest

-- order by ts_unix_ms desc, seq desc
abbrev pub is_newer : JournalRow → JournalRow → Bool
is_newer k j = ltb j.ts_unix_ms k.ts_unix_ms || (j.ts_unix_ms == k.ts_unix_ms && ltb j.seq k.seq)

-- Of rows that tie, the query leaves the choice to SQLite; here it is the last that was inserted.
unfoldable pub latest_row_for_path : Text → Text → List JournalRow → Option JournalRow
latest_row_for_path allocation p [] = none
latest_row_for_path allocation p (j ∷ js) =
    let rest = latest_row_for_path allocation p js in
    if eqb j.allocation_id allocation && eqb j.path p
    then (elim rest [ none ↦ some j | some k ↦ some (if is_newer k j then k else j) ])
    else rest

unfoldable pub row_for_session_seq : Text → Text → Text → ℕ → List JournalRow → Option JournalRow
row_for_session_seq allocation p session seq [] = none
row_for_session_seq allocation p session seq (j ∷ js) =
    if eqb j.session_id session && j.seq == seq && eqb j.allocation_id allocation && eqb j.path p
    then some j
    else row_for_session_seq allocation p session seq js

-- The row of a request: the pinned one, or the latest of its path.
unfoldable pub look_up : Text → Text → Text → ℕ → List JournalRow → Option JournalRow
look_up allocation p session seq rows =
    if not (is_empty session) && not (seq == 0)
    then row_for_session_seq allocation p session seq rows
    else latest_row_for_path allocation p rows

abbrev pub all_hashed : List ChunkRef → Bool
all_hashed [] = true
all_hashed (c ∷ cs) = length c.hash == hash_len && all_hashed cs

-- The manifest that the blob describes: it has no owner, access time or inode. An empty blob is refused.
unfoldable pub decode_journal_manifest : Text → Option Manifest → Result Manifest
decode_journal_manifest p none = err invalid
decode_journal_manifest p (some m) =
    guard (all_hashed m.chunks) invalid
    >> ok (record m { path = p; inode_id = 0; nlink = 0; uid = 0; gid = 0; atime = 0 })

unfoldable pub live_manifest_version : Text → Db → Option ℕ
live_manifest_version p db = elim (get p db) [ err _ ↦ none | ok mf ↦ some mf.version ]

abbrev pub equal_opt_version : Option ℕ → Option ℕ → Bool
equal_opt_version none none = true
equal_opt_version none (some b) = false
equal_opt_version (some a) none = false
equal_opt_version (some a) (some b) = a == b

abbrev pub wrap_cas : {T : Type 0} → Text → Result T → Outcome InverseError T
wrap_cas p (ok a) = ok a
wrap_cas p (err (version_conflict (some existing))) = err (revert_conflict p existing)
wrap_cas p (err e) = err (failed e)

-- The error of the inverse of a rename: an occupied source is a conflict there.
abbrev pub wrap_rename : {T : Type 0} → Text → Text → Result T → Outcome InverseError T
wrap_rename p from (err already_exists) = err (revert_conflict from 0)
wrap_rename p from r = wrap_cas p r

abbrev pub lift : {T : Type 0} → Result T → Outcome InverseError T
lift (ok a) = ok a
lift (err e) = err (failed e)

-- The map `working` from paths to live versions. A path that is not in it reads as nil.
abbrev pub Working : Type 0
Working = Text → Option (Option ℕ)

abbrev pub current : Working → Text → Option ℕ
current working p = elim (working p) [ none ↦ none | some v ↦ v ]

-- The version of the other name: from the map, or else read now.
abbrev pub lazily : Working → Text → Db → Option ℕ
lazily working p db = elim (working p) [ none ↦ live_manifest_version p db | some v ↦ v ]

module _ (sql : Sqlite) (present : Option (Text → Bool)) where
  unfoldable pub undo_create : ℕ → Text → Option ℕ → Writer → Db → Outcome InverseError Db
  undo_create now p none w db = ok db
  undo_create now p (some v) w db = wrap_cas p (delete now p v w db)

  -- A write of what the row recorded, over version `v`.
  unfoldable pub rewrite : ℕ → Text → ℕ → Option Manifest → Writer → Db → Outcome InverseError Db
  rewrite now p v before w db = lift (decode_journal_manifest p before) >>= λ prior.
      wrap_cas p (put present now p v prior w db) >>= λ r. ok r.1

  unfoldable pub undo_update :
      ℕ → Text → Option ℕ → Option Manifest → Writer → Db → Outcome InverseError Db
  undo_update now p none before w db = err (revert_conflict p 0)
  undo_update now p (some v) before w db = rewrite now p v before w db

  -- The name of a file that has others is linked to one of them again.
  unfoldable pub relink : ℕ → Text → Text → Option ℕ → Writer → Db → Outcome InverseError Db
  relink now p from none w db = err (revert_conflict from 0)
  relink now p from (some v) w db = wrap_cas p (link now from p w db) >>= λ r. ok r.1

  unfoldable pub undo_delete :
      ℕ → JournalRow → Working → Option ℕ → Writer → Db → Outcome InverseError Db
  undo_delete now row working (some v) w db = err (revert_conflict row.path v)
  undo_delete now row working none w db =
      if is_empty row.rename_from
      then rewrite now row.path 0 row.before_manifest w db
      else relink now row.path row.rename_from (lazily working row.rename_from db) w db

  unfoldable pub move_back : ℕ → Text → Text → ℕ → Option ℕ → Writer → Db → Outcome InverseError Db
  move_back now p from v (some occupied) w db = err (revert_conflict from occupied)
  move_back now p from v none w db =
      wrap_rename p from (rename sql now p from v 0 false w db) >>= λ r. ok r.1

  unfoldable pub undo_rename :
      ℕ → JournalRow → Working → Option ℕ → Writer → Db → Outcome InverseError Db
  undo_rename now row working none w db = err (revert_conflict row.path 0)
  undo_rename now row working (some v) w db =
      move_back now row.path row.rename_from v (lazily working row.rename_from db) w db

  -- `applyInverse`, by the operation of the row. What it writes to `working` is not read: `RevertPaths` makes a map
  -- for each path.
  unfoldable pub inverse :
      SessionOp → ℕ → JournalRow → Working → Writer → Db → Outcome InverseError Db
  inverse op_create now row working w db = undo_create now row.path (current working row.path) w db
  inverse op_update now row working w db =
      undo_update now row.path (current working row.path) row.before_manifest w db
  inverse op_delete now row working w db =
      undo_delete now row working (current working row.path) w db
  inverse op_rename now row working w db =
      undo_rename now row working (current working row.path) w db

  unfoldable pub apply_inverse : ℕ → JournalRow → Working → Writer → Db → Outcome InverseError Db
  apply_inverse now row working w db = inverse row.op now row working w db

abbrev pub is_rename : JournalRow → Bool
is_rename row = elim row.op [ op_rename ↦ true | _ ↦ false ]

-- The map that `RevertPaths` makes for a path.
abbrev pub seeded : Text → JournalRow → Db → Working
seeded p row db q =
    if is_rename row && not (is_empty row.rename_from) && eqb row.rename_from q
    then some (live_manifest_version row.rename_from db)
    else if eqb p q
    then some (live_manifest_version p db)
    else none

-- What became of a path.
pub data Verdict : Type 0 where
  reverted : Verdict
  conflicted : Text → Reason → Verdict

-- The body of the loop of `RevertPaths` once the inverse was tried: the row of an undone write goes.
unfoldable pub settle : JournalRow → Db → Outcome InverseError Db → Result (Db × Verdict)
settle row db (err (revert_conflict q current_version)) = ok (db, conflicted q concurrent_writer)
settle row db (err (failed e)) = err e
settle row db (ok d) =
    ok (record d { journal = delete_row row.session_id row.seq d.journal }, reverted)

-- The tests that `force` skips: the number that the caller has seen, where no session pins the row, and the version
-- that the row's write left.
unfoldable pub has_diverged : Text → Text → ℕ → JournalRow → Db → Bool
has_diverged p session seq row db =
    (is_empty session && not (seq == 0) && not (row.seq == seq))
    || not (equal_opt_version (live_manifest_version p db) row.after_version)

module _ (sql : Sqlite) (present : Option (Text → Bool)) where
  -- The body of the loop of `RevertPaths`; no pin is the empty text or 0. An error ends the loop.
  unfoldable pub revert_one :
      ℕ → Text → Text → Text → ℕ → Writer → Bool → Db → Result (Db × Verdict)
  revert_one now allocation p session seq w force db =
      elim (look_up allocation p session seq db.journal) [
        | none ↦ ok (db, conflicted p no_journal_row)
        | some row ↦
            if not force && has_diverged p session seq row db
            then ok (db, conflicted p concurrent_writer)
            else settle row db (apply_inverse sql present now row (seeded p row db) w db)
      ]

-- The results of `RevertPaths`, with the database that its transactions leave.
pub record Report : Type 0 where
  pub db : Db
  pub reverted_paths : List Text
  pub conflicts : List Conflict
  pub failure : Option Error

abbrev pub noted : Text → Verdict → Report → Report
noted p reverted rep = record rep { reverted_paths = p ∷ rep.reverted_paths }
noted p (conflicted q why) rep = record rep {
  conflicts = record { path = q; reason = why } ∷ rep.conflicts;
}

abbrev pub first_text : Option (List Text) → Text
first_text (some (s ∷ ss)) = s
first_text _ = []

abbrev pub first_seq : Option (List ℕ) → ℕ
first_seq (some (n ∷ ns)) = n
first_seq _ = 0

abbrev pub others {ℓ} : {A : Type ℓ} → Option (List A) → Option (List A)
others none = none
others (some []) = some []
others (some (x ∷ xs)) = some xs

-- The guards on the lengths: a list of pins that is given has one for each path.
abbrev pub as_many {ℓ} : {A : Type ℓ} → Option (List A) → List Text → Bool
as_many none ps = true
as_many (some xs) ps = length xs == length ps

module _ (sql : Sqlite) (present : Option (Text → Bool)) (clock : ℕ → ℕ) where
  -- The loop of `RevertPaths` from the i-th path on; `clock i` is the time when that path is reverted, and no other
  -- writer comes between.
  unfoldable pub revert_from :
      ℕ → Text → List Text → Option (List Text) → Option (List ℕ) → Writer → Bool → Db → Report
  revert_from i allocation [] sessions seqs w force db = record {
    db = db;
    reverted_paths = [];
    conflicts = [];
    failure = none;
  }
  revert_from i allocation (p ∷ ps) sessions seqs w force db =
      elim (revert_one sql present (clock i) allocation p (first_text sessions) (first_seq seqs) w
        force db) [
          | err e ↦ record { db = db; reverted_paths = []; conflicts = []; failure = some e }
          | ok (d, v) ↦
              noted p v
                (revert_from (suc i) allocation ps (others sessions) (others seqs) w force d)
        ]

  -- The inverse writes are journaled under the writer's session, in the allocation that is reverted.
  unfoldable pub revert_paths :
      Text → List Text → Option (List Text) → Option (List ℕ) → Text → Text → Bool → Db → Report
  revert_paths allocation ps sessions seqs writer_session writer_agent force db =
      let w : Writer = record {
        session_id = writer_session;
        allocation_id = allocation;
        agent_id = writer_agent;
      } in
      if as_many seqs ps && as_many sessions ps
      then revert_from 0 allocation ps sessions seqs w force db
      else record { db = db; reverted_paths = []; conflicts = []; failure = some invalid }
