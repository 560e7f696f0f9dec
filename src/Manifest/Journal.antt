-- ===== src/Manifest/Journal.antt =====
-- What every mutation records: the session journal (`appendJournal`, `journalBeforeWrite` of
-- journal.go), the change revision and the tombstones (changes.go), and the session check of
-- `validateSessionIDForLease`.
pub mod Sequence
pub mod Query
use orlop.Prelude.{
  guard, ◌>>◌, ok, err, find, delete_key, ℕ, ◌+◌, Text, Bool, true, false, Option, none, some, List,
  [], ◌∷◌, ◌++◌, ◌&&◌, ◌||◌, not, eqb, ltb, text, is_some, if◌then◌else◌,
}
use orlop.Prelude.Map.{is_empty}
use orlop.Manifest.Db.{
  Manifest, TombstoneRow, tombstone_path, SessionOp, JournalRow, Db, Result, invalid,
  lease_mismatch,
}

-- The arguments sessionID, allocationID and agentID.
pub record Writer : Type 0 where
  pub session_id : Text
  pub allocation_id : Text
  pub agent_id : Text

-- select coalesce(max(seq), 0) from session_journal where session_id = ?
unfoldable pub max_seq : Text → List JournalRow → ℕ
max_seq s [] = 0
max_seq s (j ∷ js) =
    let rest = max_seq s js in
    if eqb j.session_id s then (if ltb rest j.seq then j.seq else rest) else rest

-- The rowid of a new row is one more than the largest of the table.
unfoldable pub max_rowid : List JournalRow → ℕ
max_rowid [] = 0
max_rowid (j ∷ js) = let rest = max_rowid js in if ltb rest j.rowid then j.rowid else rest

abbrev version_of : Option Manifest → Option ℕ
version_of none = none
version_of (some m) = some m.version

-- The row that `appendJournal` inserts.
unfoldable pub journal_row :
    ℕ → Writer → SessionOp → Text → Option Manifest → Option ℕ → Text → List JournalRow → JournalRow
unfolding max_rowid
journal_row now w op p prior after from rows = record {
  rowid = max_rowid rows + 1;
  session_id = w.session_id;
  allocation_id = w.allocation_id;
  agent_id = w.agent_id;
  seq = max_seq w.session_id rows + 1;
  path = p;
  op = op;
  before_version = version_of prior;
  after_version = after;
  before_manifest = prior;
  rename_from = from;
  ts_unix_ms = now;
}

unfoldable pub append_journal :
    ℕ → Writer → SessionOp → Text → Option Manifest → Option ℕ → Text → Db → Result Db
append_journal now w op p prior after from db =
    guard (not (is_empty w.session_id)) invalid
    >> guard (not (is_empty w.allocation_id)) invalid
    >> ok (record db { journal = journal_row now w op p prior after from db.journal ∷ db.journal })

-- The entry that `journalBeforeWrite` reads back is the new row.
unfoldable pub journal_before_write :
    ℕ → Writer → SessionOp → Text → Option Manifest → Option ℕ → Text → Db → Result Db
journal_before_write now w op p prior after from db = append_journal now w op p prior after from db

-- The guard `sessionID != "" && allocationID == ""`.
abbrev pub unpaired : Writer → Bool
unpaired w = not (is_empty w.session_id) && is_empty w.allocation_id

-- A write with no session is not journaled.
unfoldable pub journal_if_session :
    ℕ → Writer → SessionOp → Text → Option Manifest → Option ℕ → Text → Db → Result Db
journal_if_session now w op p prior after from db =
    if is_empty w.session_id then ok db else journal_before_write now w op p prior after from db

-- `allocChangeRevTx`: the revision is the new `last_rev`.
unfoldable pub alloc_rev : Db → Db
alloc_rev db = record db { last_rev = db.last_rev + 1 }

-- `upsertTombstoneTx`
unfoldable pub upsert_tombstone : ℕ → Text → ℕ → List TombstoneRow → List TombstoneRow
upsert_tombstone now p rev rows =
    record { path = p; rev = rev; ts_unix_ms = now } ∷ delete_key tombstone_path p rows

-- `clearTombstoneTx`
unfoldable pub clear_tombstone : Text → List TombstoneRow → List TombstoneRow
clear_tombstone p rows = delete_key tombstone_path p rows

-- `validateSessionIDForLease`: a write's session must be that of the active lease.
unfoldable pub validate_session : Text → Text → Result (Unit {0})
validate_session session_id active_lease_hex =
    if is_empty session_id
    then ok tt
    else if is_empty active_lease_hex
    then err lease_mismatch
    else guard (eqb session_id (text "mount:" ++ active_lease_hex)) lease_mismatch
