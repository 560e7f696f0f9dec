-- ===== src/Manifest/Journal/Sequence.antt =====
-- The entries of each session are numbered from 1 without gaps.
use orlop.Prelude.{
  ok, ℕ, ◌+◌, Text, Option, List, [], ◌∷◌, ◌≡◌, refl, arith, eqb, eqb_iff, if◌then◌else◌,
}
use orlop.Manifest.Db.{Manifest, JournalRow, SessionOp, Db}
use orlop.Manifest.Journal.{Writer, max_seq, append_journal, journal_before_write, journal_row}

-- How many entries a session has.
unfoldable pub entries : Text → List JournalRow → ℕ
entries s [] = 0
entries s (j ∷ js) = (if eqb j.session_id s then 1 else 0) + entries s js

-- Each entry's number is the count of its session's entries up to it.
abbrev pub Numbered : List JournalRow → Type 0
Numbered [] = Unit {0}
Numbered (j ∷ js) = (j.seq ≡ entries j.session_id js + 1) × Numbered js

-- In a numbered journal, the largest number of a session is the count of its entries.
max_seq-entries : (s : Text) (js : List JournalRow) → Numbered js → max_seq s js ≡ entries s js
unfolding max_seq entries
max_seq-entries s [] v = refl
max_seq-entries s (j ∷ js) (e, v) =
    ground (arith, e, eqb_iff j.session_id s, max_seq-entries s js v)

-- Journaling a write keeps the journal numbered from 1 without gaps, session by session, and gives
-- the session of the write one entry more, under the next number.
pub journal_numbers :
    (now : ℕ) (w : Writer) (op : SessionOp) (p : Text) (prior : Option Manifest) (after : Option ℕ)
    (from : Text) (db db' : Db)
    → Numbered db.journal
    → journal_before_write now w op p prior after from db ≡ ok db'
    → Numbered db'.journal
      × (entries w.session_id db'.journal ≡ entries w.session_id db.journal + 1)
      × (max_seq w.session_id db'.journal ≡ max_seq w.session_id db.journal + 1)
unfolding journal_before_write append_journal journal_row entries
journal_numbers now w op p prior after from db db' v e =
    let js : db'.journal ≡ journal_row now w op p prior after from db.journal ∷ db.journal =
      ground (arith, e) in
    let n : Numbered (journal_row now w op p prior after from db.journal ∷ db.journal) =
      (ground (arith, max_seq-entries w.session_id db.journal v), v) in
    rw js (
      n,
      ground (arith, eqb_iff w.session_id w.session_id),
      ground (
        arith,
        eqb_iff w.session_id w.session_id,
        max_seq-entries w.session_id db.journal v,
        max_seq-entries w.session_id
            (journal_row now w op p prior after from db.journal ∷ db.journal) n,
      ),
    )
