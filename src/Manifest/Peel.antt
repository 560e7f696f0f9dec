-- ===== src/Manifest/Peel.antt =====
-- What journaling a write leaves: only the journal changes.
use orlop.Prelude.{ok, ◌≡◌, arith, List, ℕ, Text, Option}
use orlop.Manifest.Db.{Db, JournalRow, SessionOp, Manifest}
use orlop.Manifest.Journal.{Writer, journal_if_session, journal_before_write, append_journal}

pub journal_ok :
    (now : ℕ) (w : Writer) (op : SessionOp) (p : Text) (prior : Option Manifest) (after : Option ℕ)
    (from : Text) (db d : Db)
    → journal_if_session now w op p prior after from db ≡ ok d
    → (js : List JournalRow) × (d ≡ record db { journal = js })
unfolding journal_if_session journal_before_write append_journal
journal_ok now w op p prior after from db d e = (d.journal, ground (arith, e))
