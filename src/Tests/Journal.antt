-- ===== src/Tests/Journal.antt =====
-- The journal's queries at a small journal of two sessions.
use orlop.Prelude.{
  ℕ, Text, text, text_dec, none, some, [], ◌∷◌, ◌+◌, ◌≡◌, ◌≢◌, refl, map, take, All, ok, arith,
  filter, order_by, insert_sorted, last, format_int, cut,
}
use orlop.Manifest.Db.{JournalRow, Db, op_update}
use orlop.Manifest.Journal.{max_rowid}
use orlop.Manifest.Journal.Sequence.{entries}
use orlop.Manifest.Journal.Query.{
  JournalQueryRow, scan_journal_row, page_size, precedes_row, behind, next_cursor, query, in_scope,
  is_behind, encode_journal_cursor, decode_journal_cursor, query_after_seq, tenant_journal_stream,
  lookup_last_writer, latest_of, list_allocations, row_count,
}
use orlop.Manifest.Journal.Query.Pages.{query_pages}
use orlop.Manifest.Journal.Query.Stream.{session_rows, takeover_is_silent}
use orlop.Tests.Runs.{empty_db}

abbrev row : Text → ℕ → ℕ → ℕ → JournalRow
row s seq rowid at = record {
  rowid = rowid;
  session_id = s;
  allocation_id = text "al";
  agent_id = text "ag";
  seq = seq;
  path = text "/a";
  op = op_update;
  before_version = some 1;
  after_version = some 2;
  before_manifest = none;
  rename_from = [];
  ts_unix_ms = at;
}

abbrev first_session : Db
first_session = record empty_db {
  journal =
      row (text "mount:1") 3 3 120
      ∷ row (text "mount:1") 2 2 110
      ∷ row (text "mount:1") 1 1 110
      ∷ [];
}

abbrev second_session : Db
second_session = record empty_db { journal = row (text "mount:2") 1 4 130 ∷ first_session.journal }

abbrev newest : JournalQueryRow
newest = scan_journal_row [] (row (text "mount:2") 1 4 130)

first_page : query (text "al") 1 [] [] second_session ≡ (newest ∷ [], text "130.4")
unfolding query behind next_cursor in_scope is_behind decode_journal_cursor encode_journal_cursor
    filter order_by insert_sorted last text_dec precedes_row format_int cut
first_page = refl

last_writer :
    lookup_last_writer (text "/a") second_session
    ≡ some (record { agent_id = text "ag"; session_id = text "mount:2"; at_unix_ms = 130 })
unfolding lookup_last_writer latest_of text_dec
last_writer = refl

allocations : list_allocations second_session.journal ≡ text "al" ∷ []
unfolding list_allocations text_dec
allocations = refl

rows_of_al : row_count (text "al") second_session.journal ≡ 4
unfolding row_count text_dec
rows_of_al = refl

query_pages_example :
    newest ∷ (query (text "al") 2 (text "130.4") [] second_session).0
    ≡ map
        (scan_journal_row [])
        (take (page_size 1 + page_size 2) (behind (text "al") [] [] second_session.journal))
unfolding max_rowid
query_pages_example =
    query_pages (text "al") 1 2 [] [] second_session (newest ∷ []) (text "130.4") (omega arith)
      (omega arith) first_page (λ e. ground (arith, e))

no_answer : query_after_seq (text "al") 3 0 second_session ≡ ok []
unfolding query_after_seq filter order_by text_dec
no_answer = refl

takeover_is_silent_example :
    (tenant_journal_stream
        (text "al")
        3
        first_session
        (session_rows (text "mount:2") second_session.journal)
      ≡ query_after_seq (text "al") 3 50 first_session)
    × All {A = JournalQueryRow} (λ r. r.session_id ≢ text "mount:2") []
unfolding entries text_dec
takeover_is_silent_example =
    takeover_is_silent (text "al") (text "mount:2") 3 0 first_session second_session []
      (refl, (refl, (refl, (refl, tt)))) (omega arith) no_answer
