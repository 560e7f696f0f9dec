-- ===== src/Manifest/Journal/Query.antt =====
-- Reading the session journal: Query, QueryAfterSeq, LookupLastWriter, ListAllocations and SnapshotRowCounts of
-- journal.go, and the stream of control_journal.go.
pub mod Pages
pub mod Stream
use orlop.Prelude.{
  ℕ, suc, ◌+◌, Text, Bool, true, false, Option, none, some, List, [], ◌∷◌, ◌++◌, map, take, length,
  last, contains, filter, order_by, ◌&&◌, ◌||◌, not, eqb, ltb, leb, ◌==◌, find, is_some,
  if◌then◌else◌, Outcome, ok, err, ◌>>◌, ◌>>=◌, guard, ℤ, pos, negsuc, format_int, parse_int, cut,
}
use orlop.Prelude.Map.{is_empty}
use orlop.Manifest.Db.{
  Manifest, ManifestRow, manifest_path, SessionOp, op_delete, JournalRow, Db, Result, invalid,
}
use orlop.Manifest.Revert.{decode_journal_manifest}

pub record JournalQueryRow : Type 0 where
  pub session_id : Text
  pub allocation_id : Text
  pub seq : ℕ
  pub ts_unix_ms : ℕ
  pub path : Text
  pub op : SessionOp
  pub agent_id : Text
  pub before_version : Option ℕ
  pub after_version : Option ℕ
  pub rename_from : Text
  pub size_before : Option ℕ
  pub size_after : Option ℕ

abbrev is_delete : SessionOp → Bool
is_delete op_delete = true
is_delete _ = false

-- The size that the blob records, if it can be decoded.
unfoldable pub recorded_size : JournalRow → Option ℕ
recorded_size j = elim (decode_journal_manifest j.path j.before_manifest) [
  | err _ ↦ none
  | ok mf ↦ some mf.size
]

-- The column m.size of the join: nothing for a deletion.
unfoldable pub live_size : List ManifestRow → JournalRow → Option ℕ
live_size rows j = elim (find manifest_path j.path rows) [
  | none ↦ none
  | some r ↦ if is_delete j.op then none else some r.size
]

-- scanJournalRow
abbrev pub scan_journal_row : List ManifestRow → JournalRow → JournalQueryRow
scan_journal_row rows j = record {
  session_id = j.session_id;
  allocation_id = j.allocation_id;
  seq = j.seq;
  ts_unix_ms = j.ts_unix_ms;
  path = j.path;
  op = j.op;
  agent_id = j.agent_id;
  before_version = j.before_version;
  after_version = j.after_version;
  rename_from = j.rename_from;
  size_before = recorded_size j;
  size_after = live_size rows j;
}

-- order by ts_unix_ms desc, rowid desc
unfoldable pub precedes_row : JournalRow → JournalRow → Bool
precedes_row j k =
    ltb k.ts_unix_ms j.ts_unix_ms || (k.ts_unix_ms == j.ts_unix_ms && ltb k.rowid j.rowid)

unfoldable pub encode_journal_cursor : ℕ → ℕ → Text
encode_journal_cursor ts rowid = format_int ts ++ (b'.' ∷ format_int rowid)

abbrev both : Option ℤ → Option ℤ → ℤ × ℤ
both (some ts) (some rowid) = (ts, rowid)
both _ _ = (pos 0, pos 0)

unfoldable pub decode_journal_cursor : Text → ℤ × ℤ
decode_journal_cursor s = elim (cut b'.' s) [
  | none ↦ (pos 0, pos 0)
  | some (ts, rowid) ↦ both (parse_int ts) (parse_int rowid)
]

-- n < z and n = z, for a number of a row
abbrev pub below : ℕ → ℤ → Bool
below n (pos k) = ltb n k
below n (negsuc k) = false

abbrev pub equals : ℕ → ℤ → Bool
equals n (pos k) = n == k
equals n (negsuc k) = false

-- The keyset predicate.
unfoldable pub is_behind : ℤ × ℤ → JournalRow → Bool
is_behind (ts, rowid) j =
    equals 0 ts || below j.ts_unix_ms ts || (equals j.ts_unix_ms ts && below j.rowid rowid)

-- The clamp of the limit.
abbrev pub page_size : ℕ → ℕ
page_size limit = if limit == 0 then 50 else if ltb 200 limit then 200 else limit

-- The rows of one allocation, or of the user's.
unfoldable pub in_scope : Text → List Text → JournalRow → Bool
in_scope allocation users j =
    if is_empty allocation then contains users j.allocation_id else eqb j.allocation_id allocation

-- The rows behind a cursor, the newest first.
unfoldable pub behind : Text → List Text → Text → List JournalRow → List JournalRow
behind allocation users cursor rows =
    order_by precedes_row
      (filter (λ j. in_scope allocation users j && is_behind (decode_journal_cursor cursor) j) rows)

-- The cursor behind a page, empty for the last page.
unfoldable pub next_cursor : ℕ → List JournalRow → Text
next_cursor limit page = elim (last page) [
  | none ↦ []
  | some j ↦ if ltb (length page) limit then [] else encode_journal_cursor j.ts_unix_ms j.rowid
]

unfoldable pub query : Text → ℕ → Text → List Text → Db → List JournalQueryRow × Text
query allocation limit cursor users db =
    let page = take (page_size limit) (behind allocation users cursor db.journal) in
    if is_empty allocation && length users == 0
    then ([], [])
    else (map (scan_journal_row db.manifests) page, next_cursor (page_size limit) page)

-- order by seq asc; rows of two sessions may tie, and SQLite then answers them in an order of its own, here that
-- of insertion.
abbrev pub has_smaller_seq : JournalRow → JournalRow → Bool
has_smaller_seq j k = ltb j.seq k.seq || (j.seq == k.seq && ltb j.rowid k.rowid)

-- No limit is 0.
abbrev pub limited {ℓ} : {A : Type ℓ} → ℕ → List A → List A
limited limit xs = if limit == 0 then xs else take limit xs

unfoldable pub query_after_seq : Text → ℕ → ℕ → Db → Result (List JournalQueryRow)
query_after_seq allocation after_seq limit db =
    guard (not (is_empty allocation)) invalid
    >> ok (
        map (scan_journal_row db.manifests) (
          limited limit (
            order_by has_smaller_seq
              (filter (λ j. eqb j.allocation_id allocation && ltb after_seq j.seq) db.journal))))

pub record LastWriterRow : Type 0 where
  pub agent_id : Text
  pub session_id : Text
  pub at_unix_ms : ℕ

-- order by ts_unix_ms desc, seq desc, rowid desc
abbrev pub is_later : JournalRow → JournalRow → Bool
is_later j k =
    ltb k.ts_unix_ms j.ts_unix_ms
    || (k.ts_unix_ms == j.ts_unix_ms
        && (ltb k.seq j.seq || (k.seq == j.seq && ltb k.rowid j.rowid)))

unfoldable pub latest_of : Text → List JournalRow → Option JournalRow
latest_of p [] = none
latest_of p (j ∷ js) =
    let rest = latest_of p js in
    if eqb j.path p
    then (elim rest [ none ↦ some j | some k ↦ some (if is_later j k then j else k) ])
    else rest

unfoldable pub lookup_last_writer : Text → Db → Option LastWriterRow
lookup_last_writer p db = elim (latest_of p db.journal) [
  | none ↦ none
  | some j ↦
      some (record { agent_id = j.agent_id; session_id = j.session_id; at_unix_ms = j.ts_unix_ms })
]

-- select distinct allocation_id, in the order of first appearance
unfoldable pub list_allocations : List JournalRow → List Text
list_allocations [] = []
list_allocations (j ∷ js) =
    let rest = list_allocations js in
    if is_empty j.allocation_id || contains rest j.allocation_id
    then rest
    else j.allocation_id ∷ rest

-- select allocation_id, count(*): the count of one group
unfoldable pub row_count : Text → List JournalRow → ℕ
row_count allocation [] = 0
row_count allocation (j ∷ js) =
    (if eqb j.allocation_id allocation then 1 else 0) + row_count allocation js

-- The number up to which the stream has sent, after the catch-up.
unfoldable pub highest_sent_seq : ℕ → List JournalQueryRow → ℕ
highest_sent_seq n [] = n
highest_sent_seq n (r ∷ rs) = highest_sent_seq (if ltb n r.seq then r.seq else n) rs

-- The loop of the stream over the entries that its subscription hands on.
unfoldable pub forward : ℕ → List JournalRow → List JournalRow
forward n [] = []
forward n (e ∷ es) = elim (leb e.seq n) [ true ↦ forward n es | false ↦ e ∷ forward e.seq es ]

-- journalQueryRowFromEntry: a live entry has no size of the live manifest.
abbrev pub journal_query_row_from_entry : JournalRow → JournalQueryRow
journal_query_row_from_entry e = record (scan_journal_row [] e) { size_after = none }

-- What tenantJournalStream sends: the catch-up and then the entries that are broadcast while it is subscribed.
unfoldable pub tenant_journal_stream :
    Text → ℕ → Db → List JournalRow → Result (List JournalQueryRow)
tenant_journal_stream allocation after_seq db live =
    query_after_seq allocation after_seq 50 db >>= λ catch_up. ok (
      catch_up
      ++ map journal_query_row_from_entry (forward (highest_sent_seq after_seq catch_up) live))
