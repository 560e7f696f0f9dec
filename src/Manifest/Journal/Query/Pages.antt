-- ===== src/Manifest/Journal/Query/Pages.antt =====
-- Following the cursor of the journal's query: no row is skipped and none comes twice.
use orlop.Prelude.{
  ℕ, ◌+◌, ◌^◌, ◌<◌, ◌≤◌, Text, Bool, true, false, Option, some, List, [], ◌∷◌, ◌++◌, map,
  map-append, take-add, length-take_le, take, drop, length, last, All, filter, filter_and,
  filter_ext, filter_passes, filter-All, filter-Distinct, order_by, All-order_by, order_by-Sorted,
  order_by-filter, Distinct, IsApart, filter_behind, last_of_All, ◌&&◌, eqb, ltb, ◌==◌, ℤ, pos,
  format_int, cut-format_int, parse_int-format_int, ◌≡◌, ◌≢◌, ◌∙◌, sym, ap, inl, inr, arith,
  Bool-cases, Option-cases, subst,
}
use orlop.Prelude.Map.{is_empty}
use orlop.Manifest.Db.{JournalRow, Db, Manifest, SessionOp}
use orlop.Manifest.Journal.{Writer, max_rowid, journal_row}
use orlop.Manifest.Revert.{delete_row}
use orlop.Manifest.Journal.Query.{
  JournalQueryRow, scan_journal_row, precedes_row, encode_journal_cursor, decode_journal_cursor,
  is_behind, page_size, in_scope, behind, next_cursor, query,
}

-- A cursor reads back as it was written.
decode_cursor-encode_cursor :
    (ts rowid : ℕ)
    → ts < 2 ^ 63
    → rowid < 2 ^ 63
    → decode_journal_cursor (encode_journal_cursor ts rowid) ≡ (pos ts, pos rowid)
unfolding decode_journal_cursor encode_journal_cursor
decode_cursor-encode_cursor ts rowid small small' = ground (
  arith,
  cut-format_int ts (format_int rowid),
  parse_int-format_int ts small,
  parse_int-format_int rowid small',
)

precedes_row_trans :
    (x y z : JournalRow)
    → precedes_row x y ≡ true
    → precedes_row y z ≡ true
    → precedes_row x z ≡ true
unfolding precedes_row
precedes_row_trans x y z e f = ground (arith, e, f)

precedes_row_irrefl : (x : JournalRow) → precedes_row x x ≡ false
unfolding precedes_row
precedes_row_irrefl x = ground arith

-- The rowids fall along the journal, from the newest row on.
abbrev pub Keyed : List JournalRow → Type 0
Keyed [] = Unit {0}
Keyed (j ∷ js) = (max_rowid js < j.rowid) × Keyed js

-- A time after the epoch and a rowid that are int64 numbers.
abbrev pub InRange : JournalRow → Type 0
InRange j = (0 < j.ts_unix_ms) × (j.ts_unix_ms < 2 ^ 63) × (j.rowid < 2 ^ 63)

IsApart-of_rowid : (j k : JournalRow) → k.rowid < j.rowid → IsApart precedes_row j k
unfolding precedes_row
IsApart-of_rowid j k h = elim (Bool-cases (precedes_row j k)) [
  | inl e ↦ inl e
  | inr e ↦ inr (ground (arith, e, h))
]

IsApart-of_max :
    (j : JournalRow) (js : List JournalRow)
    → max_rowid js < j.rowid
    → All (IsApart precedes_row j) js
unfolding max_rowid
IsApart-of_max j [] h = tt
IsApart-of_max j (k ∷ ks) h =
    (IsApart-of_rowid j k (ground (arith, h)), IsApart-of_max j ks (ground (arith, h)))

Keyed-Distinct : (js : List JournalRow) → Keyed js → Distinct precedes_row js
Keyed-Distinct [] h = tt
Keyed-Distinct (j ∷ js) (h, hs) = (IsApart-of_max j js h, Keyed-Distinct js hs)

max_rowid-delete_row :
    (s : Text) (n : ℕ) (js : List JournalRow) → max_rowid (delete_row s n js) ≤ max_rowid js
unfolding max_rowid delete_row
max_rowid-delete_row s n [] = omega arith
max_rowid-delete_row s n (j ∷ js) = ground (arith, max_rowid-delete_row s n js)

pub Keyed-delete_row :
    (s : Text) (n : ℕ) (js : List JournalRow) → Keyed js → Keyed (delete_row s n js)
unfolding delete_row
Keyed-delete_row s n [] h = tt
Keyed-delete_row s n (j ∷ js) (h, hs) = elim (Bool-cases (eqb j.session_id s && j.seq == n)) [
  | inl e ↦ rw e (Keyed-delete_row s n js hs)
  | inr e ↦ rw e (omega (arith, h, max_rowid-delete_row s n js), Keyed-delete_row s n js hs)
]

pub journal_row-Keyed :
    (now : ℕ) (w : Writer) (op : SessionOp) (p : Text) (prior : Option Manifest) (after : Option ℕ)
    (from : Text) (js : List JournalRow)
    → Keyed js
    → Keyed (journal_row now w op p prior after from js ∷ js)
unfolding journal_row
journal_row-Keyed now w op p prior after from js h = (omega arith, h)

-- What lies behind a row that lies behind a cursor lies behind the cursor.
is_behind_trans :
    (c : ℤ × ℤ) (l j : JournalRow)
    → is_behind c l ≡ true
    → precedes_row l j ≡ true
    → is_behind c j ≡ true
unfolding is_behind precedes_row
is_behind_trans c l j e f = ground (arith, e, f)

-- The cursor of a row is the row.
is_behind_row :
    (l j : JournalRow)
    → 0 < l.ts_unix_ms
    → is_behind (pos l.ts_unix_ms, pos l.rowid) j ≡ precedes_row l j
unfolding is_behind precedes_row
is_behind_row l j h = ground (arith, h)

module _ (allocation : Text) (users : List Text) (cursor : Text) (js : List JournalRow)
    (keyed : Keyed js) (range : All InRange js) where
  wanted : JournalRow → Bool
  wanted j = in_scope allocation users j && is_behind (decode_journal_cursor cursor) j

  -- What the next cursor has behind it is what the page leaves.
  behind-next :
      (n : ℕ) (l : JournalRow)
      → length (take n (behind allocation users cursor js)) ≡ n
      → last (take n (behind allocation users cursor js)) ≡ some l
      → behind allocation users (encode_journal_cursor l.ts_unix_ms l.rowid) js
        ≡ drop n (behind allocation users cursor js)
  unfolding behind wanted
  behind-next n l full e =
      let rows : List JournalRow = filter wanted js in
      let distinct : Distinct precedes_row rows =
        filter-Distinct precedes_row wanted js (Keyed-Distinct js keyed) in
      let (pos_ts, small_ts, small_id) =
        last_of_All InRange n (order_by precedes_row rows) l
          (All-order_by precedes_row InRange rows (filter-All InRange wanted js range)) e in
      let here : wanted l ≡ true =
        last_of_All (λ j. wanted j ≡ true) n (order_by precedes_row rows) l
          (All-order_by precedes_row (λ j. wanted j ≡ true) rows (filter_passes wanted js)) e in
      let cut = decode_cursor-encode_cursor l.ts_unix_ms l.rowid small_ts small_id in
      let same : (j : JournalRow)
          → (in_scope allocation users j
              && is_behind (decode_journal_cursor (encode_journal_cursor l.ts_unix_ms l.rowid)) j)
            ≡ (wanted j && precedes_row l j) =
        λ j. rw cut (
          ground (
            arith,
            here,
            is_behind_row l j pos_ts,
            is_behind_trans (decode_journal_cursor cursor) l j,
          )) in
      ap (order_by precedes_row)
        (filter_ext _ _ js same ∙ sym (filter_and (precedes_row l) wanted js))
      ∙ order_by-filter precedes_row precedes_row_trans precedes_row_irrefl (precedes_row l) rows
          distinct
      ∙ filter_behind precedes_row precedes_row_trans precedes_row_irrefl n
          (order_by precedes_row rows) l
          (order_by-Sorted precedes_row precedes_row_trans precedes_row_irrefl rows distinct) full e

-- What a cursor that is not empty says of the page.
full_page :
    (limit : ℕ) (page : List JournalRow)
    → next_cursor limit page ≢ []
    → (l : JournalRow) × (last page ≡ some l)
      × (ltb (length page) limit ≡ false)
      × (next_cursor limit page ≡ encode_journal_cursor l.ts_unix_ms l.rowid)
unfolding next_cursor
full_page limit page more = elim (Option-cases (last page)) [
  | inl e ↦ absurd (more (ground (arith, e)))
  | inr (l, e) ↦ elim (Bool-cases (ltb (length page) limit)) [
    | inl f ↦ absurd (more (ground (arith, e, f)))
    | inr f ↦ (l, e, f, ground (arith, e, f))
  ]
]

-- The rows of a page and those of the page that its cursor leads to are, one after the other and none missing or twice,
-- the newest rows behind the first cursor, when the journal is as it was, its rowids fall from the newest row on and
-- its times and rowids are positive int64 numbers.
pub query_pages :
    (allocation : Text) (limit limit' : ℕ) (cursor : Text) (users : List Text) (db : Db)
    (rows : List JournalQueryRow) (next : Text)
    → Keyed db.journal
    → All InRange db.journal
    → query allocation limit cursor users db ≡ (rows, next)
    → next ≢ []
    → rows ++ (query allocation limit' next users db).0
      ≡ map
          (scan_journal_row db.manifests)
          (take (page_size limit + page_size limit') (behind allocation users cursor db.journal))
unfolding query
query_pages allocation limit limit' cursor users db rows next keyed range e more =
    elim (Bool-cases (is_empty allocation && length users == 0)) [
      | inl f ↦ absurd (more (ground (arith, e, f)))
      | inr f ↦
          let all : List JournalRow = behind allocation users cursor db.journal in
          let n : ℕ = page_size limit in
          let page : next_cursor n (take n all) ≡ next = ground (arith, e, f) in
          let first : rows ≡ map (scan_journal_row db.manifests) (take n all) =
            ground (arith, e, f) in
          let (l, last_one, full, token) =
            full_page n (take n all) (subst (λ t. t ≢ []) (sym page) more) in
          let size : length (take n all) ≡ n = ground (arith, full, length-take_le n all) in
          let rest : behind allocation users next db.journal ≡ drop n all =
            subst (λ t. behind allocation users t db.journal ≡ drop n all) (sym token ∙ page)
              (behind-next allocation users cursor db.journal keyed range n l size last_one) in
          rw (f, rest, first)
            (sym (
                map-append (scan_journal_row db.manifests) (take n all)
                  (take (page_size limit') (drop n all)))
              ∙ ap (map (scan_journal_row db.manifests)) (take-add n (page_size limit') all))
    ]
