-- ===== src/Manifest/Journal/Query/Stream.antt =====
-- The live stream of an allocation's journal across a take-over of its mount.
use orlop.Prelude.{
  ℕ, zero, suc, ◌+◌, ◌≤◌, Text, true, List, [], ◌∷◌, ◌++◌, map, take, All, filter, order_by,
  All-order_by, ◌&&◌, eqb, eqb_iff, ltb, ◌==◌, if◌then◌else◌, ok, ◌≡◌, ◌≢◌, ◌∙◌, refl, sym, ap, inl,
  inr, arith, Bool-cases, subst, Result-cases, append-nil,
}
use orlop.Manifest.Db.{JournalRow, Db}
use orlop.Manifest.Journal.Sequence.{Numbered, entries}
use orlop.Manifest.Journal.Query.{
  JournalQueryRow, scan_journal_row, has_smaller_seq, limited, query_after_seq, highest_sent_seq,
  forward, tenant_journal_stream,
}

-- The rows of a session, from the first on.
unfoldable pub session_rows : Text → List JournalRow → List JournalRow
session_rows s [] = []
session_rows s (j ∷ js) =
    let rest = session_rows s js in if eqb j.session_id s then rest ++ (j ∷ []) else rest

All-snoc :
    (P : JournalRow → Type 0) (xs : List JournalRow) (x : JournalRow)
    → All P xs
    → P x
    → All P (xs ++ (x ∷ []))
All-snoc P [] x h k = (k, tt)
All-snoc P (y ∷ ys) x (h, hs) k = (h, All-snoc P ys x hs k)

All-weaken :
    (n m : ℕ) (xs : List JournalRow) → n ≤ m → All (λ e. e.seq ≤ n) xs → All (λ e. e.seq ≤ m) xs
All-weaken n m [] le h = tt
All-weaken n m (x ∷ xs) le (h, hs) = (omega (arith, le, h), All-weaken n m xs le hs)

session_rows-le :
    (s : Text) (js : List JournalRow)
    → Numbered js
    → All (λ e. e.seq ≤ entries s js) (session_rows s js)
unfolding session_rows entries
session_rows-le s [] v = tt
session_rows-le s (j ∷ js) (e, v) = elim (Bool-cases (eqb j.session_id s)) [
  | inr f ↦ rw f (
      All-weaken (entries s js) (0 + entries s js) (session_rows s js) (omega arith)
        (session_rows-le s js v))
  | inl f ↦
      let same : entries j.session_id js ≡ entries s js =
        ap (λ t. entries t js) ((eqb_iff j.session_id s).0 f) in
      rw f (
        All-snoc (λ k. k.seq ≤ 1 + entries s js) (session_rows s js) j
          (All-weaken (entries s js) (1 + entries s js) (session_rows s js) (omega arith)
            (session_rows-le s js v))
          (omega (arith, e, same)))
]

forward_nothing : (n : ℕ) (es : List JournalRow) → All (λ e. e.seq ≤ n) es → forward n es ≡ []
unfolding forward
forward_nothing n [] h = refl
forward_nothing n (e ∷ es) (h, hs) = ground (arith, h, forward_nothing n es hs)

highest_sent_seq-le : (n : ℕ) (rs : List JournalQueryRow) → n ≤ highest_sent_seq n rs
unfolding highest_sent_seq
highest_sent_seq-le n [] = omega arith
highest_sent_seq-le n (r ∷ rs) =
    ground (arith, highest_sent_seq-le (if ltb n r.seq then r.seq else n) rs)

-- The rows of the session have numbers up to the count.
abbrev Counted : Text → ℕ → JournalRow → Type 0
Counted s n j = eqb j.session_id s ≡ true → j.seq ≤ n

Counted-more :
    (s : Text) (n m : ℕ) (js : List JournalRow)
    → n ≤ m
    → All (Counted s n) js
    → All (Counted s m) js
Counted-more s n m [] le h = tt
Counted-more s n m (j ∷ js) le (h, hs) = (λ e. omega (arith, le, h e), Counted-more s n m js le hs)

Numbered-Counted :
    (s : Text) (js : List JournalRow) → Numbered js → All (Counted s (entries s js)) js
unfolding entries
Numbered-Counted s [] v = tt
Numbered-Counted s (j ∷ js) (e, v) = (
  λ f.
      let same : entries j.session_id js ≡ entries s js =
        ap (λ t. entries t js) ((eqb_iff j.session_id s).0 f) in
      ground (arith, e, f, same),
  Counted-more s (entries s js) (entries s (j ∷ js)) js (ground arith) (Numbered-Counted s js v),
)

not_listed :
    (a s : Text) (n after_seq : ℕ) (js : List JournalRow)
    → n ≤ after_seq
    → All (Counted s n) js
    → All (λ j. j.session_id ≢ s) (filter (λ j. eqb j.allocation_id a && ltb after_seq j.seq) js)
unfolding filter
not_listed a s n after_seq [] le h = tt
not_listed a s n after_seq (j ∷ js) le (h, hs) =
    elim (Bool-cases (eqb j.allocation_id a && ltb after_seq j.seq)) [
      | inr e ↦ rw e (not_listed a s n after_seq js le hs)
      | inl e ↦ rw e (
        λ same. let low = h ((eqb_iff j.session_id s).1 same) in ground (arith, e, low, le),
        not_listed a s n after_seq js le hs,
      )
    ]

All-take : (P : JournalRow → Type 0) (n : ℕ) (xs : List JournalRow) → All P xs → All P (take n xs)
All-take P zero xs h = tt
All-take P (suc n) [] h = tt
All-take P (suc n) (x ∷ xs) (h, hs) = (h, All-take P n xs hs)

All-limited :
    (P : JournalRow → Type 0) (n : ℕ) (xs : List JournalRow) → All P xs → All P (limited n xs)
All-limited P n xs h = elim (Bool-cases (n == 0)) [
  | inl e ↦ rw e h
  | inr e ↦ rw e (All-take P n xs h)
]

All-scanned :
    (s : Text) (f : JournalRow → JournalQueryRow) (xs : List JournalRow)
    → ((j : JournalRow) → (f j).session_id ≡ j.session_id)
    → All (λ j. j.session_id ≢ s) xs
    → All (λ r. r.session_id ≢ s) (map f xs)
All-scanned s f [] keeps h = tt
All-scanned s f (x ∷ xs) keeps (h, hs) = (λ e. h (sym (keeps x) ∙ e), All-scanned s f xs keeps hs)

answered :
    (allocation s : Text) (after_seq limit : ℕ) (db : Db) (rows : List JournalQueryRow)
    → Numbered db.journal
    → entries s db.journal ≤ after_seq
    → query_after_seq allocation after_seq limit db ≡ ok rows
    → All (λ r. r.session_id ≢ s) rows
unfolding query_after_seq
answered allocation s after_seq limit db rows numbered few e =
    let found : List JournalRow =
      filter (λ j. eqb j.allocation_id allocation && ltb after_seq j.seq) db.journal in
    let listed : map (scan_journal_row db.manifests)
          (limited limit (order_by has_smaller_seq found))
        ≡ rows =
      ground (arith, e) in
    subst (All (λ r. r.session_id ≢ s)) listed (
      All-scanned s (scan_journal_row db.manifests) (limited limit (order_by has_smaller_seq found))
        (λ j. refl)
        (All-limited (λ j. j.session_id ≢ s) limit (order_by has_smaller_seq found)
          (All-order_by has_smaller_seq (λ j. j.session_id ≢ s) found
            (not_listed allocation s (entries s db.journal) after_seq db.journal few
              (Numbered-Counted s db.journal numbered)))))

-- In a journal that is numbered session by session, a session with no more rows than a stream's client has already
-- counted is not shown to it: the subscribed stream forwards none of the session's rows, and a client that comes back
-- with its number is answered none of them.
pub takeover_is_silent :
    (allocation s : Text) (after_seq limit : ℕ) (db db' : Db) (rows : List JournalQueryRow)
    → Numbered db'.journal
    → entries s db'.journal ≤ after_seq
    → query_after_seq allocation after_seq limit db' ≡ ok rows
    → (tenant_journal_stream allocation after_seq db (session_rows s db'.journal)
        ≡ query_after_seq allocation after_seq 50 db)
      × All (λ r. r.session_id ≢ s) rows
unfolding tenant_journal_stream
takeover_is_silent allocation s after_seq limit db db' rows numbered few e = (
  elim (Result-cases (query_after_seq allocation after_seq 50 db)) [
    | inr (_, f) ↦ rw f refl
    | inl (catch_up, f) ↦
        let h : ℕ = highest_sent_seq after_seq catch_up in
        let silent : forward h (session_rows s db'.journal) ≡ [] =
          forward_nothing h (session_rows s db'.journal) (
            All-weaken (entries s db'.journal) h (session_rows s db'.journal)
              (omega (arith, few, highest_sent_seq-le after_seq catch_up))
              (session_rows-le s db'.journal numbered)) in
        rw (f, silent) (ap ok (append-nil catch_up))
  ],
  answered allocation s after_seq limit db' rows numbered few e,
)
