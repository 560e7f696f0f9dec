-- ===== src/Manifest/Feed/Pages.antt =====
-- Following the cursor: a page of the feed and what the next cursor has behind it.
use orlop.Prelude.{
  ℕ, zero, suc, ◌<◌, ◌⊎◌, Text, Bool, true, false, none, some, List, [], ◌∷◌, map, take, length,
  ◌&&◌, ltb, ==_iff, eqb_iff, ok, ◌≡◌, refl, arith, Bool-cases, List-cases, inl, inr, ap, filter,
}
use orlop.Manifest.Db.{Db}
use orlop.Manifest.Rename.Subtree.{Sqlite}
use orlop.Manifest.Feed.{
  ChangeEntry, comes_after, is_after, sort, last_entry, scanned, next_cursor, clamped, feed,
  in_subtree, query_changes, FetchRequest, FetchResponse, fetch_changes,
}
use orlop.Manifest.Feed.Order.{
  is_at, has_change, none_before, is_sorted, has_change-sort, comes_after_total, sorted-sort,
}

has_change-scanned :
    (r : ℕ) (p : Text) (b : Bool) (es : List ChangeEntry)
    → has_change r p (map (scanned b) es) ≡ has_change r p es
unfolding has_change
has_change-scanned r p b [] = refl
has_change-scanned r p b (e ∷ es) = ground (arith, has_change-scanned r p b es)

has_change-permitted :
    (r : ℕ) (p : Text) (permits : Text → Bool) (es : List ChangeEntry)
    → has_change r p (filter (λ e. permits e.path) es) ≡ (permits p && has_change r p es)
unfolding has_change filter
has_change-permitted r p permits [] = ground arith
has_change-permitted r p permits (e ∷ es) = elim (Bool-cases (is_at r p e)) [
  | inl f ↦
      let same : permits e.path ≡ permits p =
        ap permits ((eqb_iff e.path p).0 (ground (arith, f))) in
      ground (arith, f, same, has_change-permitted r p permits es)
  | inr f ↦ ground (arith, f, has_change-permitted r p permits es)
]

has_change-none_before :
    (r : ℕ) (p : Text) (r' : ℕ) (p' : Text) (es : List ChangeEntry)
    → has_change r p es ≡ true
    → none_before r' p' es ≡ true
    → comes_after r p r' p' ≡ false
unfolding has_change
has_change-none_before r p r' p' [] e f = ground (arith, e)
has_change-none_before r p r' p' (d ∷ ds) e f = elim (Bool-cases (is_at r p d)) [
  | inl g ↦
      let same : comes_after d.rev d.path r' p' ≡ comes_after r p r' p' =
        ground (arith, g, ==_iff d.rev r, eqb_iff d.path p) in
      ground (arith, f, same)
  | inr g ↦ has_change-none_before r p r' p' ds (ground (arith, e, g)) (ground (arith, f))
]

-- A change that does not come after the last one of a page is on the page.
page_covers :
    (limit : ℕ) (es : List ChangeEntry) (r : ℕ) (p : Text) (l : ChangeEntry)
    → is_sorted es ≡ true
    → has_change r p es ≡ true
    → last_entry (take limit es) ≡ some l
    → comes_after l.rev l.path r p ≡ false
    → has_change r p (take limit es) ≡ true
unfolding has_change last_entry
page_covers zero es r p l sorted here at behind = ground (arith, at)
page_covers (suc n) [] r p l sorted here at behind = here
page_covers (suc n) (e ∷ es) r p l sorted here at behind = elim (Bool-cases (is_at r p e)) [
  | inl f ↦ ground (arith, f)
  | inr f ↦ elim (List-cases (take n es)) [
    | inl g ↦
        let last : e ≡ l = ground (arith, at, g) in
        let in_rest : has_change r p es ≡ true = ground (arith, here, f) in
        let not_before =
          has_change-none_before r p e.rev e.path es in_rest (ground (arith, sorted)) in
        let not_behind : comes_after e.rev e.path r p ≡ false = rw last behind in
        let same = comes_after_total e.rev e.path r p not_behind not_before in
        ground (arith, f, same.0, same.1, ==_iff e.rev r, eqb_iff e.path p)
    | inr (d, more, g) ↦
        let later : has_change r p (take n es) ≡ true =
          page_covers n es r p l (ground (arith, sorted)) (ground (arith, here, f))
            (ground (arith, at, g)) behind in
        ground (arith, later)
  ]
]

take-whole : (n : ℕ) (es : List ChangeEntry) → length (take n es) < n → take n es ≡ es
take-whole zero es short = ground (arith, short)
take-whole (suc n) [] short = refl
take-whole (suc n) (e ∷ es) short = ap (◌∷◌ e) (take-whole n es (omega (arith, short)))

length-map : (b : Bool) (es : List ChangeEntry) → length (map (scanned b) es) ≡ length es
length-map b [] = refl
length-map b (e ∷ es) = ap suc (length-map b es)

last_entry-map :
    (b : Bool) (es : List ChangeEntry)
    → ((last_entry (map (scanned b) es) ≡ none) × (es ≡ []))
      ⊎ ((l : ChangeEntry) × (last_entry (map (scanned b) es) ≡ some (scanned b l))
          × (last_entry es ≡ some l))
unfolding last_entry
last_entry-map b [] = inl (refl, refl)
last_entry-map b (e ∷ []) = inr (e, refl, refl)
last_entry-map b (e ∷ d ∷ es) = elim (last_entry-map b (d ∷ es)) [
  | inl f ↦ let bad : ⊥ = ground (arith, f) in absurd bad
  | inr (l, f, g) ↦ inr (l, f, g)
]

next_cursor-covers :
    (limit last_rev : ℕ) (b : Bool) (es : List ChangeEntry) (r : ℕ) (p : Text)
    → 0 < limit
    → is_sorted es ≡ true
    → has_change r p es ≡ true
    → comes_after
        (next_cursor limit last_rev (map (scanned b) (take limit es))).0
        (next_cursor limit last_rev (map (scanned b) (take limit es))).1
        r
        p
      ≡ false
    → has_change r p (map (scanned b) (take limit es)) ≡ true
unfolding next_cursor
next_cursor-covers limit last_rev b es r p some_room sorted here behind =
    rw (has_change-scanned r p b (take limit es))
      (elim (Bool-cases (ltb (length (take limit es)) limit)) [
        | inl f ↦ rw (take-whole limit es (ground (arith, f))) here
        | inr f ↦ elim (last_entry-map b (take limit es)) [
          | inl (g, h) ↦ let bad : ⊥ = ground (arith, f, h, some_room) in absurd bad
          | inr (l, g, h) ↦
              page_covers limit es r p l sorted here h
                (ground (arith, f, g, behind, length-map b (take limit es)))
        ]
      ])

-- A page that is answered without asking for a new start has every change that lies in the subtree, behind the old cursor
-- and not behind the new one, and whose path is permitted: a mirror that follows the cursor skips none.
pub fetch_skips_nothing :
    (sql : Sqlite) (chars : Text → ℕ) (permits : Text → Bool) (subtree : Text) (req : FetchRequest)
    (db db' : Db) (resp : FetchResponse) (r : ℕ) (p : Text)
    → fetch_changes sql chars permits subtree req db db' ≡ ok resp
    → resp.resync_required ≡ false
    → has_change r p (
        filter
          (λ e. is_after req.cursor_rev req.cursor_path e && in_subtree sql chars subtree e)
          (feed sql chars db'))
      ≡ true
    → comes_after resp.next_rev resp.next_path r p ≡ false
    → permits p ≡ true
    → has_change r p resp.entries ≡ true
unfolding fetch_changes query_changes
fetch_skips_nothing sql chars permits subtree req db db' resp r p done no_resync here behind
      allowed =
    let limit = clamped req.limit in
    let wanted =
      filter (λ e. is_after req.cursor_rev req.cursor_path e && in_subtree sql chars subtree e)
        (feed sql chars db') in
    let page = map (scanned req.include_chunks) (take limit (sort wanted)) in
    let on_page : comes_after (next_cursor limit db.last_rev page).0
            (next_cursor limit db.last_rev page).1 r p
          ≡ false
        → has_change r p page ≡ true =
      next_cursor-covers limit db.last_rev req.include_chunks (sort wanted) r p (ground arith)
        (sorted-sort wanted) (ground (arith, here, has_change-sort r p wanted)) in
    ground (arith, done, no_resync, behind, allowed, on_page, has_change-permitted r p permits page)
