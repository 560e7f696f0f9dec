-- ===== src/Manifest/Feed/Pruning.antt =====
-- Tombstones that are pruned: pruneTombstones of changes.go, and cursors that would have missed them.
use orlop.Prelude.{
  ℕ, ◌+◌, ◌≤◌, Text, Bool, true, false, Option, none, some, List, [], ◌∷◌, ◌&&◌, ◌||◌, not, ltb,
  leb, ◌==◌, ==_iff, eqb, if◌then◌else◌, ok, ◌≡◌, arith, Option-cases, Result-cases, inl, inr,
}
use orlop.Manifest.Db.{Db, TombstoneRow}
use orlop.Manifest.Rename.Subtree.{Sqlite}
use orlop.Manifest.Feed.{FetchRequest, FetchResponse, fetch_changes}

abbrev is_old : ℕ → TombstoneRow → Bool
is_old cutoff t = ltb t.ts_unix_ms cutoff

-- select max(rev) from change_tombstones where ts_unix_ms < ?
unfoldable pub max_pruned : ℕ → List TombstoneRow → Option ℕ
max_pruned cutoff [] = none
max_pruned cutoff (t ∷ ts) =
    let rest = max_pruned cutoff ts in
    if not (is_old cutoff t)
    then rest
    else (elim rest [ none ↦ some t.rev | some r ↦ some (if ltb r t.rev then t.rev else r) ])

unfoldable pub keep_recent : ℕ → List TombstoneRow → List TombstoneRow
keep_recent cutoff [] = []
keep_recent cutoff (t ∷ ts) =
    let rest = keep_recent cutoff ts in if is_old cutoff t then rest else t ∷ rest

unfoldable pub prune_tombstones : ℕ → Db → Db
prune_tombstones cutoff db = elim (max_pruned cutoff db.tombstones) [
  | none ↦ db
  | some r ↦ record db {
    tombstones = keep_recent cutoff db.tombstones;
    pruned_before_rev = if ltb db.pruned_before_rev (r + 1) then r + 1 else db.pruned_before_rev;
  }
]

unfoldable pub has_tombstone : Text → ℕ → List TombstoneRow → Bool
has_tombstone p rev [] = false
has_tombstone p rev (t ∷ ts) = (eqb t.path p && t.rev == rev) || has_tombstone p rev ts

abbrev covers : Option ℕ → ℕ → Bool
covers none rev = false
covers (some r) rev = leb rev r

-- A tombstone that the pruning takes has a revision of at most the greatest pruned one.
max_pruned-covers :
    (cutoff : ℕ) (p : Text) (rev : ℕ) (ts : List TombstoneRow)
    → has_tombstone p rev ts ≡ true
    → has_tombstone p rev (keep_recent cutoff ts) ≡ false
    → covers (max_pruned cutoff ts) rev ≡ true
unfolding has_tombstone keep_recent max_pruned
max_pruned-covers cutoff p rev [] here gone = ground (arith, here)
max_pruned-covers cutoff p rev (t ∷ ts) here gone = ground (
  arith,
  here,
  gone,
  max_pruned-covers cutoff p rev ts,
  Option-cases (max_pruned cutoff ts),
  ==_iff t.rev rev,
)

-- A mirror whose cursor has not passed a deletion that the pruning took is told to start again if its cursor is at
-- revision 1 or later, and is not told if it is at revision 0, at whatever path of that revision.
pub pruned_deletion_resyncs :
    (sql : Sqlite) (chars : Text → ℕ) (permits : Text → Bool) (subtree : Text) (req : FetchRequest)
    (cutoff : ℕ) (db later : Db) (p : Text) (rev : ℕ)
    → has_tombstone p rev db.tombstones ≡ true
    → has_tombstone p rev (prune_tombstones cutoff db).tombstones ≡ false
    → req.sync_protocol ≡ 1
    → req.cursor_rev ≤ rev
    → (resp : FetchResponse) × (fetch_changes sql chars permits subtree req
          (prune_tombstones cutoff db)
          later
        ≡ ok resp)
      × (resp.resync_required ≡ ltb 0 req.cursor_rev)
unfolding fetch_changes prune_tombstones
pruned_deletion_resyncs sql chars permits subtree req cutoff db later p rev here gone spoken
      behind =
    elim (Option-cases (max_pruned cutoff db.tombstones)) [
      | inl e ↦ let bad : ⊥ = ground (arith, here, gone, e) in absurd bad
      | inr (r, e) ↦
          let covered =
            max_pruned-covers cutoff p rev db.tombstones here (ground (arith, gone, e)) in
          elim (Result-cases
            (fetch_changes sql chars permits subtree req (prune_tombstones cutoff db) later)) [
              | inl (resp, f) ↦ (resp, f, ground (arith, e, f, covered, spoken, behind))
              | inr (x, f) ↦ ground (arith, e, f, spoken)
            ]
    ]
