-- ===== src/Manifest/Feed/Order.antt =====
-- The order of the feed: sorting keeps the keys, and what a page leaves out is not before its last entry.
use orlop.Prelude.{
  ℕ, Text, Bool, true, false, List, [], ◌∷◌, ◌&&◌, ◌||◌, not, ◌==◌, eqb, precedes, precedes_trans,
  precedes_total, precedes_irrefl, ◌≡◌, refl, arith, Bool-cases, inl, inr,
}
use orlop.Manifest.Feed.{ChangeEntry, comes_after, insert_by_key, sort}

-- Whether an entry has the revision and the path.
abbrev pub is_at : ℕ → Text → ChangeEntry → Bool
is_at rev path e = e.rev == rev && eqb e.path path

unfoldable pub has_change : ℕ → Text → List ChangeEntry → Bool
has_change rev path [] = false
has_change rev path (e ∷ es) = is_at rev path e || has_change rev path es

-- No entry comes before the key.
abbrev pub none_before : ℕ → Text → List ChangeEntry → Bool
none_before rev path [] = true
none_before rev path (e ∷ es) = not (comes_after e.rev e.path rev path) && none_before rev path es

abbrev pub is_sorted : List ChangeEntry → Bool
is_sorted [] = true
is_sorted (e ∷ es) = none_before e.rev e.path es && is_sorted es

pub has_change-insert_by_key :
    (r : ℕ) (p : Text) (e : ChangeEntry) (es : List ChangeEntry)
    → has_change r p (insert_by_key e es) ≡ (is_at r p e || has_change r p es)
unfolding has_change insert_by_key
has_change-insert_by_key r p e [] = refl
has_change-insert_by_key r p e (d ∷ ds) = ground (arith, has_change-insert_by_key r p e ds)

pub has_change-sort :
    (r : ℕ) (p : Text) (es : List ChangeEntry) → has_change r p (sort es) ≡ has_change r p es
unfolding has_change sort
has_change-sort r p [] = refl
has_change-sort r p (e ∷ es) =
    ground (arith, has_change-sort r p es, has_change-insert_by_key r p e (sort es))

comes_after_asym :
    (r : ℕ) (p : Text) (r' : ℕ) (p' : Text)
    → comes_after r p r' p' ≡ true
    → comes_after r' p' r p ≡ false
unfolding comes_after
comes_after_asym r p r' p' e =
    ground (arith, e, precedes_trans p p' p, precedes_irrefl p, Bool-cases (precedes p' p))

comes_after_trans :
    (r : ℕ) (p : Text) (r' : ℕ) (p' : Text) (r'' : ℕ) (p'' : Text)
    → comes_after r p r' p' ≡ true
    → comes_after r' p' r'' p'' ≡ true
    → comes_after r p r'' p'' ≡ true
unfolding comes_after
comes_after_trans r p r' p' r'' p'' e f = ground (arith, e, f, precedes_trans p p' p'')

pub comes_after_total :
    (r : ℕ) (p : Text) (r' : ℕ) (p' : Text)
    → comes_after r p r' p' ≡ false
    → comes_after r' p' r p ≡ false
    → (r ≡ r') × (p ≡ p')
unfolding comes_after
comes_after_total r p r' p' e f = (ground (arith, e, f), ground (arith, e, f, precedes_total p p'))

-- A key that does not come after another comes before no entry that the other does not come after.
none_before_trans :
    (r : ℕ) (p : Text) (r' : ℕ) (p' : Text) (es : List ChangeEntry)
    → comes_after r p r' p' ≡ false
    → none_before r p es ≡ true
    → none_before r' p' es ≡ true
none_before_trans r p r' p' [] e f = refl
none_before_trans r p r' p' (d ∷ ds) e f = ground (
  arith,
  e,
  f,
  none_before_trans r p r' p' ds e,
  comes_after_total r p r' p' e,
  comes_after_trans d.rev d.path r' p' r p,
  Bool-cases (comes_after r' p' r p),
  Bool-cases (comes_after d.rev d.path r' p'),
)

none_before-insert_by_key :
    (r : ℕ) (p : Text) (e : ChangeEntry) (es : List ChangeEntry)
    → none_before r p (insert_by_key e es)
      ≡ (not (comes_after e.rev e.path r p) && none_before r p es)
unfolding insert_by_key
none_before-insert_by_key r p e [] = refl
none_before-insert_by_key r p e (d ∷ ds) = ground (arith, none_before-insert_by_key r p e ds)

sorted-insert_by_key :
    (e : ChangeEntry) (es : List ChangeEntry)
    → is_sorted es ≡ true
    → is_sorted (insert_by_key e es) ≡ true
unfolding insert_by_key
sorted-insert_by_key e [] sorted = refl
sorted-insert_by_key e (d ∷ ds) sorted = elim (Bool-cases (comes_after d.rev d.path e.rev e.path)) [
  | inl f ↦ rw f (
      ground (
        arith,
        sorted,
        sorted-insert_by_key e ds,
        none_before-insert_by_key d.rev d.path e ds,
        comes_after_asym d.rev d.path e.rev e.path f,
      ))
  | inr f ↦ rw f (ground (arith, sorted, f, none_before_trans d.rev d.path e.rev e.path ds f))
]

pub sorted-sort : (es : List ChangeEntry) → is_sorted (sort es) ≡ true
unfolding sort
sorted-sort [] = refl
sorted-sort (e ∷ es) = sorted-insert_by_key e (sort es) (sorted-sort es)
