-- ===== src/Manifest/Ownership/Names.antt =====
-- The shape of `manifests` (its paths, the names of each inode, the bound on inodes) through the
-- statements that change it.
use orlop.Prelude.{
  find, delete_key, ℕ, Text, none, List, [], ◌∷◌, ◌≡◌, refl, inl, inr, ◌==◌, All, arith, eqb,
  Bool-cases, if◌then◌else◌,
}
use orlop.Manifest.Db.{ManifestRow, manifest_path, update_inode}
use orlop.Manifest.Ownership.{IsAliasOf, Shared, UniquePaths}

module _ (P : ManifestRow → Type 0) where
  pub All-delete_key :
      (p : Text) (rows : List ManifestRow) → All P rows → All P (delete_key manifest_path p rows)
  unfolding delete_key
  All-delete_key p [] a = tt
  All-delete_key p (s ∷ rows) (a, more) = elim (Bool-cases (eqb s.path p)) [
    | inl f ↦ rw f (All-delete_key p rows more)
    | inr f ↦ rw f (a, All-delete_key p rows more)
  ]

pub Shared-delete_key :
    (p : Text) (rows : List ManifestRow) → Shared rows → Shared (delete_key manifest_path p rows)
unfolding delete_key
Shared-delete_key p [] a = tt
Shared-delete_key p (s ∷ rows) (a, more) = elim (Bool-cases (eqb s.path p)) [
  | inl f ↦ rw f (Shared-delete_key p rows more)
  | inr f ↦ rw f (All-delete_key (IsAliasOf s) p rows a, Shared-delete_key p rows more)
]

find-delete_key :
    (p q : Text) (rows : List ManifestRow)
    → find manifest_path q rows ≡ none
    → find manifest_path q (delete_key manifest_path p rows) ≡ none
unfolding find delete_key
find-delete_key p q [] e = refl
find-delete_key p q (s ∷ rows) e = ground (arith, e, find-delete_key p q rows)

pub UniquePaths-delete_key :
    (p : Text) (rows : List ManifestRow)
    → UniquePaths rows
    → UniquePaths (delete_key manifest_path p rows)
unfolding delete_key
UniquePaths-delete_key p [] a = tt
UniquePaths-delete_key p (s ∷ rows) (a, more) = elim (Bool-cases (eqb s.path p)) [
  | inl f ↦ rw f (UniquePaths-delete_key p rows more)
  | inr f ↦ rw f (find-delete_key p s.path rows a, UniquePaths-delete_key p rows more)
]

-- The row that `update ... where inode_id = i` leaves in the place of another.
abbrev pub updated : ℕ → (ManifestRow → ManifestRow) → ManifestRow → ManifestRow
updated i f r = if r.inode_id == i then f r else r

module _ (i : ℕ) (f : ManifestRow → ManifestRow)
    (same : (r : ManifestRow) → (f r).path ≡ r.path) where
  find-update_inode :
      (q : Text) (rows : List ManifestRow)
      → find manifest_path q rows ≡ none
      → find manifest_path q (update_inode i f rows) ≡ none
  unfolding find update_inode
  find-update_inode q [] e = refl
  find-update_inode q (s ∷ rows) e = ground (arith, e, same s, find-update_inode q rows)

  pub UniquePaths-update_inode :
      (rows : List ManifestRow) → UniquePaths rows → UniquePaths (update_inode i f rows)
  unfolding update_inode
  UniquePaths-update_inode [] u = tt
  UniquePaths-update_inode (s ∷ rows) (u, us) = elim (Bool-cases (s.inode_id == i)) [
    | inl e ↦ rw (e, same s) (find-update_inode s.path rows u, UniquePaths-update_inode rows us)
    | inr e ↦ rw e (find-update_inode s.path rows u, UniquePaths-update_inode rows us)
  ]

module _ (i : ℕ) (f : ManifestRow → ManifestRow) (P Q : ManifestRow → Type 0) where
  pub All-update_inode :
      ((s : ManifestRow) → P s → Q (updated i f s))
      → (rows : List ManifestRow) → All P rows
      → All Q (update_inode i f rows)
  unfolding update_inode
  All-update_inode each [] a = tt
  All-update_inode each (s ∷ rows) (a, more) = (each s a, All-update_inode each rows more)

module _ (i : ℕ) (f : ManifestRow → ManifestRow)
    (each : (r s : ManifestRow) → IsAliasOf r s → IsAliasOf (updated i f r) (updated i f s)) where
  pub Shared-update_inode : (rows : List ManifestRow) → Shared rows → Shared (update_inode i f rows)
  unfolding update_inode
  Shared-update_inode [] a = tt
  Shared-update_inode (s ∷ rows) (a, more) = (
    All-update_inode i f (IsAliasOf s) (IsAliasOf (updated i f s)) (each s) rows a,
    Shared-update_inode rows more,
  )
