-- ===== src/Manifest/Ownership/Rows.antt =====
-- How the statements on `manifests` move the ownership of chunks.
use orlop.Prelude.{
  find, delete_key, ℕ, ◌+◌, ◌≤◌, Text, false, none, some, List, [], ◌∷◌, ◌≡◌, refl, ◌⊎◌, inl, inr,
  ◌==◌, All, arith, eqb, eqb_iff, Bool-cases, subst, suc, if◌then◌else◌,
}
use orlop.Manifest.Db.{ChunkRef, ManifestRow, manifest_path, nlink, update_inode}
use orlop.Manifest.Chunks.{occurrences}
use orlop.Manifest.Ownership.{owned, IsAliasOf, Shared, UniquePaths, Bounded}

-- What holds of all rows holds of the one that is found.
pub All-find :
    (P : ManifestRow → Type 0) (p : Text) (r : ManifestRow) (rows : List ManifestRow)
    → All P rows
    → find manifest_path p rows ≡ some r
    → P r
unfolding find
All-find P p r [] a e = ground (arith, e)
All-find P p r (s ∷ rows) (a, more) e = elim (Bool-cases (eqb s.path p)) [
  | inl f ↦ subst P (ground (arith, e, f)) a
  | inr f ↦ All-find P p r rows more (ground (arith, e, f))
]

pub path-find :
    (p : Text) (r : ManifestRow) (rows : List ManifestRow)
    → find manifest_path p rows ≡ some r
    → r.path ≡ p
unfolding find
path-find p r [] e = ground (arith, e)
path-find p r (s ∷ rows) e = ground (arith, e, eqb_iff s.path p, path-find p r rows)

pub nlink-find :
    (p : Text) (r : ManifestRow) (rows : List ManifestRow)
    → find manifest_path p rows ≡ some r
    → 1 ≤ nlink r.inode_id rows
unfolding find nlink
nlink-find p r [] e = ground (arith, e)
nlink-find p r (s ∷ rows) e = ground (arith, e, nlink-find p r rows)

pub nlink-Bounded :
    (n i : ℕ) (rows : List ManifestRow) → Bounded n rows → (suc n ≤ i) → nlink i rows ≡ 0
unfolding nlink
nlink-Bounded n i [] b lt = refl
nlink-Bounded n i (s ∷ rows) (b, bs) lt = ground (arith, b, lt, nlink-Bounded n i rows bs lt)

module _ (i : ℕ) (f : ManifestRow → ManifestRow)
    (keeps : (r : ManifestRow) → (f r).inode_id ≡ r.inode_id) where
  pub nlink-update_inode :
      (j : ℕ) (rows : List ManifestRow) → nlink j (update_inode i f rows) ≡ nlink j rows
  unfolding nlink update_inode
  nlink-update_inode j [] = refl
  nlink-update_inode j (r ∷ rows) = ground (arith, keeps r, nlink-update_inode j rows)

  -- The rows of an inode that get another chunk list.
  pub owned-update_inode :
      (old new : List ChunkRef)
      → ((r : ManifestRow) → (f r).chunks ≡ new)
      → (rows : List ManifestRow) → All (λ s. ((s.inode_id == i) ≡ false) ⊎ (s.chunks ≡ old)) rows
      → (h : Text)
      → owned h (update_inode i f rows) + (if nlink i rows == 0 then 0 else occurrences h old)
        ≡ owned h rows + (if nlink i rows == 0 then 0 else occurrences h new)
  unfolding owned nlink update_inode
  owned-update_inode old new sets [] a h = refl
  owned-update_inode old new sets (r ∷ rows) (a, more) h = ground (
    arith,
    a,
    keeps r,
    sets r,
    owned-update_inode old new sets rows more h,
    nlink-update_inode r.inode_id rows,
  )

  -- The rows of an inode that keep theirs.
  pub owned-stamp :
      ((r : ManifestRow) → (f r).chunks ≡ r.chunks)
      → (rows : List ManifestRow) (h : Text) → owned h (update_inode i f rows) ≡ owned h rows
  unfolding owned nlink update_inode
  owned-stamp same [] h = refl
  owned-stamp same (r ∷ rows) h =
      ground (arith, keeps r, same r, owned-stamp same rows h, nlink-update_inode r.inode_id rows)

delete_absent :
    (p : Text) (rows : List ManifestRow)
    → find manifest_path p rows ≡ none
    → delete_key manifest_path p rows ≡ rows
unfolding find delete_key
delete_absent p [] e = refl
delete_absent p (r ∷ rows) e = ground (arith, e, delete_absent p rows)

-- The row that goes takes its chunks with it when it is the last name of its inode.
pub nlink-delete_key :
    (j : ℕ) (p : Text) (r : ManifestRow) (rows : List ManifestRow)
    → UniquePaths rows
    → find manifest_path p rows ≡ some r
    → nlink j (delete_key manifest_path p rows) + (if r.inode_id == j then 1 else 0) ≡ nlink j rows
unfolding find nlink delete_key
nlink-delete_key j p r [] u e = ground (arith, e)
nlink-delete_key j p r (s ∷ rows) (u, us) e = elim (Bool-cases (eqb s.path p)) [
  | inl f ↦ ground (
    arith,
    e,
    f,
    eqb_iff s.path p,
    u,
    delete_absent p rows (ground (arith, u, f, eqb_iff s.path p)),
  )
  | inr f ↦ ground (arith, e, f, nlink-delete_key j p r rows us)
]

pub owned-delete_key :
    (p : Text) (r : ManifestRow) (rows : List ManifestRow)
    → UniquePaths rows
    → Shared rows
    → find manifest_path p rows ≡ some r
    → (h : Text)
    → owned h (delete_key manifest_path p rows)
        + (if nlink r.inode_id rows == 1 then occurrences h r.chunks else 0)
      ≡ owned h rows
unfolding owned find nlink delete_key
owned-delete_key p r [] u sh e h = ground (arith, e)
owned-delete_key p r (s ∷ rows) (u, us) (sh, shs) e h = elim (Bool-cases (eqb s.path p)) [
  | inl f ↦ ground (
    arith,
    e,
    f,
    eqb_iff s.path p,
    u,
    delete_absent p rows (ground (arith, u, f, eqb_iff s.path p)),
  )
  | inr f ↦
      let g : find manifest_path p rows ≡ some r = ground (arith, e, f) in
      ground (
        arith,
        f,
        owned-delete_key p r rows us shs g h,
        nlink-delete_key s.inode_id p r rows us g,
        nlink-find p r rows g,
        All-find (IsAliasOf s) p r rows sh g,
      )
]
