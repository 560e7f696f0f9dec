-- ===== src/Manifest/Ownership/Changes.antt =====
-- Soundness through each kind of change to `manifests`.
use orlop.Prelude.{
  find, delete_key, ℕ, ◌+◌, ◌≤◌, Text, false, none, some, List, [], ◌∷◌, ◌≡◌, refl, ◌⊎◌, inl, inr,
  ◌==◌, All, arith, eqb, Bool-cases, subst, if◌then◌else◌,
}
use orlop.Manifest.Db.{
  ChunkRef, ChunkRow, Manifest, ManifestRow, manifest_path, nlink, update_inode, Db,
}
use orlop.Manifest.Chunks.{occurrences, refcount}
use orlop.Manifest.Store.{rewritten}
use orlop.Manifest.Ownership.{owned, IsAliasOf, Shared, Sound, IsSound}
use orlop.Manifest.Ownership.Rows.{
  All-find, nlink-find, nlink-Bounded, owned-update_inode, owned-stamp, owned-delete_key,
}
use orlop.Manifest.Ownership.Names.{
  All-update_inode, All-delete_key, Shared-delete_key, UniquePaths-delete_key, Shared-update_inode,
  UniquePaths-update_inode,
}

pub All-weaken :
    (P Q : ManifestRow → Type 0)
    → ((s : ManifestRow) → P s → Q s)
    → (rows : List ManifestRow) → All P rows
    → All Q rows
All-weaken P Q f [] a = tt
All-weaken P Q f (s ∷ rows) (a, more) = (f s a, All-weaken P Q f rows more)

pub aliases :
    (p : Text) (r : ManifestRow) (rows : List ManifestRow)
    → Shared rows
    → find manifest_path p rows ≡ some r
    → All (IsAliasOf r) rows
unfolding find
aliases p r [] sh e = tt
aliases p r (s ∷ rows) (sh, shs) e = elim (Bool-cases (eqb s.path p)) [
  | inl f ↦
      let g : s ≡ r = ground (arith, e, f) in
      subst (λ x. All (IsAliasOf x) (s ∷ rows)) g (inr (refl, refl), sh)
  | inr f ↦
      let g : find manifest_path p rows ≡ some r = ground (arith, e, f) in
      (ground (arith, All-find (IsAliasOf s) p r rows sh g), aliases p r rows shs g)
]

pub Sound-insert :
    (n : ℕ) (rows : List ManifestRow) (cs cs' : List ChunkRow) (r : ManifestRow)
    → Sound n rows cs
    → find manifest_path r.path rows ≡ none
    → r.inode_id ≡ n + 1
    → ((h : Text) → refcount h cs' ≡ refcount h cs + occurrences h r.chunks)
    → Sound (n + 1) (r ∷ rows) cs'
unfolding owned
Sound-insert n rows cs cs' r v e i x = record {
  unique = (e, v.unique);
  shared = (
    All-weaken (λ s. s.inode_id ≤ n) (IsAliasOf r) (λ s le. inl (ground (arith, le, i))) rows
        v.bounded,
    v.shared,
  );
  bounded = (
    omega (arith, i),
    All-weaken (λ s. s.inode_id ≤ n) (λ s. s.inode_id ≤ n + 1) (λ s le. omega (arith, le)) rows
        v.bounded,
  );
  exact = λ h. ground (arith, i, x h, v.exact h, nlink-Bounded n r.inode_id rows v.bounded);
}

pub Sound-rewrite :
    (n : ℕ) (rows : List ManifestRow) (cs cs' : List ChunkRow) (p : Text) (old : ManifestRow)
    (mf : Manifest) (v rev : ℕ)
    → Sound n rows cs
    → find manifest_path p rows ≡ some old
    → ((h : Text)
        → refcount h cs' + occurrences h old.chunks ≡ refcount h cs + occurrences h mf.chunks)
    → Sound n (update_inode old.inode_id (rewritten (some old) mf v rev) rows) cs'
Sound-rewrite n rows cs cs' p old mf v rev sound e x =
    let f : (ManifestRow → ManifestRow) = rewritten (some old) mf v rev in
    let i : ℕ = old.inode_id in
    record {
      unique = UniquePaths-update_inode i f (λ r. refl) rows sound.unique;
      shared = Shared-update_inode i f (λ r s a. ground (arith, a)) rows sound.shared;
      bounded =
          All-update_inode i f (λ s. s.inode_id ≤ n) (λ s. s.inode_id ≤ n)
            (λ s le. ground (arith, le)) rows sound.bounded;
      exact = λ h. ground (
        arith,
        x h,
        sound.exact h,
        nlink-find p old rows e,
        owned-update_inode i f (λ r. refl) old.chunks mf.chunks (λ r. refl) rows
            (All-weaken (IsAliasOf old) (λ s. ((s.inode_id == i) ≡ false) ⊎ (s.chunks ≡ old.chunks))
              (λ s a. ground (arith, a)) rows (aliases p old rows sound.shared e))
            h,
      );
    }

pub IsSound-eq :
    (d : Db) (n : ℕ) (rows : List ManifestRow) (cs : List ChunkRow)
    → d.next_inode ≡ n
    → d.manifests ≡ rows
    → d.chunks ≡ cs
    → Sound n rows cs
    → IsSound d
IsSound-eq d n rows cs a b c v = rw (a, b, c) v

-- A row whose inode has another name: the inode's chunks are counted already.
pub Sound-alias :
    (n : ℕ) (rows : List ManifestRow) (cs : List ChunkRow) (p : Text) (r r' : ManifestRow)
    → Sound n rows cs
    → find manifest_path p rows ≡ some r
    → find manifest_path r'.path rows ≡ none
    → r'.inode_id ≡ r.inode_id
    → r'.chunks ≡ r.chunks
    → r'.version ≡ r.version
    → Sound n (r' ∷ rows) cs
unfolding owned
Sound-alias n rows cs p r r' v e none_at i c ver = record {
  unique = (none_at, v.unique);
  shared = (
    All-weaken (IsAliasOf r) (IsAliasOf r') (λ s a. ground (arith, a, i, c, ver)) rows
        (aliases p r rows v.shared e),
    v.shared,
  );
  bounded = (ground (arith, i, All-find (λ s. s.inode_id ≤ n) p r rows v.bounded e), v.bounded);
  exact = λ h. ground (arith, i, v.exact h, nlink-find p r rows e);
}

-- A statement on all rows of an inode that keeps their paths, inodes, chunks and gives them one version.
module _ (i : ℕ) (f : ManifestRow → ManifestRow) (path : (r : ManifestRow) → (f r).path ≡ r.path)
    (inode : (r : ManifestRow) → (f r).inode_id ≡ r.inode_id)
    (chunks : (r : ManifestRow) → (f r).chunks ≡ r.chunks)
    (version : (r s : ManifestRow) → r.version ≡ s.version → (f r).version ≡ (f s).version) where
  pub Sound-update :
      (n : ℕ) (rows : List ManifestRow) (cs : List ChunkRow)
      → Sound n rows cs
      → Sound n (update_inode i f rows) cs
  Sound-update n rows cs v = record {
    unique = UniquePaths-update_inode i f path rows v.unique;
    shared =
        Shared-update_inode i f
          (λ r s a. ground (arith, a, inode r, inode s, chunks r, chunks s, version s r)) rows
          v.shared;
    bounded =
        All-update_inode i f (λ s. s.inode_id ≤ n) (λ s. s.inode_id ≤ n)
          (λ s le. ground (arith, le, inode s)) rows v.bounded;
    exact = λ h. ground (arith, v.exact h, owned-stamp i f inode chunks rows h);
  }

-- A name goes, and with the last name the chunks.
pub Sound-delete :
    (n : ℕ) (rows : List ManifestRow) (cs cs' : List ChunkRow) (p : Text) (r : ManifestRow)
    → Sound n rows cs
    → find manifest_path p rows ≡ some r
    → ((h : Text)
        → refcount h cs' + (if nlink r.inode_id rows == 1 then occurrences h r.chunks else 0)
          ≡ refcount h cs)
    → Sound n (delete_key manifest_path p rows) cs'
Sound-delete n rows cs cs' p r v e x = record {
  unique = UniquePaths-delete_key p rows v.unique;
  shared = Shared-delete_key p rows v.shared;
  bounded = All-delete_key (λ s. s.inode_id ≤ n) p rows v.bounded;
  exact = λ h. omega (arith, x h, v.exact h, owned-delete_key p r rows v.unique v.shared e h);
}

covers :
    (i : ℕ) (c : List ChunkRef) (h : Text) (rows : List ManifestRow)
    → 1 ≤ nlink i rows
    → All (λ s. ((s.inode_id == i) ≡ false) ⊎ (s.chunks ≡ c)) rows
    → occurrences h c ≤ owned h rows
unfolding owned nlink
covers i c h [] le a = ground (arith, le)
covers i c h (s ∷ rows) le (a, more) = elim (Bool-cases (nlink i rows == 0)) [
  | inl e ↦ ground (arith, le, a, e)
  | inr e ↦ ground (arith, covers i c h rows (ground (arith, e)) more)
]

-- The stored refcounts cover the chunks of every file.
pub Sound-covers :
    (n : ℕ) (rows : List ManifestRow) (cs : List ChunkRow) (p : Text) (r : ManifestRow)
    → Sound n rows cs
    → find manifest_path p rows ≡ some r
    → (h : Text) → occurrences h r.chunks ≤ refcount h cs
Sound-covers n rows cs p r v e h =
    let a : All (λ s. ((s.inode_id == r.inode_id) ≡ false) ⊎ (s.chunks ≡ r.chunks)) rows =
      All-weaken (IsAliasOf r) (λ s. ((s.inode_id == r.inode_id) ≡ false) ⊎ (s.chunks ≡ r.chunks))
        (λ s b. ground (arith, b)) rows (aliases p r rows v.shared e) in
    omega (arith, v.exact h, covers r.inode_id r.chunks h rows (nlink-find p r rows e) a)
