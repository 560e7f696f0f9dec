-- ===== src/Manifest/Ownership.antt =====
-- What the chunk refcounts of a tenant's database mean: every inode owns the chunks of its list,
-- however many names it has.
pub mod Rows
pub mod Names
pub mod Changes
pub mod Put
pub mod Total
pub mod Unlink
pub mod Paths
pub mod Rename
use orlop.Prelude.{
  find, ℕ, ◌+◌, ◌≤◌, Text, Bool, true, false, Option, none, some, List, [], ◌∷◌, ◌≡◌, ◌⊎◌, ◌==◌,
  All, if◌then◌else◌,
}
use orlop.Manifest.Db.{ChunkRow, ManifestRow, manifest_path, nlink, Db}
use orlop.Manifest.Chunks.{occurrences, refcount}

-- The occurrences of a hash in the lists of all inodes; an inode counts at the last of its rows.
unfoldable pub owned : Text → List ManifestRow → ℕ
owned h [] = 0
owned h (r ∷ rs) = (if nlink r.inode_id rs == 0 then occurrences h r.chunks else 0) + owned h rs

-- Names of one inode have its chunks and its version.
abbrev pub IsAliasOf : ManifestRow → ManifestRow → Type 0
IsAliasOf r s =
    ((s.inode_id == r.inode_id) ≡ false) ⊎ ((s.chunks ≡ r.chunks) × (s.version ≡ r.version))

abbrev pub Shared : List ManifestRow → Type 0
Shared [] = Unit {0}
Shared (r ∷ rs) = All (IsAliasOf r) rs × Shared rs

abbrev pub UniquePaths : List ManifestRow → Type 0
UniquePaths [] = Unit {0}
UniquePaths (r ∷ rs) = (find manifest_path r.path rs ≡ none) × UniquePaths rs

abbrev pub Bounded : ℕ → List ManifestRow → Type 0
Bounded n rows = All (λ r. r.inode_id ≤ n) rows

-- The refcounts are exact, one row for each path, no inode beyond the counter.
pub record Sound (next : ℕ) (rows : List ManifestRow) (chunks : List ChunkRow) : Type 0 where
  pub unique : UniquePaths rows
  pub shared : Shared rows
  pub bounded : Bounded next rows
  pub exact : (h : Text) → refcount h chunks ≡ owned h rows

abbrev pub IsSound : Db → Type 0
IsSound db = Sound db.next_inode db.manifests db.chunks
