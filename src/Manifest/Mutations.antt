-- ===== src/Manifest/Mutations.antt =====
-- The mutations of the manifest store, one after another: each is one transaction, and a failed one
-- leaves the database as it was.
pub mod Soundness
use orlop.Prelude.{ok, err, ℕ, Text, Bool, Option, List, [], ◌∷◌}
use orlop.Manifest.Db.{Manifest, Db, Result}
use orlop.Manifest.Chunks.{note_chunk_stored}
use orlop.Manifest.Journal.{Writer}
use orlop.Manifest.Store.{put_with_lease_check}
use orlop.Manifest.Links.{link_with_lease_check, delete_with_lease_check}
use orlop.Manifest.Nodes.{register_dir, dir_create, symlink, mknod, dir_remove}
use orlop.Manifest.Attrs.{set_mode, set_owner, set_atime}
use orlop.Manifest.Rename.Subtree.{Sqlite}
use orlop.Manifest.Rename.{rename_with_lease_check}

-- A call of the store that may change rows; `hex` is the active lease of the connection.
pub data Mutation : Type 0 where
  puts :
      (present : Option (Text → Bool)) (now : ℕ) (p : Text) (expected : ℕ) (mf : Manifest)
      (w : Writer) (hex : Text)
      → Mutation
  links : (now : ℕ) (from to : Text) (w : Writer) (hex : Text) → Mutation
  deletes : (now : ℕ) (p : Text) (expected : ℕ) (w : Writer) (hex : Text) → Mutation
  renames :
      (now : ℕ) (from to : Text) (expected_from expected_to : ℕ) (no_replace : Bool) (w : Writer)
      (hex : Text)
      → Mutation
  registers : (parent name : Text) → Mutation
  makes_dir : (p : Text) (mode : ℕ) → Mutation
  removes_dir : (now : ℕ) (p : Text) → Mutation
  makes_symlink : (p target : Text) (mode : ℕ) → Mutation
  makes_node : (p : Text) (mode rdev : ℕ) → Mutation
  sets_mode :
      (present : Option (Text → Bool)) (now : ℕ) (p : Text) (mode : ℕ) (w : Writer) (hex : Text)
      → Mutation
  sets_owner : (p : Text) (uid gid : ℕ) → Mutation
  sets_atime : (p : Text) (atime : ℕ) → Mutation
  stores_chunk : (hash : Text) (size added_at : ℕ) → Mutation

-- The database after a transaction that may have been rolled back.
abbrev pub committed : Db → Result Db → Db
committed db (ok d) = d
committed db (err e) = db

abbrev pub committed_with : Db → Result (ℕ × Db) → Db
committed_with db (ok (n, d)) = d
committed_with db (err e) = db

module _ (sql : Sqlite) where
  unfoldable pub step : Db → Mutation → Db
  step db (puts present now p expected mf w hex) =
      committed_with db (put_with_lease_check present now p expected mf w hex db)
  step db (links now from to w hex) = committed_with db (link_with_lease_check now from to w hex db)
  step db (deletes now p expected w hex) =
      committed db (delete_with_lease_check now p expected w hex db)
  step db (renames now from to expected_from expected_to no_replace w hex) =
      committed_with db
        (rename_with_lease_check sql now from to expected_from expected_to no_replace w hex db)
  step db (registers parent name) = register_dir parent name db
  step db (makes_dir p mode) = committed db (dir_create p mode db)
  step db (removes_dir now p) = committed db (dir_remove sql.glob now p db)
  step db (makes_symlink p target mode) = committed db (symlink p target mode db)
  step db (makes_node p mode rdev) = committed db (mknod p mode rdev db)
  step db (sets_mode present now p mode w hex) = committed db (set_mode present now p mode w hex db)
  step db (sets_owner p uid gid) = committed db (set_owner p uid gid db)
  step db (sets_atime p atime) = committed db (set_atime p atime db)
  step db (stores_chunk hash size added_at) = record db {
    chunks = note_chunk_stored hash size added_at db.chunks;
  }

  unfoldable pub run : Db → List Mutation → Db
  run db [] = db
  run db (c ∷ cs) = run (step db c) cs

-- The database of a new tenant.
abbrev pub new_db : Db
new_db = record {
  manifests = [];
  symlinks = [];
  special_nodes = [];
  dir_entries = [];
  chunks = [];
  tombstones = [];
  journal = [];
  next_inode = 0;
  last_rev = 0;
  pruned_before_rev = 0;
}
