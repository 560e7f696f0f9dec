-- ===== src/Tests/Feed.antt =====
-- The theorem on the pages of the change feed at a concrete database.
use orlop.Prelude.{
  ℕ, Text, text, text_dec, true, false, [], ◌∷◌, length, ◌&&◌, precedes, find, Outcome, ok, err,
  ◌≡◌, ◌⊎◌, refl, arith, eqb_iff, inl, filter,
}
use orlop.Manifest.Db.{Db, ManifestRow, nlink}
use orlop.Manifest.Nodes.{special_node_kind}
use orlop.Manifest.Rename.Subtree.{escape_like}
use orlop.Manifest.Feed.{
  FetchRequest, FetchResponse, comes_after, is_after, insert_by_key, sort, dir_changes, feed,
  in_subtree, query_changes, last_entry, next_cursor, fetch_changes,
}
use orlop.Manifest.Feed.Order.{has_change}
use orlop.Manifest.Feed.Pages.{fetch_skips_nothing}
use orlop.Manifest.Feed.Pruning.{
  has_tombstone, prune_tombstones, max_pruned, keep_recent, pruned_deletion_resyncs,
}
use orlop.Manifest.Collection.{
  sweep_batch, delete_gc_batch, select_gc_candidates, garbage_by_age, insert_by_age, meets_garbage,
  delete_garbage,
}
use orlop.Manifest.Collection.Safety.{has_unique_hashes, is_among, sweep_batch-IsSound}
use orlop.Manifest.Ownership.{owned, IsSound}
use orlop.Manifest.Chunks.{occurrences}
use orlop.Paths.{has_prefix}
use orlop.Tests.Runs.{sqlite}

abbrev file : Text → ℕ → ManifestRow
file p rev = record {
  path = p;
  inode_id = rev;
  size = 0;
  mode = 420;
  mtime = 0;
  version = 1;
  chunks = [];
  uid = 0;
  gid = 0;
  atime = 0;
  rev = rev;
}

-- Two files, a directory and a removed path of the agent "a", at revisions 1 to 4.
abbrev changed : Db
changed = record {
  manifests = file (text "/a/y") 3 ∷ file (text "/a/x") 2 ∷ [];
  symlinks = [];
  special_nodes = [];
  dir_entries =
      record {
        parent = text "/";
        name = text "a";
        mode = 0;
        mtime = 0;
        uid = 0;
        gid = 0;
        atime = 0;
        rev = 1;
      }
      ∷ [];
  chunks = [];
  tombstones = record { path = text "/a/z"; rev = 4; ts_unix_ms = 9 } ∷ [];
  journal = [];
  next_inode = 5;
  last_rev = 4;
  pruned_before_rev = 0;
}

abbrev request : FetchRequest
request = record {
  sync_protocol = 1;
  cursor_rev = 0;
  cursor_path = [];
  limit = 2;
  include_chunks = false;
}

abbrev response : Outcome (Unit {0}) FetchResponse → FetchResponse
response (ok resp) = resp
response (err e) = record {
  entries = [];
  next_rev = 0;
  next_path = [];
  current_rev = 0;
  resync_required = true;
  subtree = [];
}

abbrev page : FetchResponse
page = response (fetch_changes sqlite length (λ p. true) (text "/a") request changed changed)

fetched : fetch_changes sqlite length (λ p. true) (text "/a") request changed changed ≡ ok page
unfolding fetch_changes query_changes feed dir_changes filter sort insert_by_key comes_after
    precedes text_dec escape_like find nlink has_prefix next_cursor last_entry special_node_kind
fetched = refl

-- The page ends with the file of revision 2.
next_is_x : (page.next_rev ≡ 2) × (page.next_path ≡ text "/a/x") × (page.resync_required ≡ false)
unfolding fetch_changes query_changes feed dir_changes filter sort insert_by_key comes_after
    precedes text_dec escape_like find nlink has_prefix next_cursor last_entry special_node_kind
next_is_x = (refl, refl, refl)

x_is_wanted :
    has_change 2 (text "/a/x") (
      filter
        (λ e. is_after 0 [] e && in_subtree sqlite length (text "/a") e)
        (feed sqlite length changed))
    ≡ true
unfolding has_change filter comes_after precedes text_dec escape_like feed dir_changes find nlink
    has_prefix
x_is_wanted = refl

x_is_not_behind : comes_after page.next_rev page.next_path 2 (text "/a/x") ≡ false
unfolding fetch_changes query_changes feed dir_changes filter sort insert_by_key comes_after
    precedes text_dec escape_like find nlink has_prefix next_cursor last_entry special_node_kind
x_is_not_behind = refl

fetch_skips_nothing_example : has_change 2 (text "/a/x") page.entries ≡ true
fetch_skips_nothing_example =
    fetch_skips_nothing sqlite length (λ p. true) (text "/a") request changed changed page 2
      (text "/a/x") fetched next_is_x.2 x_is_wanted x_is_not_behind refl

-- The removed path's tombstone is pruned, and a mirror at revision 3 starts again.
abbrev stale : FetchRequest
stale = record {
  sync_protocol = 1;
  cursor_rev = 3;
  cursor_path = text "/a/y";
  limit = 2;
  include_chunks = false;
}

z_is_there : has_tombstone (text "/a/z") 4 changed.tombstones ≡ true
unfolding has_tombstone text_dec
z_is_there = refl

z_is_pruned : has_tombstone (text "/a/z") 4 (prune_tombstones 10 changed).tombstones ≡ false
unfolding has_tombstone prune_tombstones max_pruned keep_recent text_dec
z_is_pruned = refl

pruned_deletion_resyncs_example :
    (resp : FetchResponse) × (fetch_changes sqlite length
        (λ p. true)
        (text "/a")
        stale
        (prune_tombstones 10 changed)
        changed
      ≡ ok resp)
    × (resp.resync_required ≡ true)
pruned_deletion_resyncs_example =
    pruned_deletion_resyncs sqlite length (λ p. true) (text "/a") stale 10 changed changed
      (text "/a/z") 4 z_is_there z_is_pruned refl (omega arith)

-- The database with a chunk that no file has.
abbrev littered : Db
littered = record changed {
  chunks = record { hash = text "g"; size = 9; refcount = 0; added_at = 1 } ∷ [];
}

abbrev unchanged : Db → Db
unchanged db = db

littered-IsSound : IsSound littered
unfolding find owned occurrences nlink text_dec
littered-IsSound = record {
  unique = (refl, (refl, tt));
  shared = ((inl refl, tt), (tt, tt));
  bounded = (omega arith, (omega arith, tt));
  exact = λ h. ground (arith, eqb_iff (text "g") h);
}

littered_unique : has_unique_hashes littered.chunks ≡ true
unfolding find text_dec
littered_unique = refl

g_is_taken : is_among (text "g") (sweep_batch unchanged 100 10 littered).0 ≡ true
unfolding sweep_batch delete_gc_batch select_gc_candidates garbage_by_age insert_by_age
    meets_garbage delete_garbage text_dec
g_is_taken = refl

sweep_batch-IsSound_example :
    IsSound (sweep_batch unchanged 100 10 littered).2
    × ((is_among (text "g") (sweep_batch unchanged 100 10 littered).0 ≡ false)
        ⊎ (owned (text "g") littered.manifests ≡ 0))
sweep_batch-IsSound_example =
    sweep_batch-IsSound unchanged 100 10 littered (text "g") littered-IsSound littered_unique
