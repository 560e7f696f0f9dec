-- ===== src/Manifest/Ownership/Rename.antt =====
-- `rename` keeps the refcounts exact, for every kind of node.
use orlop.Prelude.{
  Result-cases, ok, find, update_key, ℕ, ◌+◌, Text, Bool, none, some, ◌≡◌, refl, inl, inr, ◌==◌,
  arith, eqb, Bool-cases, Option-cases, subst, ◌&&◌,
}
use orlop.Manifest.Db.{ManifestRow, manifest_path, update_inode, Db, Result, succ64, op_rename}
use orlop.Manifest.Journal.{Writer, alloc_rev, journal_if_session}
use orlop.Manifest.Store.{old_inode}
use orlop.Manifest.Links.{
  NodeKind, node_absent, node_regular, node_symlink, node_special, node_dir, resolve_kind,
  is_absent, release_chunks,
}
use orlop.Manifest.Rename.Steps.{
  delete_dest, displace_file, move_manifest, move_symlink, move_special, journal_rename,
  settle_paths, read_rename_source, is_regular, source_manifest,
}
use orlop.Manifest.Rename.Subtree.{Sqlite, reparent_descendants, tombstone_subtree}
use orlop.Manifest.Rename.{
  overwrite, relocate_file, rename_file, rename_node, rename_onto, move_node, rename,
  resolve_rename_dest,
}
use orlop.Manifest.Peel.{journal_ok}
use orlop.Manifest.Ownership.{IsSound}
use orlop.Manifest.Ownership.Changes.{Sound-update, IsSound-eq}
use orlop.Manifest.Ownership.Unlink.{unlinked, Sound-unlinked, release_rows}
use orlop.Manifest.Ownership.Paths.{at_path, Sound-move, relocated, Sound-relocated}

delete_dest-IsSound :
    (to : Text) (kind : NodeKind) (rev : ℕ) (d d' : Db)
    → delete_dest to kind rev d ≡ ok d'
    → IsSound d
    → IsSound d'
unfolding delete_dest displace_file
delete_dest-IsSound to node_regular rev d d' e v =
    elim (Option-cases (find manifest_path to d.manifests)) [
      | inl f ↦ ground (arith, e, f)
      | inr (r, f) ↦ elim (Result-cases (release_chunks r d)) [
        | inr (_, g) ↦ ground (arith, e, f, g)
        | inl (d1, g) ↦
            let t : d1 ≡ record d { chunks = d1.chunks } = release_rows r d d1 g in
            IsSound-eq d' d.next_inode (unlinked to rev r d.manifests) d1.chunks
              (ground (arith, e, f, g, t)) (ground (arith, e, f, g, t)) (ground (arith, e, f, g, t))
              (Sound-unlinked to rev r d d1 v f g)
      ]
    ]
delete_dest-IsSound to node_symlink rev d d' e v =
    IsSound-eq d' d.next_inode d.manifests d.chunks (ground (arith, e)) (ground (arith, e))
      (ground (arith, e)) v
delete_dest-IsSound to node_special rev d d' e v =
    IsSound-eq d' d.next_inode d.manifests d.chunks (ground (arith, e)) (ground (arith, e))
      (ground (arith, e)) v
delete_dest-IsSound to node_dir rev d d' e v =
    IsSound-eq d' d.next_inode d.manifests d.chunks (ground (arith, e)) (ground (arith, e))
      (ground (arith, e)) v
delete_dest-IsSound to node_absent rev d d' e v =
    IsSound-eq d' d.next_inode d.manifests d.chunks (ground (arith, e)) (ground (arith, e))
      (ground (arith, e)) v

move_manifest-IsSound :
    (from to : Text) (version rev : ℕ) (src : ManifestRow) (d d' : Db)
    → move_manifest from to version rev src d ≡ ok d'
    → IsSound d
    → IsSound d'
unfolding move_manifest
move_manifest-IsSound from to version rev src d d' e v =
    let free : find manifest_path to d.manifests ≡ none = ground (arith, e) in
    let f : (ManifestRow → ManifestRow) = λ r. record r { version = version; rev = rev } in
    IsSound-eq d' d.next_inode
      (update_inode src.inode_id f (update_key manifest_path from (at_path to) d.manifests))
      d.chunks (ground (arith, e, free)) (ground (arith, e, free)) (ground (arith, e, free))
      (Sound-update src.inode_id f (λ r. refl) (λ r. refl) (λ r. refl) (λ r s t. refl) d.next_inode
        _ d.chunks (Sound-move from to d.next_inode d.manifests d.chunks free v))

journal_rename-IsSound :
    (now : ℕ) (from to : Text) (dst_version : ℕ) (src : ManifestRow) (w : Writer) (d : Db) (v : ℕ)
    (d' : Db)
    → journal_rename now from to dst_version src w d ≡ ok (v, d')
    → IsSound d
    → IsSound d'
unfolding journal_rename
journal_rename-IsSound now from to dst_version src w d v d' e sound =
    let entry : Result Db =
      journal_if_session now w op_rename to (some (source_manifest from src))
        (some (succ64 dst_version)) from d in
    elim (Result-cases entry) [
      | inr (_, f) ↦ ground (arith, e, f)
      | inl (d1, f) ↦
          let (js, j) = journal_ok now w op_rename to _ _ from d d1 f in
          IsSound-eq d' d.next_inode d.manifests d.chunks (ground (arith, e, f, j))
            (ground (arith, e, f, j)) (ground (arith, e, f, j)) sound
    ]

module _ (sql : Sqlite) where
  overwrite-IsSound :
      (to : Text) (kind : NodeKind) (rev : ℕ) (d d' : Db)
      → overwrite sql to kind rev d ≡ ok d'
      → IsSound d
      → IsSound d'
  overwrite-IsSound to kind rev d d' e v = elim (Bool-cases (is_absent kind)) [
    | inl f ↦
        IsSound-eq d' d.next_inode d.manifests d.chunks (ground (arith, e, f))
          (ground (arith, e, f)) (ground (arith, e, f)) v
    | inr f ↦ delete_dest-IsSound to kind rev d d' (ground (arith, e, f)) v
  ]

  reparent-IsSound :
      (now : ℕ) (from to : Text) (rev : ℕ) (d d' : Db)
      → reparent_descendants sql now from to rev d ≡ ok d'
      → IsSound d
      → IsSound d'
  unfolding reparent_descendants tombstone_subtree
  reparent-IsSound now from to rev d d' e v =
      IsSound-eq d' d.next_inode (relocated sql from to rev d.manifests) d.chunks
        (ground (arith, e)) (ground (arith, e)) (ground (arith, e))
        (Sound-relocated sql from to rev d.next_inode d.manifests d.chunks (ground (arith, e)) v)

  move_node-IsSound :
      (now : ℕ) (from to : Text) (kind : NodeKind) (rev : ℕ) (d d' : Db)
      → move_node sql now from to kind rev d ≡ ok d'
      → IsSound d
      → IsSound d'
  unfolding move_node move_symlink move_special
  move_node-IsSound now from to node_symlink rev d d' e v =
      IsSound-eq d' d.next_inode d.manifests d.chunks (ground (arith, e)) (ground (arith, e))
        (ground (arith, e)) v
  move_node-IsSound now from to node_special rev d d' e v =
      IsSound-eq d' d.next_inode d.manifests d.chunks (ground (arith, e)) (ground (arith, e))
        (ground (arith, e)) v
  move_node-IsSound now from to node_dir rev d d' e v = reparent-IsSound now from to rev d d' e v
  move_node-IsSound now from to node_regular rev d d' e v =
      IsSound-eq d' d.next_inode d.manifests d.chunks (ground (arith, e)) (ground (arith, e))
        (ground (arith, e)) v
  move_node-IsSound now from to node_absent rev d d' e v =
      IsSound-eq d' d.next_inode d.manifests d.chunks (ground (arith, e)) (ground (arith, e))
        (ground (arith, e)) v

  rename_node-IsSound :
      (now : ℕ) (from to : Text) (kind : NodeKind) (dst : NodeKind × ℕ) (d : Db) (v : ℕ) (d' : Db)
      → rename_node sql now from to kind dst d ≡ ok (v, d')
      → IsSound d
      → IsSound d'
  unfolding rename_node settle_paths alloc_rev
  rename_node-IsSound now from to kind dst d v d' e sound =
      elim (Result-cases (overwrite sql to dst.0 (d.last_rev + 1) (alloc_rev d))) [
        | inr (_, f) ↦ ground (arith, e, f)
        | inl (d1, f) ↦ elim (Result-cases (move_node sql now from to kind (d.last_rev + 1) d1)) [
          | inr (_, g) ↦ ground (arith, e, f, g)
          | inl (d2, g) ↦
              IsSound-eq d' d2.next_inode d2.manifests d2.chunks (ground (arith, e, f, g))
                (ground (arith, e, f, g)) (ground (arith, e, f, g))
                (move_node-IsSound now from to kind (d.last_rev + 1) d1 d2 g (
                  overwrite-IsSound to dst.0 (d.last_rev + 1) (alloc_rev d) d1 f
                    (ground (arith, sound))))
        ]
      ]

  relocate_file-IsSound :
      (now : ℕ) (from to : Text) (dst : NodeKind × ℕ) (src : ManifestRow) (w : Writer) (d : Db)
      (v : ℕ) (d' : Db)
      → relocate_file sql now from to dst src w d ≡ ok (v, d')
      → IsSound d
      → IsSound d'
  unfolding relocate_file settle_paths alloc_rev
  relocate_file-IsSound now from to dst src w d v d' e sound =
      elim (Result-cases (overwrite sql to dst.0 (d.last_rev + 1) (alloc_rev d))) [
        | inr (_, f) ↦ ground (arith, e, f)
        | inl (d1, f) ↦ elim (Result-cases (journal_rename now from to dst.1 src w d1)) [
          | inr (_, g) ↦ ground (arith, e, f, g)
          | inl ((v1, d2), g) ↦
              elim (Result-cases (move_manifest from to v1 (d.last_rev + 1) src d2)) [
                | inr (_, k) ↦ ground (arith, e, f, g, k)
                | inl (d3, k) ↦
                    IsSound-eq d' d3.next_inode d3.manifests d3.chunks (ground (arith, e, f, g, k))
                      (ground (arith, e, f, g, k)) (ground (arith, e, f, g, k))
                      (move_manifest-IsSound from to v1 (d.last_rev + 1) src d2 d3 k (
                        journal_rename-IsSound now from to dst.1 src w d1 v1 d2 g (
                          overwrite-IsSound to dst.0 (d.last_rev + 1) (alloc_rev d) d1 f
                            (ground (arith, sound)))))
              ]
        ]
      ]

  -- A rename that succeeds on a sound database leaves a sound one, for every kind of source and
  -- destination, and whatever SQLite's operators match.
  pub rename-IsSound :
      (now : ℕ) (from to : Text) (expected_from expected_to : ℕ) (no_replace : Bool) (w : Writer)
      (d : Db) (v : ℕ) (d' : Db)
      → rename sql now from to expected_from expected_to no_replace w d ≡ ok (v, d')
      → IsSound d
      → IsSound d'
  unfolding rename rename_onto rename_file read_rename_source
  rename-IsSound now from to expected_from expected_to no_replace w d v d' e sound =
      let kind : NodeKind = resolve_kind from d in
      elim (Bool-cases (eqb from to)) [
        | inl f ↦ let same : d ≡ d' = ground (arith, e, f) in subst IsSound same sound
        | inr f ↦ elim (Result-cases (resolve_rename_dest sql to kind no_replace expected_to d)) [
          | inr (_, g) ↦ ground (arith, e, f, g)
          | inl (dst, g) ↦ elim (Bool-cases (is_regular kind)) [
            | inr k ↦
                rename_node-IsSound now from to kind dst d v d' (ground (arith, e, f, g, k)) sound
            | inl k ↦ elim (Option-cases (find manifest_path from d.manifests)) [
              | inl l ↦ ground (arith, e, f, g, k, l)
              | inr (src, l) ↦
                  elim (Bool-cases (
                    is_regular dst.0
                    && old_inode (find manifest_path to d.manifests) == src.inode_id)) [
                      | inl t ↦
                          let same : d ≡ d' = ground (arith, e, f, g, k, l, t) in
                          subst IsSound same sound
                      | inr t ↦
                          relocate_file-IsSound now from to dst src w d v d'
                            (ground (arith, e, f, g, k, l, t)) sound
                    ]
            ]
          ]
        ]
      ]
