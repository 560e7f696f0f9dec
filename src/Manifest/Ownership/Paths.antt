-- ===== src/Manifest/Ownership/Paths.antt =====
-- Statements that rewrite paths only leave the ownership of chunks as it is.
use orlop.Prelude.{
  find, update_key, ℕ, ◌+◌, Text, true, false, none, List, [], ◌∷◌, ◌≡◌, refl, inl, inr, All, arith,
  map, ◌++◌, text, eqb, eqb_iff, Bool-cases, if◌then◌else◌, sym, subst, length,
}
use orlop.Manifest.Db.{ChunkRow, ManifestRow, manifest_path, nlink}
use orlop.Manifest.Rename.Subtree.{Sqlite, reparent, unique_key}
use orlop.Manifest.Ownership.{owned, IsAliasOf, Shared, UniquePaths, Bounded, Sound}

module _ (g : ManifestRow → ManifestRow) (inode : (r : ManifestRow) → (g r).inode_id ≡ r.inode_id)
    (chunks : (r : ManifestRow) → (g r).chunks ≡ r.chunks)
    (version : (r : ManifestRow) → (g r).version ≡ r.version) where
  nlink-map : (i : ℕ) (rows : List ManifestRow) → nlink i (map g rows) ≡ nlink i rows
  unfolding nlink
  nlink-map i [] = refl
  nlink-map i (r ∷ rows) = ground (arith, inode r, nlink-map i rows)

  owned-map : (h : Text) (rows : List ManifestRow) → owned h (map g rows) ≡ owned h rows
  unfolding owned
  owned-map h [] = refl
  owned-map h (r ∷ rows) =
      ground (arith, inode r, chunks r, nlink-map r.inode_id rows, owned-map h rows)

  aliases-map :
      (r : ManifestRow) (rows : List ManifestRow)
      → All (IsAliasOf r) rows
      → All (IsAliasOf (g r)) (map g rows)
  aliases-map r [] a = tt
  aliases-map r (s ∷ rows) (a, more) = (
    ground (arith, a, inode r, inode s, chunks r, chunks s, version r, version s),
    aliases-map r rows more,
  )

  Shared-map : (rows : List ManifestRow) → Shared rows → Shared (map g rows)
  Shared-map [] a = tt
  Shared-map (r ∷ rows) (a, more) = (aliases-map r rows a, Shared-map rows more)

  Bounded-map : (n : ℕ) (rows : List ManifestRow) → Bounded n rows → Bounded n (map g rows)
  Bounded-map n [] a = tt
  Bounded-map n (r ∷ rows) (a, more) = (ground (arith, a, inode r), Bounded-map n rows more)

  Sound-map :
      (n : ℕ) (rows : List ManifestRow) (cs : List ChunkRow)
      → UniquePaths (map g rows)
      → Sound n rows cs
      → Sound n (map g rows) cs
  Sound-map n rows cs u v = record {
    unique = u;
    shared = Shared-map rows v.shared;
    bounded = Bounded-map n rows v.bounded;
    exact = λ h. omega (arith, v.exact h, owned-map h rows);
  }

-- The row with another path.
abbrev pub at_path : Text → ManifestRow → ManifestRow
at_path to r = record r { path = to }

find-move :
    (from to q : Text) (rows : List ManifestRow)
    → find manifest_path q rows ≡ none
    → eqb to q ≡ false
    → find manifest_path q (update_key manifest_path from (at_path to) rows) ≡ none
unfolding find update_key
find-move from to q [] e f = refl
find-move from to q (r ∷ rows) e f = ground (arith, e, f, find-move from to q rows)

update_absent :
    (from to : Text) (rows : List ManifestRow)
    → find manifest_path from rows ≡ none
    → update_key manifest_path from (at_path to) rows ≡ rows
unfolding find update_key
update_absent from to [] e = refl
update_absent from to (r ∷ rows) e = ground (arith, e, update_absent from to rows)

UniquePaths-move :
    (from to : Text) (rows : List ManifestRow)
    → find manifest_path to rows ≡ none
    → UniquePaths rows
    → UniquePaths (update_key manifest_path from (at_path to) rows)
unfolding find update_key
UniquePaths-move from to [] e u = tt
UniquePaths-move from to (r ∷ rows) e (u, us) = elim (Bool-cases (eqb r.path from)) [
  | inl f ↦
      let t : update_key manifest_path from (at_path to) rows ≡ rows =
        update_absent from to rows (ground (arith, u, f, eqb_iff r.path from)) in
      rw (f, t) (ground (arith, e), us)
  | inr f ↦ rw f (
    find-move from to r.path rows u (ground (arith, e, eqb_iff to r.path, eqb_iff r.path to)),
    UniquePaths-move from to rows (ground (arith, e)) us,
  )
]

update_key-map :
    (from to : Text) (rows : List ManifestRow)
    → update_key manifest_path from (at_path to) rows
      ≡ map (λ r. if eqb r.path from then at_path to r else r) rows
unfolding update_key
update_key-map from to [] = refl
update_key-map from to (r ∷ rows) = rw (update_key-map from to rows) refl

-- A file moves to a free path.
pub Sound-move :
    (from to : Text) (n : ℕ) (rows : List ManifestRow) (cs : List ChunkRow)
    → find manifest_path to rows ≡ none
    → Sound n rows cs
    → Sound n (update_key manifest_path from (at_path to) rows) cs
Sound-move from to n rows cs e v =
    let u : UniquePaths (map (λ r. if eqb r.path from then at_path to r else r) rows) =
      subst UniquePaths (update_key-map from to rows) (UniquePaths-move from to rows e v.unique) in
    subst (λ x. Sound n x cs) (sym (update_key-map from to rows))
      (Sound-map (λ r. if eqb r.path from then at_path to r else r) (λ r. ground arith)
        (λ r. ground arith) (λ r. ground arith) n rows cs u v)

unique_key-UniquePaths :
    (rows : List ManifestRow) → unique_key manifest_path rows ≡ true → UniquePaths rows
unfolding unique_key
unique_key-UniquePaths [] e = tt
unique_key-UniquePaths (r ∷ rows) e =
    (ground (arith, e), unique_key-UniquePaths rows (ground (arith, e)))

module _ (sql : Sqlite) (from to : Text) (rev : ℕ) where
  abbrev pub relocated : List ManifestRow → List ManifestRow
  relocated rows = reparent sql manifest_path (λ p r. record r { path = p; rev = rev }) from to rows

  abbrev relocate : ManifestRow → ManifestRow
  relocate r =
      if sql.like r.path (from ++ text "/%")
      then record r { path = to ++ sql.substr r.path (length from + 1); rev = rev }
      else r

  relocated-map : (rows : List ManifestRow) → relocated rows ≡ map relocate rows
  unfolding reparent
  relocated-map [] = refl
  relocated-map (r ∷ rows) = rw (relocated-map rows) refl

  -- A directory moves, and no two files meet.
  pub Sound-relocated :
      (n : ℕ) (rows : List ManifestRow) (cs : List ChunkRow)
      → unique_key manifest_path (relocated rows) ≡ true
      → Sound n rows cs
      → Sound n (relocated rows) cs
  Sound-relocated n rows cs e v =
      let u : UniquePaths (map relocate rows) =
        subst UniquePaths (relocated-map rows) (unique_key-UniquePaths (relocated rows) e) in
      subst (λ x. Sound n x cs) (sym (relocated-map rows))
        (Sound-map relocate (λ r. ground arith) (λ r. ground arith) (λ r. ground arith) n rows cs u
          v)
