-- ===== src/Manifest/Chunks/Packing.antt =====
-- The column of a file's chunks as bytes: packChunks and unpackChunks of manifests.go.
use orlop.Prelude.{
  ℕ, zero, suc, ◌+◌, ◌*◌, ◌/◌, ◌%◌, ◌^◌, Bool, true, List, [], ◌∷◌, ◌++◌, length, take, drop,
  take-append, drop-append, length-append, ◌&&◌, ltb, ◌==◌, Outcome, ok, guard, ◌>>◌, ◌≡◌, refl,
  subst, put_uint, uint, uint-put_uint, take-put_uint, drop-put_uint, length-put_uint, arith,
}
use orlop.Manifest.Db.{ChunkRef}

abbrev pub hash_len : ℕ
hash_len = 32

abbrev pub chunk_ref_size : ℕ
chunk_ref_size = hash_len + 8 + 4

unfoldable pub pack_chunks : List ChunkRef → List ℕ
pack_chunks [] = []
pack_chunks (c ∷ cs) = c.hash ++ (put_uint 8 c.offset ++ (put_uint 4 c.len ++ pack_chunks cs))

-- The chunk at the front of a blob.
abbrev pub unpack_one : List ℕ → ChunkRef
unpack_one blob =
    let tail = drop hash_len blob in
    record {
      hash = take hash_len blob;
      offset = uint (take 8 tail);
      len = uint (take 4 (drop 8 tail));
    }

unfoldable pub unpack_some : ℕ → List ℕ → List ChunkRef
unpack_some zero blob = []
unpack_some (suc n) blob = unpack_one blob ∷ unpack_some n (drop 4 (drop 8 (drop hash_len blob)))

-- The error is the size of a blob that is no multiple of a chunk's.
unfoldable pub unpack_chunks : List ℕ → Outcome ℕ (List ChunkRef)
unpack_chunks blob =
    guard (length blob % chunk_ref_size == 0) (length blob)
    >> ok (unpack_some (length blob / chunk_ref_size) blob)

-- The bounds of the fields' Go types: [32]byte, uint64 and uint32.
abbrev pub fits : ChunkRef → Bool
fits c = length c.hash == hash_len && ltb c.offset (2 ^ 64) && ltb c.len (2 ^ 32)

abbrev pub all_fit : List ChunkRef → Bool
all_fit [] = true
all_fit (c ∷ cs) = fits c && all_fit cs

length-pack_chunks :
    (cs : List ChunkRef) → all_fit cs ≡ true → length (pack_chunks cs) ≡ 44 * length cs
unfolding pack_chunks
length-pack_chunks [] fit = refl
length-pack_chunks (c ∷ cs) fit =
    let size : length c.hash ≡ 32 = ground (arith, fit) in
    omega (
      arith,
      size,
      length-pack_chunks cs (ground (arith, fit)),
      length-put_uint 8 c.offset,
      length-put_uint 4 c.len,
      length-append c.hash (put_uint 8 c.offset ++ (put_uint 4 c.len ++ pack_chunks cs)),
      length-append (put_uint 8 c.offset) (put_uint 4 c.len ++ pack_chunks cs),
      length-append (put_uint 4 c.len) (pack_chunks cs),
    )

unpack_some-pack_chunks :
    (cs : List ChunkRef) → all_fit cs ≡ true → unpack_some (length cs) (pack_chunks cs) ≡ cs
unfolding unpack_some pack_chunks
unpack_some-pack_chunks [] fit = refl
unpack_some-pack_chunks (c ∷ cs) fit =
    let size : length c.hash ≡ 32 = ground (arith, fit) in
    let more = put_uint 8 c.offset ++ (put_uint 4 c.len ++ pack_chunks cs) in
    let front : take 32 (c.hash ++ more) ≡ c.hash =
      subst (λ k. take k (c.hash ++ more) ≡ c.hash) size (take-append c.hash more) in
    let behind : drop 32 (c.hash ++ more) ≡ more =
      subst (λ k. drop k (c.hash ++ more) ≡ more) size (drop-append c.hash more) in
    rw
      (
        front,
        behind,
        take-put_uint 8 c.offset (put_uint 4 c.len ++ pack_chunks cs),
        drop-put_uint 8 c.offset (put_uint 4 c.len ++ pack_chunks cs),
        take-put_uint 4 c.len (pack_chunks cs),
        drop-put_uint 4 c.len (pack_chunks cs),
        uint-put_uint 8 c.offset (ground (arith, fit)),
        uint-put_uint 4 c.len (ground (arith, fit)),
        unpack_some-pack_chunks cs (ground (arith, fit)),
      )
      refl

-- Chunks whose fields fit their Go types are read back from the column as they were written.
pub unpack_chunks-pack_chunks :
    (cs : List ChunkRef) → all_fit cs ≡ true → unpack_chunks (pack_chunks cs) ≡ ok cs
unfolding unpack_chunks
unpack_chunks-pack_chunks cs fit =
    let size = length-pack_chunks cs fit in
    let whole : length (pack_chunks cs) % 44 ≡ 0 = omega (arith, size) in
    let count : length (pack_chunks cs) / 44 ≡ length cs = omega (arith, size) in
    rw (whole, count, unpack_some-pack_chunks cs fit) refl
