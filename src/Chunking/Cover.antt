-- ===== src/Chunking/Cover.antt =====
-- The chunks of a file are the file.
use orlop.Prelude.{
  ℕ, zero, suc, ◌+◌, ◌-◌, ◌%◌, ◌^◌, ◌<◌, ◌≤◌, ◌⊎◌, inl, inr, Text, some, List, [], ◌∷◌, ◌++◌,
  length, take, drop, take-drop, length-drop, length-take, length-append, sym, ◌≡◌, ◌≢◌, ◌∙◌, refl,
  ap, arith, subst,
}
use orlop.Chunking.{CutParams, v2020_cut, Chunk, chunk_of, chunk_loop, chunk_bytes, chunk_params}
use orlop.Chunking.Bounds.{IsValid, IsCut, v2020_cut_bounds}

unfoldable pub joined : List Chunk → Text
joined [] = []
joined (k ∷ ks) = k.bytes ++ joined ks

-- Each chunk describes its bytes and begins where the one before it ends.
abbrev pub Laid : (Text → Text) → ℕ → List Chunk → Type 0
Laid blake3 offset [] = Unit {0}
Laid blake3 offset (k ∷ ks) =
    (k.offset ≡ offset)
    × (k.len ≡ length k.bytes)
    × (k.hash ≡ blake3 k.bytes)
    × Laid blake3 (offset + k.len) ks

-- No chunk is empty or larger than the maximum, and only the last is smaller than the minimum.
abbrev pub Sized : CutParams → List Chunk → Type 0
Sized c [] = Unit {0}
Sized c (k ∷ ks) =
    (0 < k.len) × (k.len ≤ c.max_size) × ((c.min_size ≤ k.len) ⊎ (ks ≡ [])) × Sized c ks

-- The chunks of some bytes from an offset on.
pub record Covers (blake3 : Text → Text) (c : CutParams) (offset : ℕ) (bytes : Text)
    (cs : List Chunk) : Type 0 where
  pub whole : joined cs ≡ bytes
  pub laid : Laid blake3 offset cs
  pub sized : Sized c cs

drop_all : (xs : Text) → drop (length xs) xs ≡ []
drop_all [] = refl
drop_all (x ∷ xs) = drop_all xs

nothing_left :
    (blake3 : Text → Text) (c : CutParams) (offset : ℕ) (xs : Text) (ks : List Chunk)
    → xs ≡ []
    → Covers blake3 c offset xs ks
    → ks ≡ []
unfolding joined
nothing_left blake3 c offset xs [] e v = refl
nothing_left blake3 c offset xs (k ∷ ks) e v =
    absurd (
      omega
        (arith, v.sized.0, v.laid.1, ap length (v.whole ∙ e), length-append k.bytes (joined ks)))

-- A chunk in front of those of the rest.
Covers-cons :
    (blake3 : Text → Text) (c : CutParams) (offset : ℕ) (bytes : Text) (n : ℕ) (ks : List Chunk)
    → c.max_size < 2 ^ 32
    → IsCut c bytes n
    → Covers blake3 c (offset + n) (drop n bytes) ks
    → Covers blake3 c offset bytes (chunk_of blake3 offset (take n bytes) ∷ ks)
unfolding joined
Covers-cons blake3 c offset bytes n ks small (some_bytes, inside, fits, size) v =
    let here : length (take n bytes) ≡ n = length-take n bytes inside in
    let len : length (take n bytes) % 2 ^ 32 ≡ n = omega (arith, here, fits, small) in
    let low : (c.min_size ≤ n) ⊎ (ks ≡ []) = elim size [
      | inl a ↦ inl a
      | inr a ↦ inr (
          nothing_left blake3 c (offset + n) (drop n bytes) ks
            (subst (λ m. drop m bytes ≡ []) (sym a) (drop_all bytes)) v)
    ] in
    record {
      whole = ap (◌++◌ (take n bytes)) v.whole ∙ take-drop n bytes;
      laid =
          (refl, len ∙ sym here, refl, subst (λ m. Laid blake3 (offset + m) ks) (sym len) v.laid);
      sized = (
        omega (arith, len, some_bytes),
        omega (arith, len, fits),
        subst (λ m. (c.min_size ≤ m) ⊎ (ks ≡ [])) (sym len) low,
        v.sized,
      );
    }

chunk_loop-cons :
    (blake3 : Text → Text) (c : CutParams) (fuel offset x : ℕ) (xs : Text) (n : ℕ) (ks : List Chunk)
    → v2020_cut c (x ∷ xs) ≡ some n
    → (offset + n) % 2 ^ 64 ≡ offset + n
    → chunk_loop blake3 c fuel (offset + n) (drop n (x ∷ xs)) ≡ some ks
    → chunk_loop blake3 c (suc fuel) offset (x ∷ xs)
      ≡ some (chunk_of blake3 offset (take n (x ∷ xs)) ∷ ks)
unfolding chunk_loop
chunk_loop-cons blake3 c fuel offset x xs n ks cut next e = rw (cut, next, e) refl

module _ (blake3 : Text → Text) (c : CutParams) (valid : IsValid c)
    (small : c.max_size < 2 ^ 32) where
  chunk_loop-Covers :
      (fuel offset : ℕ) (bytes : Text)
      → length bytes ≤ fuel
      → offset + length bytes < 2 ^ 64
      → (cs : List Chunk) × (chunk_loop blake3 c fuel offset bytes ≡ some cs)
        × Covers blake3 c offset bytes cs
  unfolding chunk_loop joined
  chunk_loop-Covers zero offset [] enough room =
      ([], refl, record { whole = refl; laid = tt; sized = tt })
  chunk_loop-Covers zero offset (x ∷ xs) enough room = absurd (omega (arith, enough))
  chunk_loop-Covers (suc fuel) offset [] enough room =
      ([], refl, record { whole = refl; laid = tt; sized = tt })
  chunk_loop-Covers (suc fuel) offset (x ∷ xs) enough room =
      let (n, cut, bounds) = v2020_cut_bounds c (x ∷ xs) valid (omega arith) in
      let left : length (drop n (x ∷ xs)) ≡ length (x ∷ xs) - n = length-drop n (x ∷ xs) in
      let next : (offset + n) % 2 ^ 64 ≡ offset + n = omega (arith, room, bounds.1) in
      let (ks, e, v) =
        chunk_loop-Covers fuel (offset + n) (drop n (x ∷ xs))
          (omega (arith, left, enough, bounds.0)) (omega (arith, left, room, bounds.1)) in
      (
        chunk_of blake3 offset (take n (x ∷ xs)) ∷ ks,
        chunk_loop-cons blake3 c fuel offset x xs n ks cut next e,
        Covers-cons blake3 c offset (x ∷ xs) n ks small bounds v,
      )

-- Chunking some bytes always ends, without a read out of range: the chunks put together are the bytes, each with its
-- hash, its length and the offset at which the one before it ends, none longer than 16 MiB, and only the last
-- shorter than 1 MiB.
pub chunk_bytes-Covers :
    (blake3 : Text → Text) (bytes : Text)
    → bytes ≢ []
    → length bytes < 2 ^ 64
    → (cs : List Chunk) × (chunk_bytes blake3 bytes ≡ some cs)
      × Covers blake3 chunk_params 0 bytes cs
unfolding chunk_bytes
chunk_bytes-Covers blake3 [] some_bytes room = absurd (some_bytes refl)
chunk_bytes-Covers blake3 (x ∷ xs) some_bytes room =
    chunk_loop-Covers blake3 chunk_params
      (record {
        some_bytes = omega arith;
        even = omega arith;
        min_le_avg = omega arith;
        avg_le_max = omega arith;
      })
      (omega arith) (length (x ∷ xs)) 0 (x ∷ xs) (omega arith) (omega (arith, room))
