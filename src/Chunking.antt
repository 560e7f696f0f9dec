-- ===== src/Chunking.antt =====
-- Content-defined chunking: cdc.go of cmd/orlop-server. BLAKE3, a third-party package, is an argument.
pub mod Table
pub mod Bounds
pub mod Cover
use orlop.Prelude.{
  ℕ, zero, suc, ◌+◌, ◌-◌, ◌*◌, ◌/◌, ◌%◌, ◌^◌, Text, Bool, true, false, Option, none, some, List, [],
  ◌∷◌, length, take, drop, ltb, leb, ◌==◌, if◌then◌else◌,
}
use orlop.Prelude.Map.{is_empty}
use Prim.Native.Nat.{bit_and}
use orlop.Chunking.Table.{gear, get_elem?}

-- The sizes and the masks of `v2020Cut`.
pub record CutParams : Type 0 where
  pub min_size : ℕ
  pub avg_size : ℕ
  pub max_size : ℕ
  pub mask_s : ℕ
  pub mask_l : ℕ
  pub mask_s_ls : ℕ
  pub mask_l_ls : ℕ

-- The constants of the file.
abbrev pub chunk_params : CutParams
chunk_params = record {
  min_size = 1048576;
  avg_size = 4194304;
  max_size = 16777216;
  mask_s = 0x0000d93777537000;
  mask_l = 0x0000d91767537000;
  mask_s_ls = 0x0000d93777537000 * 2;
  mask_l_ls = 0x0000d91767537000 * 2;
}

unfoldable pub gear_ls : ℕ → ℕ
gear_ls b = gear b * 2 % 2 ^ 64

-- How a phase ends: with a cut, with all its bytes hashed, or with an index out of range.
pub data Scan : Type 0 where
  cut_at : ℕ → Scan
  through : ℕ → Scan
  out_of_range : Scan

-- A byte that is read.
abbrev pub read_byte : Option ℕ → (ℕ → Scan) → Scan
read_byte none next = out_of_range
read_byte (some x) next = next x

-- A phase: `for index < limit`, by the rounds that are left. A round reads two bytes.
unfoldable pub scan : Text → ℕ → ℕ → ℕ → ℕ → ℕ → Scan
scan src mask_ls mask zero index hash = through hash
scan src mask_ls mask (suc rounds) index hash = read_byte (get_elem? src (index * 2)) λ x.
    let even = (hash * 4 + gear_ls x) % 2 ^ 64 in
    let second = read_byte (get_elem? src (index * 2 + 1)) λ y.
      let odd = (even + gear y) % 2 ^ 64 in
      let rest = scan src mask_ls mask rounds (suc index) odd in
      if bit_and odd mask == 0 then cut_at (index * 2 + 1) else rest in
    if bit_and even mask_ls == 0 then cut_at (index * 2) else second

-- The index behind the small-mask phase.
abbrev pub second_start : ℕ → ℕ → ℕ
second_start first center = if ltb first (center / 2) then center / 2 else first

abbrev pub after_large : ℕ → Scan → Option ℕ
after_large n (cut_at a) = some a
after_large n (through _) = some n
after_large n out_of_range = none

-- `none` is a panic.
abbrev pub after_small : CutParams → Text → ℕ → ℕ → Scan → Option ℕ
after_small c src n index (cut_at a) = some a
after_small c src n index (through hash) =
    after_large n (scan src c.mask_l_ls c.mask_l (n / 2 - index) index hash)
after_small c src n index out_of_range = none

-- The two phases over the first n bytes.
unfoldable pub cut_within : CutParams → Text → ℕ → ℕ → Option ℕ
cut_within c src n center =
    after_small c src n (second_start (c.min_size / 2) center)
      (scan src c.mask_s_ls c.mask_s (center / 2 - c.min_size / 2) (c.min_size / 2) 0)

unfoldable pub v2020_cut : CutParams → Text → Option ℕ
v2020_cut c src =
    let n = length src in
    if leb n c.min_size
    then some n
    else if ltb c.max_size n
    then cut_within c src c.max_size c.avg_size
    else cut_within c src n (if ltb n c.avg_size then n else c.avg_size)

pub record Chunk : Type 0 where
  pub hash : Text
  pub offset : ℕ
  pub len : ℕ
  pub bytes : Text

module _ (blake3 : Text → Text) where
  abbrev pub chunk_of : ℕ → Text → Chunk
  chunk_of offset buf = record {
    hash = blake3 buf;
    offset = offset;
    len = length buf % 2 ^ 32;
    bytes = buf;
  }

  abbrev pub with_chunk : Chunk → Option (List Chunk) → Option (List Chunk)
  with_chunk c none = none
  with_chunk c (some cs) = some (c ∷ cs)

  abbrev pub cut_off : (ℕ → Option (List Chunk)) → Option ℕ → Option (List Chunk)
  cut_off next none = none
  cut_off next (some n) = next n

  -- `for len(remaining) > 0` on fuel; `none` is a panic or an end of the fuel.
  unfoldable pub chunk_loop : CutParams → ℕ → ℕ → Text → Option (List Chunk)
  chunk_loop c zero offset remaining = if is_empty remaining then some [] else none
  chunk_loop c (suc fuel) offset remaining =
      let all =
        cut_off
          (λ n.
            with_chunk (chunk_of offset (take n remaining))
              (chunk_loop c fuel ((offset + n) % 2 ^ 64) (drop n remaining)))
          (v2020_cut c remaining) in
      if is_empty remaining then some [] else all

  unfoldable pub chunk_bytes : Text → Option (List Chunk)
  chunk_bytes bytes =
      if is_empty bytes
      then some (chunk_of 0 [] ∷ [])
      else chunk_loop chunk_params (length bytes) 0 bytes
