-- ===== src/Chunking/Bounds.antt =====
-- Where a chunk is cut.
use orlop.Prelude.{
  ℕ, zero, suc, ◌+◌, ◌-◌, ◌*◌, ◌/◌, ◌%◌, ◌^◌, ◌<◌, ◌≤◌, ◌⊎◌, inl, inr, Text, Option, some, [], ◌∷◌,
  length, ltb, leb, ◌==◌, if◌then◌else◌, ◌≡◌, refl, arith, Bool-cases,
}
use Prim.Native.Nat.{bit_and}
use orlop.Chunking.Table.{gear, get_elem?}
use orlop.Chunking.{
  CutParams, gear_ls, Scan, cut_at, through, out_of_range, scan, second_start, after_large,
  after_small, cut_within, v2020_cut,
}

-- A scan that stays in its range.
abbrev Fits : ℕ → ℕ → Scan → Type 0
Fits low high (cut_at a) = (low ≤ a) × (a < high)
Fits low high (through hash) = Unit {0}
Fits low high out_of_range = ⊥

get_elem?-in_range : (xs : Text) (i : ℕ) → i < length xs → (x : ℕ) × (get_elem? xs i ≡ some x)
unfolding get_elem?
get_elem?-in_range [] i h = absurd (omega (arith, h))
get_elem?-in_range (x ∷ xs) zero h = (x, refl)
get_elem?-in_range (x ∷ xs) (suc i) h = get_elem?-in_range xs i (omega (arith, h))

Fits-weaken :
    (low low' high high' : ℕ) (s : Scan)
    → low' ≤ low
    → high ≤ high'
    → Fits low high s
    → Fits low' high' s
Fits-weaken low low' high high' (cut_at a) l h (f, g) = (omega (arith, l, f), omega (arith, h, g))
Fits-weaken low low' high high' (through x) l h f = tt
Fits-weaken low low' high high' out_of_range l h f = f

scan-Fits :
    (src : Text) (mask_ls mask rounds index hash : ℕ)
    → (index + rounds) * 2 ≤ length src
    → Fits (index * 2) ((index + rounds) * 2) (scan src mask_ls mask rounds index hash)
unfolding scan
scan-Fits src mask_ls mask zero index hash h = tt
scan-Fits src mask_ls mask (suc rounds) index hash h =
    let (x, ex) = get_elem?-in_range src (index * 2) (omega (arith, h)) in
    let (y, ey) = get_elem?-in_range src (index * 2 + 1) (omega (arith, h)) in
    let even : ℕ = (hash * 4 + gear_ls x) % 2 ^ 64 in
    let odd : ℕ = (even + gear y) % 2 ^ 64 in
    elim (Bool-cases (bit_and even mask_ls == 0)) [
      | inl e ↦ rw (ex, e) (omega arith, omega arith)
      | inr e ↦ elim (Bool-cases (bit_and odd mask == 0)) [
        | inl f ↦ rw (ex, e, ey, f) (omega arith, omega arith)
        | inr f ↦
            rw (ex, e, ey, f)
              (Fits-weaken (suc index * 2) (index * 2) ((suc index + rounds) * 2)
                ((index + suc rounds) * 2) (scan src mask_ls mask rounds (suc index) odd)
                (omega arith) (omega arith)
                (scan-Fits src mask_ls mask rounds (suc index) odd (omega (arith, h))))
      ]
    ]

-- Sizes in order, with an even minimum.
pub record IsValid (c : CutParams) : Type 0 where
  pub some_bytes : 0 < c.min_size
  pub even : c.min_size % 2 ≡ 0
  pub min_le_avg : c.min_size ≤ c.avg_size
  pub avg_le_max : c.avg_size ≤ c.max_size

-- A cut from `low` to `high`.
abbrev Within : ℕ → ℕ → Option ℕ → Type 0
Within low high o = (r : ℕ) × (o ≡ some r) × (low ≤ r) × (r ≤ high)

large-Within : (low n : ℕ) (s : Scan) → Fits low n s → low ≤ n → Within low n (after_large n s)
large-Within low n (cut_at a) (f, g) le = (a, refl, f, omega (arith, g))
large-Within low n (through hash) f le = (n, refl, le, omega arith)
large-Within low n out_of_range f le = absurd f

small-Within :
    (c : CutParams) (src : Text) (low n index : ℕ) (s : Scan)
    → Fits low n s
    → low ≤ n
    → low ≤ index * 2
    → index * 2 ≤ n
    → n ≤ length src
    → Within low n (after_small c src n index s)
small-Within c src low n index (cut_at a) (f, g) le start room fit = (a, refl, f, omega (arith, g))
small-Within c src low n index (through hash) f le start room fit =
    large-Within low n (scan src c.mask_l_ls c.mask_l (n / 2 - index) index hash)
      (Fits-weaken (index * 2) low ((index + (n / 2 - index)) * 2) n
        (scan src c.mask_l_ls c.mask_l (n / 2 - index) index hash) start (omega (arith, room))
        (scan-Fits src c.mask_l_ls c.mask_l (n / 2 - index) index hash (omega (arith, room, fit))))
      le
small-Within c src low n index out_of_range f le start room fit = absurd f

cut_within_lem :
    (c : CutParams) (src : Text) (n center : ℕ)
    → IsValid c
    → c.min_size ≤ center
    → center ≤ n
    → n ≤ length src
    → Within c.min_size n (cut_within c src n center)
unfolding cut_within
cut_within_lem c src n center v low high fit =
    let half : ℕ = c.min_size / 2 in
    small-Within c src c.min_size n (second_start half center)
      (scan src c.mask_s_ls c.mask_s (center / 2 - half) half 0)
      (Fits-weaken (half * 2) c.min_size ((half + (center / 2 - half)) * 2) n
        (scan src c.mask_s_ls c.mask_s (center / 2 - half) half 0) (omega (arith, v.even))
        (omega (arith, low, high))
        (scan-Fits src c.mask_s_ls c.mask_s (center / 2 - half) half 0
          (omega (arith, low, high, fit))))
      (omega (arith, low, high)) (ground (arith, v.even, low)) (ground (arith, low, high)) fit

-- A cut that leaves a chunk of a size in bounds: smaller than the minimum only where the bytes end.
abbrev pub IsCut : CutParams → Text → ℕ → Type 0
IsCut c src r =
    (0 < r) × (r ≤ length src) × (r ≤ c.max_size) × ((c.min_size ≤ r) ⊎ (r ≡ length src))

-- Whatever the bytes and the masks are, a cut of some bytes reads no byte outside of them, takes at least one byte and
-- not more than there are, at most the maximal size, and at least the minimal one but at the end of the bytes.
pub v2020_cut_bounds :
    (c : CutParams) (src : Text)
    → IsValid c
    → 0 < length src
    → (r : ℕ) × (v2020_cut c src ≡ some r) × IsCut c src r
unfolding v2020_cut
v2020_cut_bounds c src v some_bytes = elim (Bool-cases (leb (length src) c.min_size)) [
  | inl e ↦ (
    length src,
    ground (arith, e),
    (some_bytes, omega arith, ground (arith, e, v.min_le_avg, v.avg_le_max), inr refl),
  )
  | inr e ↦ elim (Bool-cases (ltb c.max_size (length src))) [
    | inl f ↦
        let (r, eq, low, high) =
          cut_within_lem c src c.max_size c.avg_size v v.min_le_avg v.avg_le_max
            (ground (arith, f)) in
        (
          r,
          ground (arith, e, f, eq),
          (omega (arith, low, v.some_bytes), ground (arith, f, high), high, inl low),
        )
    | inr f ↦
        let center : ℕ = if ltb (length src) c.avg_size then length src else c.avg_size in
        let (r, eq, low, high) =
          cut_within_lem c src (length src) center v (ground (arith, e, v.min_le_avg))
            (ground (arith, e)) (omega arith) in
        (
          r,
          ground (arith, e, f, eq),
          (omega (arith, low, v.some_bytes), high, ground (arith, f, high), inl low),
        )
  ]
]
