-- ===== src/Prelude/Words.antt =====
-- Unsigned integers in big-endian order, as binary.BigEndian of Go writes and reads them.
use Prim.Native.Nat.{ℕ, zero, suc, ◌+◌, ◌*◌, ◌/◌, ◌%◌, ◌^◌, ◌<◌}
use mathlib.Core.Path.{◌≡◌, refl, subst}
use mathlib.Core.List.{List, [], ◌∷◌, ◌++◌}
use native.Mathlib.Omega.{arith}
use orlop.Prelude.Lists.{length, length-append, take, drop, take-append, drop-append}

-- The bytes of n, which are so many as asked for.
unfoldable pub put_uint : ℕ → ℕ → List ℕ
put_uint zero n = []
put_uint (suc w) n = put_uint w (n / 256) ++ ((n % 256) ∷ [])

unfoldable pub fold_bytes : ℕ → List ℕ → ℕ
fold_bytes acc [] = acc
fold_bytes acc (b ∷ bs) = fold_bytes (acc * 256 + b) bs

abbrev pub uint : List ℕ → ℕ
uint = fold_bytes 0

pub length-put_uint : (w n : ℕ) → length (put_uint w n) ≡ w
unfolding put_uint
length-put_uint zero n = refl
length-put_uint (suc w) n =
    omega
      (arith, length-append (put_uint w (n / 256)) ((n % 256) ∷ []), length-put_uint w (n / 256))

fold_bytes-append :
    (acc : ℕ) (xs ys : List ℕ) → fold_bytes acc (xs ++ ys) ≡ fold_bytes (fold_bytes acc xs) ys
unfolding fold_bytes
fold_bytes-append acc [] ys = refl
fold_bytes-append acc (x ∷ xs) ys = fold_bytes-append (acc * 256 + x) xs ys

-- A number of w bytes is read back.
pub uint-put_uint : (w n : ℕ) → n < 256 ^ w → uint (put_uint w n) ≡ n
unfolding put_uint fold_bytes
uint-put_uint zero n small = omega (arith, small)
uint-put_uint (suc w) n small = omega (
  arith,
  fold_bytes-append 0 (put_uint w (n / 256)) ((n % 256) ∷ []),
  uint-put_uint w (n / 256) (grind (arith, small)),
)

pub take-put_uint : (w n : ℕ) (ys : List ℕ) → take w (put_uint w n ++ ys) ≡ put_uint w n
take-put_uint w n ys =
    subst (λ k. take k (put_uint w n ++ ys) ≡ put_uint w n) (length-put_uint w n)
      (take-append (put_uint w n) ys)

pub drop-put_uint : (w n : ℕ) (ys : List ℕ) → drop w (put_uint w n ++ ys) ≡ ys
drop-put_uint w n ys =
    subst (λ k. drop k (put_uint w n ++ ys) ≡ ys) (length-put_uint w n)
      (drop-append (put_uint w n) ys)
