-- ===== src/Prelude/Decimal.antt =====
-- Go's int64 numbers in decimal: strconv.FormatInt and strconv.ParseInt in base 10, and strings.Cut at a byte.
use Prim.Native.Nat.{ℕ, zero, suc, ◌+◌, ◌-◌, ◌*◌, ◌/◌, ◌%◌, ◌^◌, ◌<◌}
use mathlib.Core.Path.{◌≡◌, refl, ◌∙◌}
use mathlib.Core.Logic.{inl, inr}
use mathlib.Core.Bool.{Bool, true, ◌&&◌}
use mathlib.Core.Option.{Option, none, some}
use mathlib.Core.List.{[], ◌∷◌, ◌++◌}
use native.Mathlib.Omega.{arith}
use orlop.Prelude.Tests.{if◌then◌else◌, ltb, leb, ◌==◌, Bool-cases}
use orlop.Prelude.Lists.{All}
use orlop.Prelude.Texts.{Text}

-- `negsuc n` is -(n + 1).
pub data ℤ : Type 0 where
  pos : ℕ → ℤ
  negsuc : ℕ → ℤ

abbrev is_digit : ℕ → Bool
is_digit c = leb b'0' c && leb c b'9'

-- The digits of a number in front of a text; the first argument is more than the number.
write_digits : ℕ → ℕ → Text → Text
write_digits zero n s = s
write_digits (suc f) n s =
    let rest = write_digits f (n / 10) ((b'0' + n % 10) ∷ s) in
    if ltb n 10 then (b'0' + n) ∷ s else rest

-- strconv.FormatInt of a number that is not negative
unfoldable pub format_int : ℕ → Text
unfolding write_digits
format_int n = write_digits (suc n) n []

read_digits : ℕ → Text → Option ℕ
read_digits n [] = some n
read_digits n (c ∷ s) =
    let rest = read_digits (n * 10 + (c - b'0')) s in if is_digit c then rest else none

abbrev unsigned : Text → Option ℕ
unsigned [] = none
unsigned (c ∷ s) = read_digits 0 (c ∷ s)

abbrev positive : Option ℕ → Option ℤ
positive none = none
positive (some n) = if ltb n (2 ^ 63) then some (pos n) else none

abbrev negative : Option ℕ → Option ℤ
negative none = none
negative (some zero) = some (pos 0)
negative (some (suc n)) = if ltb n (2 ^ 63) then some (negsuc n) else none

-- strconv.ParseInt(s, 10, 64); no value is an error
unfoldable pub parse_int : Text → Option ℤ
unfolding read_digits
parse_int [] = none
parse_int (c ∷ s) =
    if c == b'-'
    then negative (unsigned s)
    else if c == b'+'
    then positive (unsigned s)
    else positive (unsigned (c ∷ s))

-- strings.Cut
unfoldable pub cut : ℕ → Text → Option (Text × Text)
cut b [] = none
cut b (c ∷ s) =
    let rest = cut b s in
    if c == b then some ([], s) else (elim rest [ none ↦ none | some (x, y) ↦ some (c ∷ x, y) ])

abbrev Digits : Text → Type 0
Digits = All (λ c. is_digit c ≡ true)

Digits-write_digits : (f n : ℕ) (s : Text) → Digits s → Digits (write_digits f n s)
unfolding write_digits
Digits-write_digits zero n s h = h
Digits-write_digits (suc f) n s h = elim (Bool-cases (ltb n 10)) [
  | inl e ↦ rw e (ground (arith, e), h)
  | inr e ↦ rw e (Digits-write_digits f (n / 10) ((b'0' + n % 10) ∷ s) (ground arith, h))
]

-- A number that is written in front of a text is read before it.
read-write_digits :
    (f n : ℕ) (s : Text) → n < f → read_digits 0 (write_digits f n s) ≡ read_digits n s
unfolding write_digits read_digits
read-write_digits zero n s h = absurd (omega (arith, h))
read-write_digits (suc f) n s h = elim (Bool-cases (ltb n 10)) [
  | inl e ↦ rw e (ground (arith, e))
  | inr e ↦ rw e (
      read-write_digits f (n / 10) ((b'0' + n % 10) ∷ s) (ground (arith, e, h)) ∙ ground (arith, e))
]

write_digits-nonempty :
    (f n : ℕ) (s : Text) → n < f → (c : ℕ) × (t : Text) × (write_digits f n s ≡ c ∷ t)
unfolding write_digits
write_digits-nonempty zero n s h = absurd (omega (arith, h))
write_digits-nonempty (suc f) n s h = elim (Bool-cases (ltb n 10)) [
  | inl e ↦ rw e (b'0' + n, s, refl)
  | inr e ↦ rw e (write_digits-nonempty f (n / 10) ((b'0' + n % 10) ∷ s) (ground (arith, e, h)))
]

parse_int-Digits :
    (s : Text) (c : ℕ) (t : Text) (n : ℕ)
    → s ≡ c ∷ t
    → Digits s
    → read_digits 0 s ≡ some n
    → n < 2 ^ 63
    → parse_int s ≡ some (pos n)
unfolding parse_int
parse_int-Digits [] c t n e h r small = ground (arith, e)
parse_int-Digits (d ∷ s) c t n e (h, hs) r small = ground (arith, h, r, small)

-- An int64 number that is not negative is read as it was written.
pub parse_int-format_int : (n : ℕ) → n < 2 ^ 63 → parse_int (format_int n) ≡ some (pos n)
unfolding format_int read_digits
parse_int-format_int n small =
    let (c, t, e) = write_digits-nonempty (suc n) n [] (omega arith) in
    let all = Digits-write_digits (suc n) n [] tt in
    let back : read_digits 0 (write_digits (suc n) n []) ≡ some n =
      read-write_digits (suc n) n [] (omega arith) in
    parse_int-Digits (write_digits (suc n) n []) c t n e all back small

cut-Digits : (s t : Text) → Digits s → cut b'.' (s ++ (b'.' ∷ t)) ≡ some (s, t)
unfolding cut
cut-Digits [] t h = refl
cut-Digits (c ∷ s) t (h, hs) = ground (arith, h, cut-Digits s t hs)

-- A number that is written before a point is cut off at the point.
pub cut-format_int :
    (n : ℕ) (t : Text) → cut b'.' (format_int n ++ (b'.' ∷ t)) ≡ some (format_int n, t)
unfolding format_int
cut-format_int n t = cut-Digits (write_digits (suc n) n []) t (Digits-write_digits (suc n) n [] tt)
