-- ===== src/Prelude/Texts.antt =====
-- Go strings and byte arrays: lists of bytes, with the test `==`.
use Prim.Native.Nat.{ℕ}
use Prim.Native.Char.{code}
use Prim.Native.String.{String}
use mathlib.Core.Path.{◌≡◌, refl}
use mathlib.Core.Logic.{◌↔◌}
use mathlib.Core.Bool.{Bool, true, false}
use mathlib.Core.List.{List, [], ◌∷◌}
use native.Mathlib.Omega.{arith}
use native.Mathlib.Decide.{ℕ_discrete}
use orlop.Prelude.Tests.{if◌then◌else◌, ltb, ◌==◌}

abbrev pub Text : Type 0
Text = List ℕ

unfoldable pub text_dec : Discrete Text
unfolding ℕ_discrete
text_dec = hlevel ℕ_discrete

-- a == b
abbrev pub eqb : Text → Text → Bool
eqb a b = elim (text_dec a b) [ yes _ ↦ true | no _ ↦ false ]

-- The bytes of an ASCII literal.
abbrev pub text : String → Text
text String.[] = []
text (String.◌∷◌ c s) = code c ∷ text s

pub eqb_iff : (a b : Text) → (eqb a b ≡ true) ↔ (a ≡ b)
eqb_iff a b = ground arith

pub eqb_refl : (a : Text) → eqb a a ≡ true
eqb_refl a = (eqb_iff a a).1 refl

eqb_runs : eqb (text "ab") (text "ab") ≡ true
unfolding text_dec
eqb_runs = refl

-- Whether a text is in a list.
abbrev pub contains : List Text → Text → Bool
contains [] a = false
contains (b ∷ bs) a = elim (text_dec b a) [ yes _ ↦ true | no _ ↦ contains bs a ]

-- a < b, byte by byte, as SQLite orders the texts of a column
unfoldable pub precedes : Text → Text → Bool
precedes a [] = false
precedes [] (y ∷ b) = true
precedes (x ∷ a) (y ∷ b) = if ltb x y then true else if x == y then precedes a b else false

pub precedes_trans :
    (a b c : Text) → precedes a b ≡ true → precedes b c ≡ true → precedes a c ≡ true
unfolding precedes
precedes_trans a b [] e f = f
precedes_trans a [] (z ∷ c) e f = ground (arith, e)
precedes_trans [] (y ∷ b) (z ∷ c) e f = refl
precedes_trans (x ∷ a) (y ∷ b) (z ∷ c) e f = ground (arith, e, f, precedes_trans a b c)

pub precedes_total : (a b : Text) → precedes a b ≡ false → precedes b a ≡ false → a ≡ b
unfolding precedes
precedes_total [] [] e f = refl
precedes_total [] (y ∷ b) e f = ground (arith, e)
precedes_total (x ∷ a) [] e f = ground (arith, f)
precedes_total (x ∷ a) (y ∷ b) e f = ground (arith, e, f, precedes_total a b)

pub precedes_irrefl : (a : Text) → precedes a a ≡ false
unfolding precedes
precedes_irrefl [] = refl
precedes_irrefl (x ∷ a) = ground (arith, precedes_irrefl a)
