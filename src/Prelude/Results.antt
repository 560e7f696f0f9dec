-- ===== src/Prelude/Results.antt =====
-- Errors as values: the result of a call that may fail, the chain of such calls, and what the success
-- of a chain says of its links.
use mathlib.Core.Path.{◌≡◌, refl}
use mathlib.Core.Logic.{◌⊎◌, inl, inr}
use mathlib.Core.Bool.{Bool}
use orlop.Prelude.Tests.{if◌then◌else◌}

pub data Outcome {ℓ} (E : Type 0) (T : Type ℓ) : Type ℓ where
  err : E → Outcome E T
  ok : T → Outcome E T

-- A check of a transaction.
abbrev pub guard : {E : Type 0} → Bool → E → Outcome E (Unit {0})
guard passed e = if passed then ok tt else err e

infixl 5 ◌>>=◌ ◌>>◌
abbrev pub ◌>>=◌ {ℓ κ} :
    {E : Type 0} {S : Type ℓ} {T : Type κ} → Outcome E S → (S → Outcome E T) → Outcome E T
err e >>= next = err e
ok s >>= next = next s

abbrev pub ◌>>◌ {κ} : {E : Type 0} {T : Type κ} → Outcome E (Unit {0}) → Outcome E T → Outcome E T
first >> next = first >>= (λ _. next)

pub Result-cases {ℓ} :
    {E : Type 0} {A : Type ℓ} (r : Outcome E A) → ((a : A) × (r ≡ ok a)) ⊎ ((e : E) × (r ≡ err e))
Result-cases (ok a) = inl (a, refl)
Result-cases (err e) = inr (e, refl)
