-- ===== src/Prelude/Tables.antt =====
-- Rows of a table by a column of texts.
use mathlib.Core.Path.{◌≡◌}
use mathlib.Core.Option.{Option, none, some}
use mathlib.Core.Option
use mathlib.Core.List.{List, [], ◌∷◌}
use native.Mathlib.Omega.{arith}
use orlop.Prelude.Texts.{Text, eqb, eqb_iff, text_dec}
use orlop.Prelude.Tests.{if◌then◌else◌}

module _ {R : Type 0} (key : R → Text) where
  -- The first row with the key.
  unfoldable pub find : Text → List R → Option R
  find p [] = none
  find p (r ∷ rs) = if eqb (key r) p then some r else find p rs

  -- delete from ... where key = p
  unfoldable pub delete_key : Text → List R → List R
  delete_key p [] = []
  delete_key p (r ∷ rs) = let rest = delete_key p rs in if eqb (key r) p then rest else r ∷ rest

  -- update ... set (f) where key = p
  unfoldable pub update_key : Text → (R → R) → List R → List R
  update_key p f [] = []
  update_key p f (r ∷ rs) = (if eqb (key r) p then f r else r) ∷ update_key p f rs

  pub find-update_key :
      (p q : Text) (f : R → R) (rs : List R)
      → ((r : R) → key (f r) ≡ key r)
      → find p (update_key q f rs) ≡ (if eqb q p then Option.map f (find p rs) else find p rs)
  unfolding find update_key text_dec
  find-update_key p q f [] keeps = ground arith
  find-update_key p q f (r ∷ rs) keeps = ground (
    arith,
    find-update_key p q f rs keeps,
    keeps r,
    eqb_iff (key r) q,
    eqb_iff (key r) p,
    eqb_iff q p,
  )

  pub key-find : (p : Text) (rs : List R) (r : R) → find p rs ≡ some r → key r ≡ p
  unfolding find
  key-find p [] r e = ground (arith, e)
  key-find p (q ∷ rs) r e = ground (arith, e, key-find p rs r, eqb_iff (key q) p)

  pub find-delete_key :
      (p q : Text) (rs : List R) → find q (delete_key p rs) ≡ (if eqb p q then none else find q rs)
  unfolding find delete_key
  find-delete_key p q [] = ground arith
  find-delete_key p q (r ∷ rs) =
      ground (arith, find-delete_key p q rs, eqb_iff (key r) p, eqb_iff (key r) q, eqb_iff p q)
