-- ===== src/Prelude/Sorting.antt =====
-- Insertion sort by a strict order, as an `order by` with a key that no two rows share.
use Prim.Native.Nat.{ℕ, zero, suc}
use mathlib.Core.Path.{◌≡◌, refl, subst}
use mathlib.Core.Logic.{◌⊎◌, inl, inr}
use mathlib.Core.Bool.{Bool, true, false, ◌&&◌}
use mathlib.Core.Option.{Option, none, some}
use mathlib.Core.List.{List, [], ◌∷◌}
use native.Mathlib.Omega.{arith}
use orlop.Prelude.Tests.{if◌then◌else◌, Bool-cases}
use orlop.Prelude.Lists.{length, take, drop, All}

module _ {A : Type 0} where
  unfoldable pub filter : (A → Bool) → List A → List A
  filter test [] = []
  filter test (x ∷ xs) = let rest = filter test xs in if test x then x ∷ rest else rest

  pub filter-All :
      (P : A → Type 0) (test : A → Bool) (xs : List A) → All P xs → All P (filter test xs)
  unfolding filter
  filter-All P test [] h = tt
  filter-All P test (x ∷ xs) (h, hs) = elim (Bool-cases (test x)) [
    | inl e ↦ rw e (h, filter-All P test xs hs)
    | inr e ↦ rw e (filter-All P test xs hs)
  ]

  pub filter_ext :
      (p q : A → Bool) (xs : List A) → ((x : A) → p x ≡ q x) → filter p xs ≡ filter q xs
  unfolding filter
  filter_ext p q [] h = refl
  filter_ext p q (x ∷ xs) h = ground (arith, h x, filter_ext p q xs h)

  pub filter_all : (p : A → Bool) (xs : List A) → All (λ x. p x ≡ true) xs → filter p xs ≡ xs
  unfolding filter
  filter_all p [] h = refl
  filter_all p (x ∷ xs) (h, hs) = ground (arith, h, filter_all p xs hs)

  pub filter_and :
      (p q : A → Bool) (xs : List A) → filter p (filter q xs) ≡ filter (λ x. q x && p x) xs
  unfolding filter
  filter_and p q [] = refl
  filter_and p q (x ∷ xs) = ground (arith, filter_and p q xs)

  pub filter_passes : (p : A → Bool) (xs : List A) → All (λ x. p x ≡ true) (filter p xs)
  unfolding filter
  filter_passes p [] = tt
  filter_passes p (x ∷ xs) = elim (Bool-cases (p x)) [
    | inl e ↦ rw e (e, filter_passes p xs)
    | inr e ↦ rw e (filter_passes p xs)
  ]

  unfoldable pub last : List A → Option A
  last [] = none
  last (x ∷ []) = some x
  last (x ∷ y ∷ xs) = last (y ∷ xs)

  pub last_of_All :
      (P : A → Type 0) (n : ℕ) (xs : List A) (l : A) → All P xs → last (take n xs) ≡ some l → P l
  unfolding last
  last_of_All P zero xs l h e = ground (arith, e)
  last_of_All P (suc n) [] l h e = ground (arith, e)
  last_of_All P (suc zero) (x ∷ xs) l (h, hs) e =
      let same : x ≡ l = ground (arith, e) in subst P same h
  last_of_All P (suc (suc n)) (x ∷ []) l (h, hs) e =
      let same : x ≡ l = ground (arith, e) in subst P same h
  last_of_All P (suc (suc n)) (x ∷ y ∷ ys) l (h, hs) e = last_of_All P (suc n) (y ∷ ys) l hs e

module _ {A : Type 0} (before : A → A → Bool) where
  unfoldable pub insert_sorted : A → List A → List A
  insert_sorted x [] = x ∷ []
  insert_sorted x (y ∷ ys) =
      let rest = insert_sorted x ys in if before y x then y ∷ rest else x ∷ y ∷ ys

  unfoldable pub order_by : List A → List A
  order_by [] = []
  order_by (x ∷ xs) = insert_sorted x (order_by xs)

  abbrev pub Sorted : List A → Type 0
  Sorted [] = Unit {0}
  Sorted (x ∷ xs) = All (λ y. before x y ≡ true) xs × Sorted xs

  -- Of two elements one comes first.
  abbrev pub IsApart : A → A → Type 0
  IsApart x y = (before x y ≡ true) ⊎ (before y x ≡ true)

  abbrev pub Distinct : List A → Type 0
  Distinct [] = Unit {0}
  Distinct (x ∷ xs) = All (IsApart x) xs × Distinct xs

  All-insert_sorted :
      (P : A → Type 0) (x : A) (xs : List A) → P x → All P xs → All P (insert_sorted x xs)
  unfolding insert_sorted
  All-insert_sorted P x [] h hs = (h, tt)
  All-insert_sorted P x (y ∷ ys) h (k, hs) = elim (Bool-cases (before y x)) [
    | inl e ↦ rw e (k, All-insert_sorted P x ys h hs)
    | inr e ↦ rw e (h, (k, hs))
  ]

  pub All-order_by : (P : A → Type 0) (xs : List A) → All P xs → All P (order_by xs)
  unfolding order_by
  All-order_by P [] h = tt
  All-order_by P (x ∷ xs) (h, hs) = All-insert_sorted P x (order_by xs) h (All-order_by P xs hs)

  pub filter-Distinct : (test : A → Bool) (xs : List A) → Distinct xs → Distinct (filter test xs)
  unfolding filter
  filter-Distinct test [] h = tt
  filter-Distinct test (x ∷ xs) (h, hs) = elim (Bool-cases (test x)) [
    | inl e ↦ rw e (filter-All (IsApart x) test xs h, filter-Distinct test xs hs)
    | inr e ↦ rw e (filter-Distinct test xs hs)
  ]

  module _ (trans : (x y z : A) → before x y ≡ true → before y z ≡ true → before x z ≡ true)
      (irrefl : (x : A) → before x x ≡ false) where
    asym : (x y : A) → before x y ≡ true → before y x ≡ false
    asym x y e = ground (arith, e, trans x y x, irrefl x, Bool-cases (before y x))

    All-behind :
        (x y : A) (ys : List A)
        → before x y ≡ true
        → All (λ z. before y z ≡ true) ys
        → All (λ z. before x z ≡ true) ys
    All-behind x y [] e h = tt
    All-behind x y (z ∷ zs) e (h, hs) = (trans x y z e h, All-behind x y zs e hs)

    insert_sorted-Sorted :
        (x : A) (xs : List A) → All (IsApart x) xs → Sorted xs → Sorted (insert_sorted x xs)
    unfolding insert_sorted
    insert_sorted-Sorted x [] apart s = (tt, tt)
    insert_sorted-Sorted x (y ∷ ys) (a, apart) (h, s) = elim (Bool-cases (before y x)) [
      | inl e ↦
          rw e
            (All-insert_sorted (λ z. before y z ≡ true) x ys e h, insert_sorted-Sorted x ys apart s)
      | inr e ↦
          let first : before x y ≡ true = ground (arith, a, e) in
          rw e ((first, All-behind x y ys first h), (h, s))
    ]

    pub order_by-Sorted : (xs : List A) → Distinct xs → Sorted (order_by xs)
    unfolding order_by
    order_by-Sorted [] d = tt
    order_by-Sorted (x ∷ xs) (h, d) =
        insert_sorted-Sorted x (order_by xs) (All-order_by (IsApart x) xs h) (order_by-Sorted xs d)

    insert_front :
        (x : A) (xs : List A) → All (λ y. before x y ≡ true) xs → insert_sorted x xs ≡ x ∷ xs
    unfolding insert_sorted
    insert_front x [] h = refl
    insert_front x (y ∷ ys) (h, hs) = ground (arith, asym x y h)

    filter-insert_sorted :
        (test : A → Bool) (x : A) (xs : List A)
        → All (IsApart x) xs
        → Sorted xs
        → filter test (insert_sorted x xs)
          ≡ (if test x then insert_sorted x (filter test xs) else filter test xs)
    unfolding filter insert_sorted
    filter-insert_sorted test x [] apart s = ground arith
    filter-insert_sorted test x (y ∷ ys) (a, apart) (h, s) = elim (Bool-cases (before y x)) [
      | inl e ↦ ground (arith, e, filter-insert_sorted test x ys apart s)
      | inr e ↦
          let first : before x y ≡ true = ground (arith, a, e) in
          let later =
            insert_front x (filter test ys)
              (filter-All (λ z. before x z ≡ true) test ys (All-behind x y ys first h)) in
          ground (arith, e, later)
    ]

    -- Sorting what passes a test keeps what passes of the sorted list.
    pub order_by-filter :
        (test : A → Bool) (xs : List A)
        → Distinct xs
        → order_by (filter test xs) ≡ filter test (order_by xs)
    unfolding order_by filter
    order_by-filter test [] d = refl
    order_by-filter test (x ∷ xs) (h, d) = ground (
      arith,
      order_by-filter test xs d,
      filter-insert_sorted test x (order_by xs) (All-order_by (IsApart x) xs h)
          (order_by-Sorted xs d),
    )

    -- Behind the last of the first n elements are the others.
    pub filter_behind :
        (n : ℕ) (xs : List A) (l : A)
        → Sorted xs
        → length (take n xs) ≡ n
        → last (take n xs) ≡ some l
        → filter (before l) xs ≡ drop n xs
    unfolding filter last
    filter_behind zero xs l s full e = ground (arith, e)
    filter_behind (suc n) [] l s full e = ground (arith, e)
    filter_behind (suc zero) (x ∷ xs) l (h, s) full e =
        let same : x ≡ l = ground (arith, e) in
        let rest : filter (before l) xs ≡ xs =
          filter_all (before l) xs (subst (λ y. All (λ z. before y z ≡ true) xs) same h) in
        ground (arith, rest, irrefl x, same)
    filter_behind (suc (suc n)) (x ∷ []) l s full e = ground (arith, full)
    filter_behind (suc (suc n)) (x ∷ y ∷ ys) l (h, s) full e =
        let passed = asym x l (last_of_All (λ z. before x z ≡ true) (suc n) (y ∷ ys) l h e) in
        rw passed (filter_behind (suc n) (y ∷ ys) l s (ground (arith, full)) e)
