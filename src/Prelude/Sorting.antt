-- ===== src/Prelude/Sorting.antt =====
-- `sort.Stable`, `sort.Strings` and `sort.Slice`: insertion behind the entries that are not greater.
use Prim.Native.String.{String, compare}
use mathlib.Core.Path.{◌≡◌, refl}
use mathlib.Core.Bool.{Bool, true, false}
use mathlib.Core.List.{List, [], ◌∷◌, Perm}
use mathlib.Core.List.Perm
use native.Mathlib.Omega.{arith}
use text.Mathlib.Text.{is_lt}
use mathlib.Core.Bool.{◌||◌}
use mathlib.Core.Logic.{inl, inr}
use mathlib.Core.Option.{some}
use Prim.Native.Nat.{ℕ, ◌≤◌}
use policy_bot.Prelude.Tests.{if◌then◌else◌, Bool-cases, ltb}
use policy_bot.Prelude.Lists.{any, All, All-imp, last?}

module _ {ℓ} {A : Type ℓ} (less : A → A → Bool) where
  -- `x` stood before the sorted rest, so it goes before its equals.
  unfoldable pub insert_sorted : A → List A → List A
  insert_sorted x [] = x ∷ []
  insert_sorted x (y ∷ ys) = if less y x then y ∷ insert_sorted x ys else x ∷ y ∷ ys

  unfoldable pub sort : List A → List A
  unfolding insert_sorted
  sort [] = []
  sort (x ∷ xs) = insert_sorted x (sort xs)

  insert_sorted-perm : (x : A) (ys : List A) → Perm (insert_sorted x ys) (x ∷ ys)
  unfolding insert_sorted
  insert_sorted-perm x [] = Perm.refl (x ∷ [])
  insert_sorted-perm x (y ∷ ys) = elim (Bool-cases (less y x)) [
    | inl e ↦ rw e (Perm.trans (Perm.cons y (insert_sorted-perm x ys)) (Perm.swap x y ys))
    | inr e ↦ rw e (Perm.refl (x ∷ y ∷ ys))
  ]

  pub sort-perm : (xs : List A) → Perm (sort xs) xs
  unfolding sort
  sort-perm [] = Perm.refl []
  sort-perm (x ∷ xs) = Perm.trans (insert_sorted-perm x (sort xs)) (Perm.cons x (sort-perm xs))

  any-insert_sorted :
      (p : A → Bool) (x : A) (ys : List A) → any p (insert_sorted x ys) ≡ (p x || any p ys)
  unfolding insert_sorted
  any-insert_sorted p x [] = refl
  any-insert_sorted p x (y ∷ ys) = ground (arith, any-insert_sorted p x ys)

  pub any-sort : (p : A → Bool) (xs : List A) → any p (sort xs) ≡ any p xs
  unfolding sort
  any-sort p [] = refl
  any-sort p (x ∷ xs) = rw (any-insert_sorted p x (sort xs)) (rw (any-sort p xs))

  module _ {κ} (P : A → Type κ) where
    pub All-insert_sorted : (x : A) (ys : List A) → P x → All P ys → All P (insert_sorted x ys)
    unfolding insert_sorted
    All-insert_sorted x [] px h = (px, tt)
    All-insert_sorted x (y ∷ ys) px (py, h) = ground (arith, All-insert_sorted x ys px h)

    All-of_insert_sorted : (x : A) (ys : List A) → All P (insert_sorted x ys) → P x × All P ys
    unfolding insert_sorted
    All-of_insert_sorted x [] h = h
    All-of_insert_sorted x (y ∷ ys) h = by_test (less y x) h (All-of_insert_sorted x ys)
      where
        by_test :
            (b : Bool)
            → All P (if b then y ∷ insert_sorted x ys else x ∷ y ∷ ys)
            → (All P (insert_sorted x ys) → P x × All P ys)
            → P x × All P (y ∷ ys)
        by_test true (py, later) hyp = let (px, pys) = hyp later in (px, (py, pys))
        by_test false (px, pys) hyp = (px, pys)

    pub All-of_sort : (xs : List A) → All P (sort xs) → All P xs
    unfolding sort
    All-of_sort [] h = tt
    All-of_sort (x ∷ xs) h =
        let (px, later) = All-of_insert_sorted x (sort xs) h in (px, All-of_sort xs later)

    pub All-sort : (xs : List A) → All P xs → All P (sort xs)
    unfolding sort
    All-sort [] h = tt
    All-sort (x ∷ xs) (px, h) = All-insert_sorted x (sort xs) px (All-sort xs h)

-- Sorting by a number: the last entry is a greatest one.
module _ {ℓ} {A : Type ℓ} (f : A → ℕ) where
  abbrev less_by : A → A → Bool
  less_by a b = ltb (f a) (f b)

  abbrev IsSorted : List A → Type 0
  IsSorted [] = Unit
  IsSorted (x ∷ xs) = All (λ y. f x ≤ f y) xs × IsSorted xs

  insert_sorted-IsSorted :
      (x : A) (ys : List A) → IsSorted ys → IsSorted (insert_sorted less_by x ys)
  unfolding insert_sorted
  insert_sorted-IsSorted x [] h = (tt, tt)
  insert_sorted-IsSorted x (y ∷ ys) (least, h) = elim (Bool-cases (ltb (f y) (f x))) [
    | inl e ↦
        let before : f y ≤ f x = ground arith in
        rw e (
          All-insert_sorted less_by (λ z. f y ≤ f z) x ys before least,
          insert_sorted-IsSorted x ys h,
        )
    | inr e ↦
        let before : f x ≤ f y = ground arith in
        rw e ((before, All-imp (λ z l. omega (arith, before, l)) ys least), (least, h))
  ]

  sort-IsSorted : (xs : List A) → IsSorted (sort less_by xs)
  unfolding sort
  sort-IsSorted [] = tt
  sort-IsSorted (x ∷ xs) = insert_sorted-IsSorted x (sort less_by xs) (sort-IsSorted xs)

  last?-greatest : (xs : List A) (m : A) → IsSorted xs → last? xs ≡ some m → All (λ x. f x ≤ f m) xs
  last?-greatest [] m h e = tt
  last?-greatest (x ∷ []) m h e = let same : x ≡ m = cc e in (rw same (omega arith), tt)
  last?-greatest (x ∷ y ∷ xs) m ((least, leasts), h) e =
      let (first, rest) = last?-greatest (y ∷ xs) m h e in
      (omega (arith, least, first), (first, rest))

  pub last?-sort-greatest :
      (xs : List A) (m : A)
      → last? (sort less_by xs) ≡ some m
      → All (λ x. f x ≤ f m) (sort less_by xs)
  last?-sort-greatest xs m = last?-greatest (sort less_by xs) m (sort-IsSorted xs)

abbrev pub str_lt : String → String → Bool
str_lt s t = is_lt (compare s t)

-- Go ranges over a map in an order that it does not specify: an order is a function that permutes.
pub record MapOrder (A : Type 0) : Type 0 where
  pub arrange : List A → List A
  pub arrange-perm : (xs : List A) → Perm (arrange xs) xs

-- The order of insertion.
abbrev pub insertion_order : {A : Type 0} → MapOrder A
insertion_order = record { arrange = λ xs. xs; arrange-perm = λ xs. Perm.refl xs }
