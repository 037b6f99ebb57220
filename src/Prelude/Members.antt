-- ===== src/Prelude/Members.antt =====
-- Membership in a list, which says where an entry is found.
use mathlib.Core.Path.{◌≡◌, refl, subst}
use mathlib.Core.Logic.{◌⊎◌, inl, inr}
use mathlib.Core.Bool.{Bool, true, false}
use mathlib.Core.List.{List, [], ◌∷◌, ◌++◌, map}
use Prim.Native.String.{String}
use text.Mathlib.TextEquality.{eq_iff}
use text.Mathlib.TextPositions.{eq_refl}
use policy_bot.Prelude.Tests.{str_eq, if◌then◌else◌, Bool-cases}
use policy_bot.Prelude.Lists.{keep, All, contains}

module _ {A : Type 0} where
  -- An entry is in the list.
  abbrev pub In : A → List A → Type 0
  In e [] = ⊥
  In e (x ∷ xs) = (x ≡ e) ⊎ In e xs

  pub All-at {κ} : (P : A → Type κ) (xs : List A) (e : A) → All P xs → In e xs → P e
  All-at P [] e h among = absurd among
  All-at P (x ∷ xs) e (px, h) (inl same) = subst P same px
  All-at P (x ∷ xs) e (px, h) (inr among) = All-at P xs e h among

  pub In-All {κ} : (P : A → Type κ) (xs : List A) → ((e : A) → In e xs → P e) → All P xs
  In-All P [] f = tt
  In-All P (x ∷ xs) f = (f x (inl refl), In-All P xs (λ e among. f e (inr among)))

  pub In-concat_left : (e : A) (xs ys : List A) → In e xs → In e (xs ++ ys)
  In-concat_left e [] ys among = absurd among
  In-concat_left e (x ∷ xs) ys (inl same) = inl same
  In-concat_left e (x ∷ xs) ys (inr among) = inr (In-concat_left e xs ys among)

  pub In-concat_right : (e : A) (xs ys : List A) → In e ys → In e (xs ++ ys)
  In-concat_right e [] ys among = among
  In-concat_right e (x ∷ xs) ys among = inr (In-concat_right e xs ys among)

  pub In-concat : (xs ys : List A) (e : A) → In e (xs ++ ys) → In e xs ⊎ In e ys
  In-concat [] ys e among = inr among
  In-concat (x ∷ xs) ys e (inl same) = inl (inl same)
  In-concat (x ∷ xs) ys e (inr among) = elim (In-concat xs ys e among) [
    | inl l ↦ inl (inr l)
    | inr r ↦ inr r
  ]

  module _ (p : A → Bool) where
    pub In-keep : (e : A) (xs : List A) → p e ≡ true → In e xs → In e (keep p xs)
    In-keep e [] pe among = absurd among
    In-keep e (x ∷ xs) pe (inl same) = rw (same, pe) (inl refl)
    In-keep e (x ∷ xs) pe (inr among) = elim (Bool-cases (p x)) [
      | inl kept ↦ rw kept (inr (In-keep e xs pe among))
      | inr dropped ↦ rw dropped (In-keep e xs pe among)
    ]

    pub keep-In : (e : A) (xs : List A) → In e (keep p xs) → (p e ≡ true) × In e xs
    keep-In e [] among = absurd among
    keep-In e (x ∷ xs) among = by_test (p x) refl (keep-In e xs) among
      where
        by_test :
            (b : Bool)
            → p x ≡ b
            → (In e (keep p xs) → (p e ≡ true) × In e xs)
            → In e (if b then x ∷ keep p xs else keep p xs)
            → (p e ≡ true) × ((x ≡ e) ⊎ In e xs)
        by_test true q rest (inl same) = (subst (λ y. p y ≡ true) same q, inl same)
        by_test true q rest (inr later) = let (k, m) = rest later in (k, inr m)
        by_test false q rest later = let (k, m) = rest later in (k, inr m)

pub In-map :
    {A B : Type 0} (f : A → B) (b : B) (xs : List A)
    → In b (map f xs)
    → (a : A) × In a xs × (f a ≡ b)
In-map f b [] among = absurd among
In-map f b (x ∷ xs) (inl same) = (x, inl refl, same)
In-map f b (x ∷ xs) (inr among) = let (a, m, e) = In-map f b xs among in (a, inr m, e)

pub map-In : {A B : Type 0} (f : A → B) (a : A) (xs : List A) → In a xs → In (f a) (map f xs)
map-In f a [] among = absurd among
map-In f a (x ∷ xs) (inl same) = inl (rw same refl)
map-In f a (x ∷ xs) (inr among) = inr (map-In f a xs among)

-- `slices.Contains` finds exactly the entries.
pub contains→In : (xs : List String) (s : String) → contains xs s ≡ true → In s xs
contains→In [] s h = absurd cc
contains→In (x ∷ xs) s h = elim (Bool-cases (str_eq x s)) [
  | inl same ↦ inl ((eq_iff x s).0 same)
  | inr other ↦ inr (contains→In xs s (rw other at h))
]

pub In→contains : (xs : List String) (s : String) → In s xs → contains xs s ≡ true
In→contains [] s among = absurd among
In→contains (x ∷ xs) s (inl same) = rw (same, eq_refl s) refl
In→contains (x ∷ xs) s (inr among) = elim (Bool-cases (str_eq x s)) [
  | inl same ↦ rw same refl
  | inr other ↦ rw (other, In→contains xs s among) refl
]
