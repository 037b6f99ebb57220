-- ===== src/Prelude/Lists.antt =====
-- Lists measured by native numbers, and the searches that the program's loops make.
use Prim.Native.Nat.{ℕ, zero, suc, ◌+◌}
use Prim.Native.String.{String}
use mathlib.Core.Path.{◌≡◌, refl, ap}
use mathlib.Core.Logic.{inl, inr}
use text.Mathlib.TextEquality.{eq_iff}
use text.Mathlib.TextPositions.{eq_refl}
use mathlib.Core.Bool.{Bool, true, false, ◌||◌}
use mathlib.Core.Option.{Option, none, some}
use mathlib.Core.List.{List, [], ◌∷◌, ◌++◌, Mem, mem-cons_self, mem-cons_of_mem}
use native.Mathlib.Omega.{arith}
use policy_bot.Prelude.Tests.{str_eq, if◌then◌else◌, Bool-cases}

module _ {ℓ} {A : Type ℓ} where
  abbrev pub length : List A → ℕ
  length [] = 0
  length (x ∷ xs) = suc (length xs)

  abbrev pub is_empty : List A → Bool
  is_empty [] = true
  is_empty (x ∷ xs) = false

  -- `for x := range xs { if p(x) { return true } }; return false`
  abbrev pub any : (A → Bool) → List A → Bool
  any p [] = false
  any p (x ∷ xs) = p x || any p xs

  abbrev pub all : (A → Bool) → List A → Bool
  all p [] = true
  all p (x ∷ xs) = if p x then all p xs else false

  abbrev pub keep : (A → Bool) → List A → List A
  keep p [] = []
  keep p (x ∷ xs) = if p x then x ∷ keep p xs else keep p xs

  abbrev pub last? : List A → Option A
  last? [] = none
  last? (x ∷ []) = some x
  last? (x ∷ y ∷ xs) = last? (y ∷ xs)

  abbrev pub take : ℕ → List A → List A
  take zero xs = []
  take (suc n) [] = []
  take (suc n) (x ∷ xs) = x ∷ take n xs

  pub length-append : (xs ys : List A) → length (xs ++ ys) ≡ length xs + length ys
  length-append [] ys = omega arith
  length-append (x ∷ xs) ys = omega (arith, length-append xs ys)

  pub any-append : (p : A → Bool) (xs ys : List A) → any p (xs ++ ys) ≡ (any p xs || any p ys)
  any-append p [] ys = refl
  any-append p (x ∷ xs) ys = ground (arith, any-append p xs ys)

-- A predicate of every entry, which computes to a tuple.
module _ {ℓ κ} {A : Type ℓ} (P : A → Type κ) where
  abbrev pub All : List A → Type κ
  All [] = Unit
  All (x ∷ xs) = P x × All xs

  pub All-append : (xs ys : List A) → All xs → All ys → All (xs ++ ys)
  All-append [] ys hx hy = hy
  All-append (x ∷ xs) ys (px, hx) hy = (px, All-append xs ys hx hy)

  pub All-keep : (p : A → Bool) (xs : List A) → All xs → All (keep p xs)
  All-keep p [] h = tt
  All-keep p (x ∷ xs) (px, h) = ground (arith, All-keep p xs h)

  pub All-of_mem : (xs : List A) → ((x : A) → Mem x xs → P x) → All xs
  All-of_mem [] f = tt
  All-of_mem (x ∷ xs) f = (f x mem-cons_self, All-of_mem xs (λ y m. f y (mem-cons_of_mem x m)))

  -- What `keep` keeps passes its test.
  pub All-kept : (p : A → Bool) → ((x : A) → p x ≡ true → P x) → (xs : List A) → All (keep p xs)
  All-kept p f [] = tt
  All-kept p f (x ∷ xs) = by_test (p x) refl (All-kept p f xs)
    where
      by_test :
          (b : Bool) → p x ≡ b → All (keep p xs) → All (if b then x ∷ keep p xs else keep p xs)
      by_test true e rest = (f x e, rest)
      by_test false e rest = rest

module _ {ℓ κ} {A : Type ℓ} (P : A → Type κ) where
  pub All-under : (b : Bool) (xs : List A) → (b ≡ true → All P xs) → All (λ x. b ≡ true → P x) xs
  All-under b [] h = tt
  All-under b (x ∷ xs) h = ((λ e. (h e).0), All-under b xs (λ e. (h e).1))

module _ {ℓ κ μ} {A : Type ℓ} {P : A → Type κ} {Q : A → Type μ} where
  pub All-imp : ((x : A) → P x → Q x) → (xs : List A) → All P xs → All Q xs
  All-imp f [] h = tt
  All-imp f (x ∷ xs) (px, h) = (f x px, All-imp f xs h)

module _ {ℓ κ μ ν} {A : Type ℓ} {P : A → Type κ} {Q : A → Type μ} {R : A → Type ν} where
  pub All-zip : ((x : A) → P x → Q x → R x) → (xs : List A) → All P xs → All Q xs → All R xs
  All-zip f [] h k = tt
  All-zip f (x ∷ xs) (px, h) (qx, k) = (f x px qx, All-zip f xs h k)

-- `slices.Contains` on texts.
abbrev pub contains : List String → String → Bool
contains xs s = any (λ x. str_eq x s) xs

-- A Go map with text keys: one entry a key. `put` overwrites.
module _ {ℓ} {V : Type ℓ} where
  abbrev pub get : String → List (String × V) → Option V
  get k [] = none
  get k ((j, v) ∷ m) = if str_eq j k then some v else get k m

  abbrev pub put : String → V → List (String × V) → List (String × V)
  put k v [] = (k, v) ∷ []
  put k v ((j, w) ∷ m) = if str_eq j k then (k, v) ∷ m else (j, w) ∷ put k v m

  -- Reading after an assignment: the key itself, and another one.
  pub get-put_self : (k : String) (v : V) (m : List (String × V)) → get k (put k v m) ≡ some v
  get-put_self k v [] = rw (eq_refl k) refl
  get-put_self k v ((j, w) ∷ m) = elim (Bool-cases (str_eq j k)) [
    | inl same ↦ rw (same, eq_refl k) refl
    | inr other ↦ rw (other, other) (get-put_self k v m)
  ]

  pub get-put_other :
      (j k : String) (v : V) (m : List (String × V))
      → str_eq j k ≡ false
      → get k (put j v m) ≡ get k m
  get-put_other j k v [] ne = rw ne refl
  get-put_other j k v ((i, w) ∷ m) ne = elim (Bool-cases (str_eq i j)) [
    | inl same ↦
        let other : str_eq i k ≡ false = rw ((eq_iff i j).0 same) ne in rw (same, ne, other) refl
    | inr differs ↦
        rw differs (ap (λ r. if str_eq i k then some w else r) (get-put_other j k v m ne))
  ]
