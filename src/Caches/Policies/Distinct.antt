-- ===== src/Caches/Policies/Distinct.antt =====
-- Lists of elements that are told apart by their numbers, and their total size.
use policy_bot.Prelude.{
  ℕ, ◌+◌, ◌≡◌, refl, sym, ap, ◌∙◌, inl, inr, Bool, true, false, not, List, [], ◌∷◌, ◌++◌, arith,
  ◌==◌, ==_iff, Bool-cases, keep, All, All-append, All-imp, All-keep,
}
use policy_bot.Prelude.{In, All-at}
use mathlib.Core.Path.{subst}
use policy_bot.Caches.Policies.{Element, remove_from_list}

abbrev pub Distinct : List Element → Type 0
Distinct [] = Unit
Distinct (x ∷ xs) = All (λ y. (y.id == x.id) ≡ false) xs × Distinct xs

abbrev pub total : List Element → ℕ
total [] = 0
total (x ∷ xs) = x.entry.size + total xs

module _ (p : Element → Bool) where
  keep_every : (xs : List Element) → All (λ x. p x ≡ true) xs → keep p xs ≡ xs
  keep_every [] h = refl
  keep_every (x ∷ xs) (px, h) = rw px (ap (λ r. x ∷ r) (keep_every xs h))

  pub Distinct-keep : (xs : List Element) → Distinct xs → Distinct (keep p xs)
  Distinct-keep [] h = tt
  Distinct-keep (x ∷ xs) (new, h) = elim (Bool-cases (p x)) [
    | inl kept ↦ rw kept (All-keep _ p xs new, Distinct-keep xs h)
    | inr dropped ↦ rw dropped (Distinct-keep xs h)
  ]

pub Distinct-concat :
    (xs : List Element) (e : Element)
    → Distinct xs
    → All (λ x. (e.id == x.id) ≡ false) xs
    → Distinct (xs ++ (e ∷ []))
Distinct-concat [] e h new = (tt, tt)
Distinct-concat (x ∷ xs) e (first, h) (nx, new) =
    (All-append _ xs (e ∷ []) first (nx, tt), Distinct-concat xs e h new)

-- In such a list, an element is known by its number.
pub Distinct-same :
    (xs : List Element) (x y : Element)
    → Distinct xs
    → In x xs
    → In y xs
    → (x.id == y.id) ≡ true
    → x ≡ y
Distinct-same [] x y h p q same = absurd p
Distinct-same (z ∷ xs) x y (new, h) (inl p) (inl q) same = sym p ∙ q
Distinct-same (z ∷ xs) x y (new, h) (inl p) (inr q) same =
    let differ = All-at (λ y. (y.id == z.id) ≡ false) xs y new q in ground (arith, ap (λ w. w.id) p)
Distinct-same (z ∷ xs) x y (new, h) (inr p) (inl q) same =
    let differ = All-at (λ w. (w.id == z.id) ≡ false) xs x new p in ground (arith, ap (λ w. w.id) q)
Distinct-same (z ∷ xs) x y (new, h) (inr p) (inr q) same = Distinct-same xs x y h p q same

pub total-concat :
    (xs : List Element) (e : Element) → total (xs ++ (e ∷ [])) ≡ total xs + e.entry.size
total-concat [] e = omega arith
total-concat (x ∷ xs) e = omega (arith, total-concat xs e)

-- The front alone is taken away.
pub remove-front :
    (x : Element) (xs : List Element) → Distinct (x ∷ xs) → remove_from_list x (x ∷ xs) ≡ xs
unfolding remove_from_list
remove-front x xs (new, h) =
    rw ((==_iff x.id x.id).1 refl)
      (keep_every (λ y. not (y.id == x.id)) xs (All-imp (λ y q. rw q refl) xs new))

pub total-removed :
    (xs : List Element) (e : Element)
    → Distinct xs
    → In e xs
    → total (remove_from_list e xs) + e.entry.size ≡ total xs
unfolding remove_from_list
total-removed [] e h among = absurd among
total-removed (x ∷ xs) e (new, h) (inl same) =
    let left = subst (λ y. remove_from_list y (x ∷ xs) ≡ xs) same (remove-front x xs (new, h)) in
    let size = ap (λ y. y.entry.size) same in let sum = ap total left in omega (arith, size, sum)
total-removed (x ∷ xs) e (new, h) (inr among) =
    let differ = All-at (λ y. (y.id == x.id) ≡ false) xs e new among in
    let other : (x.id == e.id) ≡ false = ground arith in
    rw other (omega (arith, total-removed xs e h among))
