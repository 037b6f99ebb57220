-- ===== src/Common/Trigger/Inclusion.antt =====
-- What a trigger includes.
use policy_bot.Prelude.{◌≡◌, Bool, true, ◌||◌, List, [], ◌∷◌, arith, All}
use policy_bot.Common.Trigger.{Trigger, matches, ◌or◌, or_if, or_all}
use policy_bot.Common.Trigger.Flags.{matches-or, matches-or_if, matches-or_all}

-- `t` has every flag of `u`.
abbrev pub Includes : Trigger → Trigger → Type 0
Includes t u = (f : Trigger) → matches u f ≡ true → matches t f ≡ true

or_left : (a b : Bool) → a ≡ true → (a || b) ≡ true
or_left a b h = ground arith

or_right : (a b : Bool) → b ≡ true → (a || b) ≡ true
or_right a b h = ground arith

pub Includes-or_if_rest : (c : Bool) (u t : Trigger) → Includes (or_if c u t) t
Includes-or_if_rest c u t f m = rw (matches-or_if c u t f) (or_left _ _ m)

pub Includes-or_if : (u t : Trigger) (c : Bool) → c ≡ true → Includes (or_if c u t) u
Includes-or_if u t c e f m = rw (e, matches-or t u f) (or_right _ _ m)

module _ {ℓ} {A : Type ℓ} (g : A → Trigger) where
  pub Includes-or_all_rest : (xs : List A) (t : Trigger) → Includes (or_all g xs t) t
  Includes-or_all_rest xs t f m = rw (matches-or_all g xs t f) (or_left _ _ m)

  pub Includes-or_all : (xs : List A) (t : Trigger) → All (λ x. Includes (or_all g xs t) (g x)) xs
  Includes-or_all [] t = tt
  Includes-or_all (x ∷ xs) t = (
    (λ f m. Includes-or_all_rest xs (t or g x) f (rw (matches-or t (g x) f) (or_right _ _ m))),
    Includes-or_all xs (t or g x),
  )
