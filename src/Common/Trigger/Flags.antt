-- ===== src/Common/Trigger/Flags.antt =====
-- `Matches` on unions of triggers.
use Prim.Native.Nat.{bit_and, bit_or}
use policy_bot.Prelude.{ℕ, ◌≡◌, ◌∙◌, Bool, true, false, ◌&&◌, ◌||◌, List, [], ◌∷◌, arith, ltb, any}
use policy_bot.Common.Trigger.{Trigger, matches, ◌or◌, or_if, or_all}
use policy_bot.Common.Trigger.Bits.{bit_and-bit_or, bit_or-eq-zero}

-- A union matches exactly when one of its parts does.
pub matches-or :
    (t u flags : Trigger) → matches (t or u) flags ≡ (matches t flags || matches u flags)
unfolding matches
matches-or t u flags = rw (bit_and-bit_or t u flags) (by_parts (bit_and t flags) (bit_and u flags))
  where
    by_parts : (a b : ℕ) → ltb 0 (bit_or a b) ≡ (ltb 0 a || ltb 0 b)
    by_parts a b = ground (arith, bit_or-eq-zero a b)

pub matches-or_if :
    (c : Bool) (u t flags : Trigger)
    → matches (or_if c u t) flags ≡ (matches t flags || (c && matches u flags))
matches-or_if true u t flags = matches-or t u flags
matches-or_if false u t flags = ground arith

pub matches-or_all {ℓ} :
    {A : Type ℓ} (f : A → Trigger) (xs : List A) (t flags : Trigger)
    → matches (or_all f xs t) flags ≡ (matches t flags || any (λ x. matches (f x) flags) xs)
matches-or_all f [] t flags = ground arith
matches-or_all f (x ∷ xs) t flags =
    matches-or_all f xs (t or f x) flags ∙ rw (matches-or t (f x) flags) (ground arith)
