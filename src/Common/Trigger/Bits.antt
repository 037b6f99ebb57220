-- ===== src/Common/Trigger/Bits.antt =====
-- `&` distributes over `|`, from the digit recursion.
use Prim.Native.Nat.{min, max, bit_and, bit_or, digits, bit_and-bitwise, bit_or-bitwise}
use policy_bot.Prelude.{ℕ, zero, suc, ◌+◌, ◌*◌, ◌/◌, ◌%◌, ◌≤◌, ◌≡◌, refl, sym, ◌∙◌, ◌↔◌, arith}

abbrev and_digits : ℕ → ℕ → ℕ → ℕ
and_digits n a b = digits (λ b. zero) min n a b

abbrev or_digits : ℕ → ℕ → ℕ → ℕ
or_digits n a b = digits (λ b. b) max n a b

-- Any count of digits that covers the first number gives the same result.
and_digits_count : (n m a b : ℕ) → a ≤ n → a ≤ m → and_digits n a b ≡ and_digits m a b
and_digits_count zero zero a b p q = refl
and_digits_count zero (suc m) zero b p q = refl
and_digits_count zero (suc m) (suc a) b p q = absurd (omega arith)
and_digits_count (suc n) zero zero b p q = refl
and_digits_count (suc n) zero (suc a) b p q = absurd (omega arith)
and_digits_count (suc n) (suc m) zero b p q = refl
and_digits_count (suc n) (suc m) (suc a) b p q =
    omega (arith, and_digits_count n m (suc a / 2) (b / 2) (omega arith) (omega arith))

or_digits_count : (n m a b : ℕ) → a ≤ n → a ≤ m → or_digits n a b ≡ or_digits m a b
or_digits_count zero zero a b p q = refl
or_digits_count zero (suc m) zero b p q = refl
or_digits_count zero (suc m) (suc a) b p q = absurd (omega arith)
or_digits_count (suc n) zero zero b p q = refl
or_digits_count (suc n) zero (suc a) b p q = absurd (omega arith)
or_digits_count (suc n) (suc m) zero b p q = refl
or_digits_count (suc n) (suc m) (suc a) b p q =
    omega (arith, or_digits_count n m (suc a / 2) (b / 2) (omega arith) (omega arith))

zero-bit_and : (b : ℕ) → bit_and 0 b ≡ 0
zero-bit_and b = bit_and-bitwise 0 b

zero-bit_or : (b : ℕ) → bit_or 0 b ≡ b
zero-bit_or b = bit_or-bitwise 0 b

and_step : (a b : ℕ) → bit_and a b ≡ bit_and (a / 2) (b / 2) * 2 + min (a % 2) (b % 2)
and_step zero b = omega (arith, zero-bit_and b, zero-bit_and (b / 2))
and_step (suc a) b = omega (
  arith,
  bit_and-bitwise (suc a) b,
  bit_and-bitwise (suc a / 2) (b / 2),
  and_digits_count a (suc a / 2) (suc a / 2) (b / 2) (omega arith) (omega arith),
)

or_step : (a b : ℕ) → bit_or a b ≡ bit_or (a / 2) (b / 2) * 2 + max (a % 2) (b % 2)
or_step zero b = omega (arith, zero-bit_or b, zero-bit_or (b / 2))
or_step (suc a) b = omega (
  arith,
  bit_or-bitwise (suc a) b,
  bit_or-bitwise (suc a / 2) (b / 2),
  or_digits_count a (suc a / 2) (suc a / 2) (b / 2) (omega arith) (omega arith),
)

half-bit_or : (a b : ℕ) → bit_or a b / 2 ≡ bit_or (a / 2) (b / 2)
half-bit_or a b = omega (arith, or_step a b)

low-bit_or : (a b : ℕ) → bit_or a b % 2 ≡ max (a % 2) (b % 2)
low-bit_or a b = omega (arith, or_step a b)

distribute_below :
    (n a b c : ℕ) → a ≤ n → b ≤ n → bit_and (bit_or a b) c ≡ bit_or (bit_and a c) (bit_and b c)
distribute_below zero zero zero c p q = rw zero-bit_or (rw zero-bit_and (sym (zero-bit_or 0)))
distribute_below zero (suc a) b c p q = absurd (omega arith)
distribute_below zero zero (suc b) c p q = absurd (omega arith)
distribute_below (suc n) a b c p q =
    let ih = distribute_below n (a / 2) (b / 2) (c / 2) (omega arith) (omega arith) in
    let left = and_step (bit_or a b) c in
    let right = or_step (bit_and a c) (bit_and b c) in
    let halves : bit_or (bit_and a c / 2) (bit_and b c / 2)
        ≡ bit_or (bit_and (a / 2) (c / 2)) (bit_and (b / 2) (c / 2)) =
      rw (half_and a c, half_and b c) refl in
    let moved : bit_and (bit_or a b / 2) (c / 2) ≡ bit_and (bit_or (a / 2) (b / 2)) (c / 2) =
      rw (half-bit_or a b) refl in
    omega (arith, ih, left, right, halves, moved, low-bit_or a b, and_step a c, and_step b c)
  where
    half_and : (x y : ℕ) → bit_and x y / 2 ≡ bit_and (x / 2) (y / 2)
    half_and x y = omega (arith, and_step x y)

pub bit_and-bit_or : (a b c : ℕ) → bit_and (bit_or a b) c ≡ bit_or (bit_and a c) (bit_and b c)
bit_and-bit_or a b c = distribute_below (a + b) a b c (omega arith) (omega arith)

bit_or-zero_below : (n a b : ℕ) → a ≤ n → bit_or a b ≡ 0 → (a ≡ 0) × (b ≡ 0)
bit_or-zero_below n zero b p e = (refl, sym (zero-bit_or b) ∙ e)
bit_or-zero_below zero (suc a) b p e = absurd (omega arith)
bit_or-zero_below (suc n) (suc a) b p e =
    let (high_a, high_b) =
      bit_or-zero_below n (suc a / 2) (b / 2) (omega arith) (omega (arith, or_step (suc a) b)) in
    (omega (arith, or_step (suc a) b), omega (arith, or_step (suc a) b))

-- A union is empty exactly when both sets are.
pub bit_or-eq-zero : (a b : ℕ) → (bit_or a b ≡ 0) ↔ ((a ≡ 0) × (b ≡ 0))
bit_or-eq-zero a b = (bit_or-zero_below a a b (omega arith), λ (p, q). rw (p, q) (zero-bit_or 0))
