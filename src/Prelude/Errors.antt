-- ===== src/Prelude/Errors.antt =====
-- A Go function that returns `(A, error)`.
use Prim.Native.String.{String}
use mathlib.Core.Path.{◌≡◌, refl}

-- An error is the text it was made with, and the texts that `errors.Wrap` and `errors.WithMessage`
-- put before it. `diverged` is no error of the program: it marks a run that never returns, or that panics.
pub data Error : Type 0 where
  raised : String → Error
  wrapped : String → Error → Error
  diverged : Error

pub data Attempt {ℓ} (A : Type ℓ) : Type ℓ where
  ok : A → Attempt A
  err : Error → Attempt A

infixl 5 ◌>>=◌
abbrev pub ◌>>=◌ {ℓ κ} : {A : Type ℓ} {B : Type κ} → Attempt A → (A → Attempt B) → Attempt B
ok a >>= f = f a
err e >>= f = err e

-- `if err != nil { return nil, errors.Wrap(err, msg) }`
abbrev pub wrap {ℓ} : {A : Type ℓ} → String → Attempt A → Attempt A
wrap msg (ok a) = ok a
wrap msg (err e) = err (wrapped msg e)

-- Inversion of a successful bind and of a successful `wrap`.
pub >>=-eq-ok {ℓ κ} :
    {A : Type ℓ} {B : Type κ} (first : Attempt A) (next : A → Attempt B) {result : B}
    → (first >>= next) ≡ ok result
    → (value : A) × (first ≡ ok value) × (next value ≡ ok result)
>>=-eq-ok (ok value) next done = (value, refl, done)
>>=-eq-ok (err e) next done = cc

pub wrap-eq-ok {ℓ} :
    {A : Type ℓ} (msg : String) (m : Attempt A) {a : A} → wrap msg m ≡ ok a → m ≡ ok a
wrap-eq-ok msg (ok a) h = h
wrap-eq-ok msg (err e) h = cc

pub ok-injective {ℓ} : {A : Type ℓ} {a b : A} → ◌≡◌ {A = Attempt A} (ok a) (ok b) → a ≡ b
ok-injective e = cc

pub >>=-same {ℓ κ} :
    {A : Type ℓ} {B : Type κ} (m : Attempt A) {f g : A → Attempt B}
    → ((a : A) → f a ≡ g a)
    → (m >>= f) ≡ (m >>= g)
>>=-same (ok a) h = h a
>>=-same (err e) h = refl
