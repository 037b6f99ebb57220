-- ===== src/Common/Methods/Resolution.antt =====
-- Method values come from the nearest level that sets them, each value on its own.
use policy_bot.Prelude.{◌≡◌, refl, false, Option, List, [], ◌∷◌}
use policy_bot.Common.Methods.{
  MethodFields, Methods, methods, with_defaults, or_else, get_comments, get_comment_patterns,
  is_github_review, get_github_review_comment_patterns, get_body_patterns,
}

-- The levels from the methods themselves to their last defaults.
unfoldable pub levels : Methods → List MethodFields
levels (methods m) = m ∷ []
levels (with_defaults m d) = m ∷ levels d

-- The value of the first level that sets it.
unfoldable pub first_set {ℓ} : {A : Type ℓ} → (MethodFields → Option A) → A → List MethodFields → A
first_set f d [] = d
first_set f d (m ∷ ms) = or_else (f m) (first_set f d ms)

-- Each getter returns the value of the first level that sets it, levels being ordered from the rule's
-- own methods to the last default, and the zero value if none does; a level that sets one value does
-- not hide the others' defaults.
pub methods_resolution :
    (m : Methods)
    → (get_comments m ≡ first_set (λ f. f.comments) [] (levels m))
      × (get_comment_patterns m ≡ first_set (λ f. f.comment_patterns) [] (levels m))
      × (is_github_review m ≡ first_set (λ f. f.github_review) false (levels m))
      × (get_github_review_comment_patterns m
          ≡ first_set (λ f. f.github_review_comment_patterns) [] (levels m))
      × (get_body_patterns m ≡ first_set (λ f. f.body_patterns) [] (levels m))
unfolding get_comments get_comment_patterns is_github_review get_github_review_comment_patterns
    get_body_patterns levels first_set
methods_resolution (methods m) = (refl, refl, refl, refl, refl)
methods_resolution (with_defaults m d) =
    let (a, b, c, e, f) = methods_resolution d in (rw a, rw b, rw c, rw e, rw f)
