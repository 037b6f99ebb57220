-- ===== src/Approval/Options/Merging.antt =====
-- `GetMethods`: the methods of a rule's options, over those of its defaults.
use policy_bot.Prelude.{◌≡◌, refl, sym, ap, ◌∙◌, false, Option, none, some, List, [], ◌∷◌}
use policy_bot.Pull.{review_approved}
use policy_bot.Common.Methods.{
  MethodFields, Methods, methods, with_defaults as method_defaults, github_review_state,
  get_comments, get_comment_patterns, is_github_review, get_github_review_comment_patterns,
  get_body_patterns,
}
use policy_bot.Common.Methods.Resolution.{levels, first_set, methods_resolution}
use policy_bot.Approval.Options.{
  Options, options, with_defaults, no_method_fields, own_methods, methods_over, get_methods,
}

-- The fields that a level of options sets, without the defaults of its methods.
abbrev pub own_fields : Option Methods → MethodFields
own_fields none = no_method_fields
own_fields (some (methods m)) = m
own_fields (some (method_defaults m d)) = m

abbrev pub inherited : Option Methods → List MethodFields
inherited none = []
inherited (some (methods m)) = []
inherited (some (method_defaults m d)) = levels d

-- All levels of options; the defaults of methods matter at the last one only.
abbrev pub method_levels : Options → List MethodFields
method_levels (options o) = own_fields o.methods ∷ inherited o.methods
method_levels (with_defaults o d) = own_fields o.methods ∷ method_levels d

-- A list of levels that differs in the reviews' state only.
abbrev Alike : List MethodFields → List MethodFields → Type 0
Alike [] [] = Unit
Alike (m ∷ ms) (n ∷ ns) =
    (record m { github_review_state = "" } ≡ record n { github_review_state = "" }) × Alike ms ns
Alike [] (n ∷ ns) = ⊥
Alike (m ∷ ms) [] = ⊥

Alike-self : (ms : List MethodFields) → Alike ms ms
Alike-self [] = tt
Alike-self (m ∷ ms) = (refl, Alike-self ms)

get_methods-Alike : (o : Options) → Alike (levels (get_methods o)) (method_levels o)
unfolding get_methods own_methods methods_over levels
get_methods-Alike (options o) = by_methods o.methods
  where
    by_methods : (m : Option Methods) → Alike (levels (own_methods m)) (own_fields m ∷ inherited m)
    by_methods none = (refl, tt)
    by_methods (some (methods m)) = (refl, tt)
    by_methods (some (method_defaults m d)) = (refl, Alike-self (levels d))
get_methods-Alike (with_defaults o d) = by_methods o.methods (get_methods d) (get_methods-Alike d)
  where
    by_methods :
        (m : Option Methods) (over : Methods)
        → Alike (levels over) (method_levels d)
        → Alike (levels (methods_over m over)) (own_fields m ∷ method_levels d)
    by_methods none over h = (refl, h)
    by_methods (some (methods m)) over h = (refl, h)
    by_methods (some (method_defaults m _)) over h = (refl, h)

-- Which level sets a field does not depend on the state.
first_set-Alike {ℓ} :
    {A : Type ℓ} (f : MethodFields → Option A) (z : A) (ms ns : List MethodFields)
    → ((m : MethodFields) → f (record m { github_review_state = "" }) ≡ f m)
    → Alike ms ns
    → first_set f z ms ≡ first_set f z ns
unfolding first_set
first_set-Alike f z [] [] same h = refl
first_set-Alike f z (m ∷ ms) (n ∷ ns) same (e, h) =
    let one : f m ≡ f n = sym (same m) ∙ ap f e ∙ same n in
    rw (one, first_set-Alike f z ms ns same h) refl
first_set-Alike f z [] (n ∷ ns) same h = absurd h
first_set-Alike f z (m ∷ ms) [] same h = absurd h

get_methods-state : (o : Options) → github_review_state (get_methods o) ≡ review_approved
unfolding get_methods own_methods methods_over
get_methods-state (options o) = by_methods o.methods
  where
    by_methods : (m : Option Methods) → github_review_state (own_methods m) ≡ review_approved
    by_methods none = refl
    by_methods (some (methods m)) = refl
    by_methods (some (method_defaults m d)) = refl
get_methods-state (with_defaults o d) = by_methods o.methods
  where
    by_methods :
        (m : Option Methods)
        → github_review_state (methods_over m (get_methods d)) ≡ review_approved
    by_methods none = refl
    by_methods (some (methods m)) = refl
    by_methods (some (method_defaults m _)) = refl

-- The methods of a rule's options count approving reviews, and are merged field by field: each field has
-- the value of the first level of options whose methods set it, then of the defaults of the last level's
-- methods, and the zero value if none does; the defaults of another level's methods are not read.
pub get_methods-levels :
    (o : Options)
    → (github_review_state (get_methods o) ≡ review_approved)
      × (get_comments (get_methods o) ≡ first_set (λ f. f.comments) [] (method_levels o))
      × (get_comment_patterns (get_methods o)
          ≡ first_set (λ f. f.comment_patterns) [] (method_levels o))
      × (is_github_review (get_methods o)
          ≡ first_set (λ f. f.github_review) false (method_levels o))
      × (get_github_review_comment_patterns (get_methods o)
          ≡ first_set (λ f. f.github_review_comment_patterns) [] (method_levels o))
      × (get_body_patterns (get_methods o) ≡ first_set (λ f. f.body_patterns) [] (method_levels o))
get_methods-levels o =
    let (a, b, c, d, e) = methods_resolution (get_methods o) in
    let alike = get_methods-Alike o in
    (
      get_methods-state o,
      a ∙ first_set-Alike (λ f. f.comments) [] _ _ (λ m. refl) alike,
      b ∙ first_set-Alike (λ f. f.comment_patterns) [] _ _ (λ m. refl) alike,
      c ∙ first_set-Alike (λ f. f.github_review) false _ _ (λ m. refl) alike,
      d ∙ first_set-Alike (λ f. f.github_review_comment_patterns) [] _ _ (λ m. refl) alike,
      e ∙ first_set-Alike (λ f. f.body_patterns) [] _ _ (λ m. refl) alike,
    )
