-- ===== src/Approval/Options/Resolution.antt =====
-- Where the value of an option comes from.
use policy_bot.Prelude.{◌≡◌, refl, false, Option, List, [], ◌∷◌}
use policy_bot.Common.Actors.{no_actors}
use policy_bot.Approval.Options.{
  no_request_review, OptionFields, Options, options, with_defaults, or_else, is_allow_author,
  is_allow_contributor, is_allow_non_author_contributor, is_invalidate_on_push,
  is_ignore_edited_comments, is_ignore_update_merges, get_ignore_commits_by, get_request_review,
}

-- The options, and their defaults in turn.
abbrev pub option_levels : Options → List OptionFields
option_levels (options o) = o ∷ []
option_levels (with_defaults o d) = o ∷ option_levels d

-- The value of the first level that sets it.
pub first_option {ℓ} : {A : Type ℓ} → (OptionFields → Option A) → A → List OptionFields → A
first_option f d [] = d
first_option f d (o ∷ os) = or_else (f o) (first_option f d os)

-- Each option but the methods has the value of the first level that sets it, levels being ordered from the rule's
-- own options to the last default, and the zero value if none does.
pub options_resolution :
    (o : Options)
    → (is_allow_author o ≡ first_option (λ f. f.allow_author) false (option_levels o))
      × (is_allow_contributor o ≡ first_option (λ f. f.allow_contributor) false (option_levels o))
      × (is_allow_non_author_contributor o
          ≡ first_option (λ f. f.allow_non_author_contributor) false (option_levels o))
      × (is_invalidate_on_push o ≡ first_option (λ f. f.invalidate_on_push) false (option_levels o))
      × (is_ignore_edited_comments o
          ≡ first_option (λ f. f.ignore_edited_comments) false (option_levels o))
      × (is_ignore_update_merges o
          ≡ first_option (λ f. f.ignore_update_merges) false (option_levels o))
      × (get_ignore_commits_by o
          ≡ first_option (λ f. f.ignore_commits_by) no_actors (option_levels o))
      × (get_request_review o
          ≡ first_option (λ f. f.request_review) no_request_review (option_levels o))
unfolding is_allow_author is_allow_contributor is_allow_non_author_contributor is_invalidate_on_push
    is_ignore_edited_comments is_ignore_update_merges get_ignore_commits_by get_request_review
    first_option
options_resolution (options o) = (refl, refl, refl, refl, refl, refl, refl, refl)
options_resolution (with_defaults o d) =
    let (a, b, c, e, f, g, h, i) = options_resolution d in
    (rw a, rw b, rw c, rw e, rw f, rw g, rw h, rw i)
