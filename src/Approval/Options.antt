-- ===== src/Approval/Options.antt =====
-- policy/approval/options.go: rule options with defaults from the policy and the server.
pub mod Resolution
pub mod Merging
use policy_bot.Prelude.{ℤ, pos}
use policy_bot.Prelude.{String, Bool, true, false, Option, none, some, [], ◌∷◌}
use policy_bot.Pull.{review_approved}
use policy_bot.Common.Actors.{Actors, no_actors}
use policy_bot.Common.Methods.{
  MethodFields, Methods, methods, with_defaults as method_defaults, or_else,
}

pub record RequestReview : Type 0 where
  pub enabled : Bool
  pub mode : String
  pub count : ℤ

abbrev pub no_request_review : RequestReview
no_request_review = record { enabled = false; mode = ""; count = pos 0 }

-- Unset pointers are `none`.
pub record OptionFields : Type 0 where
  pub allow_author : Option Bool
  pub allow_contributor : Option Bool
  pub allow_non_author_contributor : Option Bool
  pub invalidate_on_push : Option Bool
  pub ignore_edited_comments : Option Bool
  pub ignore_update_merges : Option Bool
  pub ignore_commits_by : Option Actors
  pub request_review : Option RequestReview
  pub methods : Option Methods

abbrev pub no_option_fields : OptionFields
no_option_fields = record {
  allow_author = none;
  allow_contributor = none;
  allow_non_author_contributor = none;
  invalidate_on_push = none;
  ignore_edited_comments = none;
  ignore_update_merges = none;
  ignore_commits_by = none;
  request_review = none;
  methods = none;
}

-- The two values of the field `Defaults`: nil, or the options to fall back on.
pub data Options : Type 0 where
  options : OptionFields → Options
  with_defaults : OptionFields → Options → Options

abbrev pub fields : Options → OptionFields
fields (options o) = o
fields (with_defaults o d) = o

unfoldable pub is_allow_author : Options → Bool
is_allow_author (options o) = or_else o.allow_author false
is_allow_author (with_defaults o d) = or_else o.allow_author (is_allow_author d)

unfoldable pub is_allow_contributor : Options → Bool
is_allow_contributor (options o) = or_else o.allow_contributor false
is_allow_contributor (with_defaults o d) = or_else o.allow_contributor (is_allow_contributor d)

unfoldable pub is_allow_non_author_contributor : Options → Bool
is_allow_non_author_contributor (options o) = or_else o.allow_non_author_contributor false
is_allow_non_author_contributor (with_defaults o d) =
    or_else o.allow_non_author_contributor (is_allow_non_author_contributor d)

unfoldable pub is_invalidate_on_push : Options → Bool
is_invalidate_on_push (options o) = or_else o.invalidate_on_push false
is_invalidate_on_push (with_defaults o d) = or_else o.invalidate_on_push (is_invalidate_on_push d)

unfoldable pub is_ignore_edited_comments : Options → Bool
is_ignore_edited_comments (options o) = or_else o.ignore_edited_comments false
is_ignore_edited_comments (with_defaults o d) =
    or_else o.ignore_edited_comments (is_ignore_edited_comments d)

unfoldable pub is_ignore_update_merges : Options → Bool
is_ignore_update_merges (options o) = or_else o.ignore_update_merges false
is_ignore_update_merges (with_defaults o d) =
    or_else o.ignore_update_merges (is_ignore_update_merges d)

unfoldable pub get_ignore_commits_by : Options → Actors
get_ignore_commits_by (options o) = or_else o.ignore_commits_by no_actors
get_ignore_commits_by (with_defaults o d) = or_else o.ignore_commits_by (get_ignore_commits_by d)

unfoldable pub get_request_review : Options → RequestReview
get_request_review (options o) = or_else o.request_review no_request_review
get_request_review (with_defaults o d) = or_else o.request_review (get_request_review d)

abbrev pub no_method_fields : MethodFields
no_method_fields = record {
  comments = none;
  comment_patterns = none;
  github_review = none;
  github_review_comment_patterns = none;
  body_patterns = none;
  github_review_state = "";
}

abbrev for_approval : MethodFields → MethodFields
for_approval m = record m { github_review_state = review_approved }

-- A copy of the methods with the state set, over the methods' own defaults.
own_methods : Option Methods → Methods
own_methods none = methods (for_approval no_method_fields)
own_methods (some (methods m)) = methods (for_approval m)
own_methods (some (method_defaults m d)) = method_defaults (for_approval m) d

-- The same, with the defaults replaced.
methods_over : Option Methods → Methods → Methods
methods_over none d = method_defaults (for_approval no_method_fields) d
methods_over (some (methods m)) d = method_defaults (for_approval m) d
methods_over (some (method_defaults m _)) d = method_defaults (for_approval m) d

unfoldable pub get_methods : Options → Methods
unfolding own_methods methods_over
get_methods (options o) = own_methods o.methods
get_methods (with_defaults o d) = methods_over o.methods (get_methods d)

-- `DefaultMethods`
abbrev pub default_methods : Methods
default_methods = methods (record {
  comments = some (":+1:" ∷ "👍" ∷ []);
  comment_patterns = none;
  github_review = some true;
  github_review_comment_patterns = none;
  body_patterns = none;
  github_review_state = "";
})
