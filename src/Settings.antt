-- ===== src/Settings.antt =====
-- server/handler/eval_options.go: the options of the server's evaluations, and their defaults.
pub mod Values
pub mod Setters
pub mod Environment
pub mod Filled
pub mod Overrides
use policy_bot.Prelude.{String, Bool, ◌||◌, Option, none, some, str_eq, if◌then◌else◌}
use policy_bot.Approval.Options.{options, fields}
use policy_bot.Policy.{Defaults}

abbrev pub default_policy_path : String
default_policy_path = ".policy.yml"

abbrev pub default_shared_repository : String
default_shared_repository = ".github"

abbrev pub default_shared_policy_path : String
default_shared_policy_path = "policy.yml"

abbrev pub default_status_check_context : String
default_status_check_context = "policy-bot"

-- The two deprecated fields, which nothing reads, are left out.
pub record PullEvaluationOptions : Type 0 where
  pub policy_path : String
  pub shared_repository : Option String
  pub shared_policy_path : Option String
  pub force_shared_policy : Bool
  pub status_check_context : String
  pub expand_required_reviewers : Bool
  pub strict_review_dismissal : Bool
  pub post_insecure_status_checks : Bool
  pub ignore_edited_comments : Option Bool
  pub approval_defaults : Option Defaults

abbrev pub or_if_empty : String → String → String
or_if_empty s d = if str_eq s "" then d else s

abbrev pub or_if_unset : Option String → String → String
or_if_unset none d = d
or_if_unset (some s) d = s

-- The shared policy is off if one of its two options is explicitly empty.
abbrev pub shared_options : String → String → Option String × Option String
shared_options repository path =
    if str_eq repository "" || str_eq path "" then (some "", none) else (some repository, some path)

unfoldable pub fill_defaults : PullEvaluationOptions → PullEvaluationOptions
fill_defaults p =
    let (repository, path) =
      shared_options (or_if_unset p.shared_repository default_shared_repository)
        (or_if_unset p.shared_policy_path default_shared_policy_path) in
    record p {
      policy_path = or_if_empty p.policy_path default_policy_path;
      shared_repository = repository;
      shared_policy_path = path;
      status_check_context = or_if_empty p.status_check_context default_status_check_context;
    }
