-- ===== src/Settings/Environment.antt =====
-- The options with values from the environment. A pointer that the source takes to a new struct, and
-- stores only if something was set, is here a struct that is stored under that condition.
use policy_bot.Prelude.{
  String, true, false, ◌||◌, Option, none, some, List, [], ◌∷◌, if◌then◌else◌, Attempt, ◌<>◌,
}
use policy_bot.Pull.Permission.{unmarshal_text}
use policy_bot.Common.Patterns.{CompiledRegexp, new_regexp}
use policy_bot.Common.Actors.{Actors, no_actors}
use policy_bot.Common.Methods.{MethodFields, Methods, methods, with_defaults as method_defaults}
use policy_bot.Approval.Options.{
  RequestReview, no_request_review, no_method_fields, OptionFields, no_option_fields, Options,
  options, with_defaults, fields,
}
use policy_bot.Policy.{Defaults}
use policy_bot.Settings.{PullEvaluationOptions, fill_defaults}
use policy_bot.Settings.Setters.{
  Setting, is_any, set_string_from_env, set_string_ptr_from_env, set_string_list_from_env,
  set_list_from_env, set_bool_from_env, set_bool_ptr_from_env, set_int_from_env,
}

module _ (lookup_env : String → Option String) (compile : String → Attempt CompiledRegexp) where
  -- The four lists of actors, whose nil and empty slices are the same to their readers.
  abbrev or_nil {ℓ} : {A : Type ℓ} → Option (List A) → List A
  or_nil none = []
  or_nil (some xs) = xs

  unfoldable set_actors_from_env : String → Actors → Setting Actors
  unfolding set_string_list_from_env set_list_from_env is_any
  set_actors_from_env prefix a =
      let users =
        set_string_list_from_env lookup_env "OPTIONS_IGNORE_COMMITS_BY_USERS" prefix
          (some a.users) in
      let teams =
        set_string_list_from_env lookup_env "OPTIONS_IGNORE_COMMITS_BY_TEAMS" prefix
          (some a.teams) in
      let organizations =
        set_string_list_from_env lookup_env "OPTIONS_IGNORE_COMMITS_BY_ORGANIZATIONS" prefix
          (some a.organizations) in
      let permissions =
        set_list_from_env lookup_env unmarshal_text "OPTIONS_IGNORE_COMMITS_BY_PERMISSIONS" prefix
          (some a.permissions) in
      (
        is_any (users.0 ∷ teams.0 ∷ organizations.0 ∷ permissions.0 ∷ []),
        record a {
          users = or_nil users.1;
          teams = or_nil teams.1;
          organizations = or_nil organizations.1;
          permissions = or_nil permissions.1;
        },
      )

  unfoldable set_request_review_from_env : String → RequestReview → Setting RequestReview
  unfolding set_bool_from_env set_string_from_env set_int_from_env is_any
  set_request_review_from_env prefix rr =
      let enabled =
        set_bool_from_env lookup_env "OPTIONS_REQUEST_REVIEW_ENABLED" prefix rr.enabled in
      let mode = set_string_from_env lookup_env "OPTIONS_REQUEST_REVIEW_MODE" prefix rr.mode in
      let count = set_int_from_env lookup_env "OPTIONS_REQUEST_REVIEW_COUNT" prefix rr.count in
      (
        is_any (enabled.0 ∷ mode.0 ∷ count.0 ∷ []),
        record { enabled = enabled.1; mode = mode.1; count = count.1 },
      )

  unfoldable set_methods_from_env : String → MethodFields → Setting MethodFields
  unfolding set_string_list_from_env set_list_from_env set_bool_ptr_from_env is_any
  set_methods_from_env prefix m =
      let comments =
        set_string_list_from_env lookup_env "OPTIONS_METHODS_COMMENTS" prefix m.comments in
      let comment_patterns =
        set_list_from_env lookup_env (new_regexp compile) "OPTIONS_METHODS_COMMENT_PATTERNS" prefix
          m.comment_patterns in
      let github_review =
        set_bool_ptr_from_env lookup_env "OPTIONS_METHODS_GITHUB_REVIEW" prefix m.github_review in
      let review_patterns =
        set_list_from_env lookup_env (new_regexp compile)
          "OPTIONS_METHODS_GITHUB_REVIEW_COMMENT_PATTERNS" prefix
          m.github_review_comment_patterns in
      let body_patterns =
        set_list_from_env lookup_env (new_regexp compile) "OPTIONS_METHODS_BODY_PATTERNS" prefix
          m.body_patterns in
      (
        is_any (
            comments.0 ∷ comment_patterns.0 ∷ github_review.0 ∷ review_patterns.0 ∷ body_patterns.0
            ∷ []),
        record m {
          comments = comments.1;
          comment_patterns = comment_patterns.1;
          github_review = github_review.1;
          github_review_comment_patterns = review_patterns.1;
          body_patterns = body_patterns.1;
        },
      )

  -- `if any was set { opts.F = f }`
  abbrev stored {ℓ} : {A : Type ℓ} → Setting A → Option A → Option A
  stored (true, new) old = some new
  stored (false, new) old = old

  abbrev actors_of : Option Actors → Actors
  actors_of none = no_actors
  actors_of (some a) = a

  abbrev request_review_of : Option RequestReview → RequestReview
  request_review_of none = no_request_review
  request_review_of (some rr) = rr

  abbrev pub method_fields_of : Option Methods → MethodFields
  method_fields_of none = no_method_fields
  method_fields_of (some (methods m)) = m
  method_fields_of (some (method_defaults m d)) = m

  -- The struct keeps its own defaults.
  abbrev pub with_method_fields : Option Methods → MethodFields → Methods
  with_method_fields none m = methods m
  with_method_fields (some (methods _)) m = methods m
  with_method_fields (some (method_defaults _ d)) m = method_defaults m d

  unfoldable set_options_from_env : String → OptionFields → Setting OptionFields
  unfolding set_actors_from_env set_request_review_from_env set_methods_from_env
  set_options_from_env prefix o =
      let author = set_bool_ptr_from_env lookup_env "OPTIONS_ALLOW_AUTHOR" prefix o.allow_author in
      let contributor =
        set_bool_ptr_from_env lookup_env "OPTIONS_ALLOW_CONTRIBUTOR" prefix o.allow_contributor in
      let non_author =
        set_bool_ptr_from_env lookup_env "OPTIONS_ALLOW_NON_AUTHOR_CONTRIBUTOR" prefix
          o.allow_non_author_contributor in
      let push =
        set_bool_ptr_from_env lookup_env "OPTIONS_INVALIDATE_ON_PUSH" prefix o.invalidate_on_push in
      let edited =
        set_bool_ptr_from_env lookup_env "OPTIONS_IGNORE_EDITED_COMMENTS" prefix
          o.ignore_edited_comments in
      let merges =
        set_bool_ptr_from_env lookup_env "OPTIONS_IGNORE_UPDATE_MERGES" prefix
          o.ignore_update_merges in
      let commits_by = set_actors_from_env prefix (actors_of o.ignore_commits_by) in
      let review = set_request_review_from_env prefix (request_review_of o.request_review) in
      let own = set_methods_from_env prefix (method_fields_of o.methods) in
      (
        is_any (author.0 ∷ contributor.0 ∷ non_author.0 ∷ push.0 ∷ edited.0 ∷ merges.0 ∷ [])
            || (commits_by.0 || (review.0 || own.0)),
        record {
          allow_author = author.1;
          allow_contributor = contributor.1;
          allow_non_author_contributor = non_author.1;
          invalidate_on_push = push.1;
          ignore_edited_comments = edited.1;
          ignore_update_merges = merges.1;
          ignore_commits_by = stored commits_by o.ignore_commits_by;
          request_review = stored review o.request_review;
          methods = stored (own.0, with_method_fields o.methods own.1) o.methods;
        },
      )

  abbrev pub option_fields_of : Option Defaults → OptionFields
  option_fields_of none = no_option_fields
  option_fields_of (some none) = no_option_fields
  option_fields_of (some (some o)) = fields o

  abbrev pub with_option_fields : Option Defaults → OptionFields → Options
  with_option_fields (some (some (with_defaults _ d))) o = with_defaults o d
  with_option_fields (some (some (options _))) o = options o
  with_option_fields (some none) o = options o
  with_option_fields none o = options o

  unfoldable pub set_approval_defaults_from_env :
      String → PullEvaluationOptions → PullEvaluationOptions
  unfolding set_options_from_env
  set_approval_defaults_from_env prefix p =
      let opts = set_options_from_env prefix (option_fields_of p.approval_defaults) in
      if opts.0
      then record p {
        approval_defaults = some (some (with_option_fields p.approval_defaults opts.1));
      }
      else p

  -- The options that are values themselves.
  unfoldable pub set_own_values_from_env : String → PullEvaluationOptions → PullEvaluationOptions
  unfolding set_string_ptr_from_env
  set_own_values_from_env prefix p = record p {
    policy_path = (set_string_from_env lookup_env "POLICY_PATH" prefix p.policy_path).1;
    shared_repository =
        (set_string_ptr_from_env lookup_env "SHARED_REPOSITORY" prefix p.shared_repository).1;
    shared_policy_path =
        (set_string_ptr_from_env lookup_env "SHARED_POLICY_PATH" prefix p.shared_policy_path).1;
    status_check_context =
        (set_string_from_env lookup_env "STATUS_CHECK_CONTEXT" prefix p.status_check_context).1;
    force_shared_policy =
        (set_bool_from_env lookup_env "FORCE_SHARED_POLICY" prefix p.force_shared_policy).1;
    expand_required_reviewers =
        (set_bool_from_env lookup_env "EXPAND_REQUIRED_REVIEWERS" prefix
          p.expand_required_reviewers).1;
    strict_review_dismissal =
        (set_bool_from_env lookup_env "STRICT_REVIEW_DISMISSAL" prefix p.strict_review_dismissal).1;
    post_insecure_status_checks =
        (set_bool_from_env lookup_env "POST_INSECURE_STATUS_CHECKS" prefix
          p.post_insecure_status_checks).1;
    ignore_edited_comments =
        (set_bool_ptr_from_env lookup_env "IGNORE_EDITED_COMMENTS" prefix
          p.ignore_edited_comments).1;
  }

  unfoldable pub set_values_from_env : String → PullEvaluationOptions → PullEvaluationOptions
  unfolding set_approval_defaults_from_env set_own_values_from_env fill_defaults
  set_values_from_env prefix p = fill_defaults (
      set_approval_defaults_from_env (prefix <> "APPROVAL_DEFAULTS_")
        (set_own_values_from_env prefix p))
