-- ===== src/Examples/Events.antt =====
-- An event, from the test that may skip it to what its evaluation sends.
use policy_bot.Prelude.{
  String, ◌≡◌, refl, ◌↔◌, inl, inr, true, false, Option, none, some, [], ◌∷◌, eq_iff, eq_refl,
  str_eq, Bool-cases, any, get, Error, raised, wrapped, ok, insertion_order,
}
use policy_bot.Pull.{Time, Context}
use policy_bot.Common.Trigger.{trigger_status}
use policy_bot.Common.Methods.{insertion_orders}
use policy_bot.Predicate.{no_predicates}
use policy_bot.Approval.Requirements.{rule_requirement, and_requirement, no_requirements, and_also}
use policy_bot.Approval.Rule.{Rule}
use policy_bot.Approval.Parse.{text, no_values, and_value}
use policy_bot.Policy.{
  Config, Evaluator, default_approval_options, with_rule_defaults, parse_policy, evaluate,
}
use policy_bot.Disapproval.{no_disapproval}
use policy_bot.Fetcher.{FetchedConfig}
use policy_bot.Settings.{PullEvaluationOptions}
use policy_bot.Relevance.{should_skip_check_run, should_skip_workflow_run}
use policy_bot.Relevance.Names.{Similar}
use policy_bot.Relevance.Safety.{
  but, all_names, should_skip_check_run-same, should_skip_workflow_run-same,
}
use policy_bot.Reviewer.{Draws}
use policy_bot.Evaluation.{EvalContext}
use policy_bot.Evaluation.Requests.{ReviewersRequest}
use policy_bot.Evaluation.Events.{evaluate_event}
use policy_bot.Evaluation.Posting.{is_success}
use policy_bot.Evaluation.Statuses.{IsApproved, evaluate_event-iff_IsApproved}
use policy_bot.Evaluation.Errors.{IsFailure, evaluate_event-IsFailure}
use policy_bot.Examples.{pull_request, one_approval}

-- A rule that wants a successful check.
abbrev built : Rule
built = record one_approval {
  predicates = record no_predicates { has_successful_status = some ("build" ∷ []) };
}

abbrev config : Config
config = record {
  approval = and_value (text "one approval") no_values;
  disapproval = none;
  approval_defaults = none;
  approval_rules = built ∷ [];
}

abbrev fetched : FetchedConfig
fetched = record {
  config = some config;
  load_error = none;
  parse_error = none;
  source = "acme/rockets";
  path = ".policy.yml";
  seen_policy = true;
}

abbrev evaluator : Evaluator
evaluator = record {
  approval = some (
      and_requirement (
        and_also
          (rule_requirement (with_rule_defaults (default_approval_options config none) none built))
          no_requirements));
  disapproval = no_disapproval;
}

parsed : parse_policy insertion_order config none ≡ ok evaluator
unfolding parse_policy policy_bot.Policy.rules_by_name policy_bot.Approval.Parse.parse
    policy_bot.Approval.Parse.parse_value policy_bot.Approval.Parse.parse_entries
    policy_bot.Approval.Parse.parse_values
parsed = refl

skipped_check : should_skip_check_run (ok fetched) "develop" "lint" ≡ true
unfolding should_skip_check_run policy_bot.Relevance.policy_status_names
    policy_bot.Relevance.collect_status_names
skipped_check = refl

skipped_workflow : should_skip_workflow_run (ok fetched) "develop" "ci.yml" ≡ true
unfolding should_skip_workflow_run policy_bot.Relevance.policy_workflow_names
    policy_bot.Relevance.collect_workflow_names
skipped_workflow = refl

-- The pull request after the check failed, and after the workflow did.
abbrev linted : Context
linted = record pull_request { latest_statuses = ok (("lint", "failure") ∷ []) }

abbrev tested : Context
tested = record pull_request { latest_workflow_runs = ok (("ci.yml", "failure" ∷ []) ∷ []) }

other_key :
    {V : Type 0} → (name s : String) (v : V) → but name s ≡ true → get s [] ≡ get s ((name, v) ∷ [])
other_key name s v matters = elim (Bool-cases (str_eq name s)) [
  | inl same ↦
      let one = (eq_iff name s).0 same in
      let self : str_eq s name ≡ true = rw one (eq_refl s) in absurd cc
  | inr other ↦ rw other refl
]

linted-Similar : Similar (but "lint") all_names pull_request linted
linted-Similar = record {
  static = record {
    membership = record { team = λ t u. refl; organization = λ o u. refl; permission = λ u. refl };
    author = refl;
    owner = refl;
    name = refl;
    properties = refl;
    head_branch = refl;
  };
  commits = record {
    changed_files = refl;
    commits = refl;
    head_sha = refl;
    pushed_at = λ sha. refl;
  };
  comments = refl;
  reviews = refl;
  labels = refl;
  pull_request = record { title = refl; body = refl; base_branch = refl };
  statuses = λ s matters. other_key "lint" s "failure" matters;
  workflow_runs = λ s matters. refl;
}

tested-Similar : Similar all_names (but "ci.yml") pull_request tested
tested-Similar = record {
  static = record {
    membership = record { team = λ t u. refl; organization = λ o u. refl; permission = λ u. refl };
    author = refl;
    owner = refl;
    name = refl;
    properties = refl;
    head_branch = refl;
  };
  commits = record {
    changed_files = refl;
    commits = refl;
    head_sha = refl;
    pushed_at = λ sha. refl;
  };
  comments = refl;
  reviews = refl;
  labels = refl;
  pull_request = record { title = refl; body = refl; base_branch = refl };
  statuses = λ s matters. refl;
  workflow_runs = λ s matters. other_key "ci.yml" s ("failure" ∷ []) matters;
}

should_skip_check_run-same_example :
    evaluate insertion_orders evaluator pull_request ≡ evaluate insertion_orders evaluator linted
should_skip_check_run-same_example =
    should_skip_check_run-same insertion_orders insertion_order fetched config none evaluator
      "develop" pull_request linted refl parsed "lint" skipped_check linted-Similar

should_skip_workflow_run-same_example :
    evaluate insertion_orders evaluator pull_request ≡ evaluate insertion_orders evaluator tested
should_skip_workflow_run-same_example =
    should_skip_workflow_run-same insertion_orders insertion_order fetched config none evaluator
      "develop" pull_request tested refl parsed "ci.yml" skipped_workflow tested-Similar

abbrev settings : PullEvaluationOptions
settings = record {
  policy_path = ".policy.yml";
  shared_repository = some ".github";
  shared_policy_path = some "policy.yml";
  force_shared_policy = false;
  status_check_context = "policy-bot";
  expand_required_reviewers = false;
  strict_review_dismissal = false;
  post_insecure_status_checks = true;
  ignore_edited_comments = none;
  approval_defaults = none;
}

abbrev evaluation : EvalContext
evaluation = record {
  options = settings;
  public_url = "https://bot.example/";
  pull_context = pull_request;
  number = 7;
  is_open = true;
  created_at = 1;
  config = fetched;
  skip_post_status = false;
}

abbrev draws : Time → Draws
draws t = 0 ∷ 1 ∷ []

abbrev accepts : ReviewersRequest → Option Error
accepts r = none

abbrev dismisses : String → String → Option Error
dismisses id message = none

evaluate_event-iff_IsApproved_example :
    (any is_success
        (evaluate_event insertion_orders draws accepts dismisses evaluation
          trigger_status).posted.sent
      ≡ true)
    ↔ IsApproved insertion_orders evaluation trigger_status
evaluate_event-iff_IsApproved_example =
    evaluate_event-iff_IsApproved insertion_orders evaluation trigger_status draws accepts dismisses

-- The same event, after the branch's policy stopped to parse.
abbrev broken : EvalContext
broken = record evaluation {
  config = record fetched { config = none; parse_error = some (raised "yaml") };
}

abbrev no_policy : Error
no_policy = wrapped "failed to parse policy: acme/rockets: .policy.yml" (raised "yaml")

is_broken :
    (evaluate_event insertion_orders draws accepts dismisses broken trigger_status).error
    ≡ some no_policy
unfolding evaluate_event policy_bot.Evaluation.parse_config policy_bot.Evaluation.config_cases
    policy_bot.Evaluation.Events.after_parse
is_broken = refl

evaluate_event-IsFailure_example :
    IsFailure (evaluate_event insertion_orders draws accepts dismisses broken trigger_status)
evaluate_event-IsFailure_example =
    evaluate_event-IsFailure insertion_orders draws accepts dismisses broken trigger_status
      no_policy is_broken
