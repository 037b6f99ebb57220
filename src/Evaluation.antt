-- ===== src/Evaluation.antt =====
-- server/handler/eval_context.go: one evaluation of a pull request, from its configuration to the status
-- that is posted. What is sent to GitHub is returned, in its order; the logger is left out.
use Prim.Native.String
pub mod Requests
pub mod Events
pub mod Posting
pub mod Statuses
pub mod Errors
use policy_bot.Prelude.{
  ℕ, String, Bool, true, false, not, Option, none, some, List, [], ◌∷◌, str_eq, if◌then◌else◌,
  Error, wrapped, Attempt, ok, err, ◌<>◌, show, MapOrder,
}
use policy_bot.Pull.{Time, Context}
use policy_bot.Common.Trigger.{Trigger, matches}
use policy_bot.Common.Methods.{Orders}
use policy_bot.Common.Result.{
  Result, EvaluationStatus, skipped, pending, approved, disapproved, report,
}
use policy_bot.Policy.{Config, GlobalOptions, Evaluator, parse_policy, trigger, evaluate}
use policy_bot.Settings.{PullEvaluationOptions}
use policy_bot.Fetcher.{FetchedConfig}

pub record RepoStatus : Type 0 where
  pub state : String
  pub context : String
  pub description : String
  pub target_url : String

-- The pull request's number, its state and its creation are queries that only the handlers make.
pub record EvalContext : Type 0 where
  pub options : PullEvaluationOptions
  pub public_url : String
  pub pull_context : Context
  pub number : ℕ
  pub is_open : Bool
  pub created_at : Time
  pub config : FetchedConfig
  pub skip_post_status : Bool

-- What `PostStatus` does: the statuses that are sent to GitHub for the head commit, and the one that is
-- stored in the field `Status`. GitHub's errors are only logged.
pub record Posted : Type 0 where
  pub sent : List RepoStatus
  pub stored : Option RepoStatus

abbrev pub nothing_posted : Posted
nothing_posted = record { sent = []; stored = none }

-- `strings.TrimSuffix(s, "/")`
trim_slash : String → String
trim_slash String.[] = ""
trim_slash (String.◌∷◌ c s) =
    let rest = trim_slash s in if str_eq (String.◌∷◌ c s) "/" then "" else String.◌∷◌ c rest

unfoldable pub status_of : EvalContext → String → String → RepoStatus
unfolding trim_slash
status_of ec state message =
    let ctx = ec.pull_context in
    record {
      state = state;
      context = ec.options.status_check_context <> ": " <> ctx.base_branch;
      description = message;
      target_url =
          trim_slash ec.public_url
          <> "/details/"
          <> ctx.repository_owner
          <> "/"
          <> ctx.repository_name
          <> "/"
          <> show ec.number;
    }

-- The second status, under the context without the branch.
unfoldable pub insecure_copy : EvalContext → RepoStatus → List RepoStatus
insecure_copy ec status =
    if ec.options.post_insecure_status_checks
    then record status { context = ec.options.status_check_context } ∷ []
    else []

-- The tests of `SkipPostStatus` and of `IsOpen`.
unfoldable pub deliver : Bool → Bool → EvalContext → RepoStatus → Posted
unfolding insecure_copy
deliver true is_open ec status = record { sent = []; stored = some status }
deliver false false ec status = nothing_posted
deliver false true ec status = record { sent = status ∷ insecure_copy ec status; stored = none }

unfoldable pub post_status : EvalContext → String → String → Posted
unfolding status_of deliver
post_status ec state message =
    deliver ec.skip_post_status ec.is_open ec (status_of ec state message)

abbrev pub global_options : EvalContext → GlobalOptions
global_options ec = record {
  ignore_edited_comments = ec.options.ignore_edited_comments;
  approval_defaults = ec.options.approval_defaults;
}

abbrev at_policy : String → FetchedConfig → String
at_policy what fc = what <> fc.source <> ": " <> fc.path

-- The end of `ParseConfig`, on the outcome of the parser.
unfoldable pub parsed_config :
    EvalContext → Trigger → Attempt Evaluator → Attempt (Option Evaluator) × Posted
unfolding post_status
parsed_config ec event (err e) = (
  err (wrapped (at_policy "failed to create evaluator: " ec.config) e),
  post_status ec "error" (at_policy "Invalid policy in " ec.config),
)
parsed_config ec event (ok evaluator) =
    if not (matches event (trigger evaluator))
    then (ok none, nothing_posted)
    else (ok (some evaluator), nothing_posted)

-- `if fc.SeenPolicy`
unfoldable pub if_seen : Bool → Posted → Posted
if_seen true posted = posted
if_seen false posted = nothing_posted

abbrev pub load_failure : EvalContext → Error → Attempt (Option Evaluator) × Posted
load_failure ec e = (
  err (wrapped (at_policy "failed to load policy: " ec.config) e),
  if_seen ec.config.seen_policy
      (post_status ec "error" ("Error loading policy from " <> ec.config.source)),
)

abbrev pub parse_failure : EvalContext → Error → Attempt (Option Evaluator) × Posted
parse_failure ec e = (
  err (wrapped (at_policy "failed to parse policy: " ec.config) e),
  post_status ec "error" (at_policy "Invalid policy in " ec.config),
)

-- The switch on the fields of the fetched configuration, in its order.
unfoldable pub config_cases :
    MapOrder String
    → EvalContext
    → Trigger
    → Option Error
    → Option Error
    → Option Config
    → Attempt (Option Evaluator) × Posted
unfolding parsed_config
config_cases order ec event (some e) parse_error config = load_failure ec e
config_cases order ec event none (some e) config = parse_failure ec e
config_cases order ec event none none none = (ok none, nothing_posted)
config_cases order ec event none none (some cfg) =
    parsed_config ec event (parse_policy order cfg (some (global_options ec)))

unfoldable pub parse_config :
    MapOrder String → EvalContext → Trigger → Attempt (Option Evaluator) × Posted
unfolding config_cases
parse_config order ec event =
    config_cases order ec event ec.config.load_error ec.config.parse_error ec.config.config

-- The switch on the status, which has no other value.
unfoldable pub posted_status : EvalContext → EvaluationStatus → String → Posted
unfolding post_status
posted_status ec approved description = post_status ec "success" description
posted_status ec disapproved description = post_status ec "failure" description
posted_status ec pending description = post_status ec "pending" description
posted_status ec skipped description =
    post_status ec "error" "All rules were skipped. At least one rule must match."

unfoldable pub evaluated : EvalContext → Result → Option Error → Attempt Result × Posted
unfolding posted_status
evaluated ec r (some e) =
    (err e, post_status ec "error" (at_policy "Error evaluating policy in " ec.config))
evaluated ec r none = (ok r, posted_status ec (report r).status (report r).status_description)

unfoldable pub evaluate_policy : Orders → EvalContext → Evaluator → Attempt Result × Posted
unfolding evaluated
evaluate_policy orders ec evaluator =
    let r = evaluate orders evaluator ec.pull_context in evaluated ec r (report r).error
