-- ===== src/Relevance.antt =====
-- server/handler/policy_relevance.go, and the tests of check_run.go and workflow_run.go that skip an
-- event: the names of the checks and workflows that a policy reads.
pub mod Names
pub mod Reads
pub mod Skipped
pub mod Events
pub mod Safety
use policy_bot.Prelude.{
  String, Bool, true, false, not, ◌||◌, Option, none, some, List, [], ◌∷◌, ◌++◌, str_eq,
  if◌then◌else◌, contains, Error, Attempt, ok, err,
}
use policy_bot.Predicate.{Predicates}
use policy_bot.Predicate.Status.{HasStatus, HasWorkflowResult}
use policy_bot.Disapproval.{Disapproval}
use policy_bot.Approval.Rule.{Rule}
use policy_bot.Policy.{Config}
use policy_bot.Fetcher.{FetchedConfig}

-- The set that the collectors fill, as a list, and whether they found a block.
abbrev pub Names : Type 0
Names = List String × Bool

abbrev pub add_status : Option HasStatus → Names → Names
add_status none names = names
add_status (some p) names = (p.statuses ++ names.0, true)

abbrev pub add_successful_status : Option (List String) → Names → Names
add_successful_status none names = names
add_successful_status (some p) names = (p ++ names.0, true)

abbrev pub add_workflows : Option HasWorkflowResult → Names → Names
add_workflows none names = names
add_workflows (some p) names = (p.workflows ++ names.0, true)

-- `hasAny = collect…(p, names) || hasAny`
unfoldable pub collect_status_names : Predicates → Names → Names
collect_status_names p names =
    add_successful_status p.has_successful_status (add_status p.has_status names)

unfoldable pub collect_workflow_names : Predicates → Names → Names
collect_workflow_names p names = add_workflows p.has_workflow_result names

-- The loop over the rules, and the disapproval policy.
abbrev pub collect_rules : (Predicates → Names → Names) → List Rule → Names → Names
collect_rules collect [] names = names
collect_rules collect (r ∷ rs) names =
    collect_rules collect rs (collect r.requires.conditions (collect r.predicates names))

abbrev pub collect_disapproval : (Predicates → Names → Names) → Option Disapproval → Names → Names
collect_disapproval collect none names = names
collect_disapproval collect (some d) names = collect d.predicates names

unfoldable pub policy_status_names : Option Config → Names
unfolding collect_status_names
policy_status_names none = ([], false)
policy_status_names (some cfg) =
    collect_disapproval collect_status_names cfg.disapproval
      (collect_rules collect_status_names cfg.approval_rules ([], false))

unfoldable pub policy_workflow_names : Option Config → Names
unfolding collect_workflow_names
policy_workflow_names none = ([], false)
policy_workflow_names (some cfg) =
    collect_disapproval collect_workflow_names cfg.disapproval
      (collect_rules collect_workflow_names cfg.approval_rules ([], false))

abbrev pub failed : Option Error → Bool
failed none = false
failed (some e) = true

-- The last tests, on the names that the policy reads.
abbrev pub unlisted : Names → String → Bool
unlisted (names, has_any) name = if not has_any then true else not (contains names name)

abbrev pub skip_fetched : (Option Config → Names) → FetchedConfig → Option Config → String → Bool
skip_fetched policy_names fetched none name =
    if failed fetched.load_error || failed fetched.parse_error then false else true
skip_fetched policy_names fetched (some cfg) name =
    if failed fetched.load_error || failed fetched.parse_error
    then false
    else unlisted (policy_names (some cfg)) name

-- The client is not created, or the policy of the branch is fetched.
abbrev pub should_skip : (Option Config → Names) → Attempt FetchedConfig → String → String → Bool
should_skip policy_names (err e) base_branch name = false
should_skip policy_names (ok fetched) base_branch name =
    if str_eq base_branch "" || str_eq name ""
    then false
    else skip_fetched policy_names fetched fetched.config name

unfoldable pub should_skip_check_run : Attempt FetchedConfig → String → String → Bool
unfolding policy_status_names
should_skip_check_run fetched base_branch check_name =
    should_skip policy_status_names fetched base_branch check_name

unfoldable pub should_skip_workflow_run : Attempt FetchedConfig → String → String → Bool
unfolding policy_workflow_names
should_skip_workflow_run fetched base_branch workflow_path =
    should_skip policy_workflow_names fetched base_branch workflow_path
