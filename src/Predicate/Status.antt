-- ===== src/Predicate/Status.antt =====
-- policy/predicate/status.go and workflow.go
use policy_bot.Prelude.{
  String, Bool, true, false, not, Option, none, some, List, [], ◌∷◌, ◌++◌, map, if◌then◌else◌,
  is_empty, keep, contains, get, Attempt, ok, ◌>>=◌, wrap, ◌<>◌, join, sort, str_lt,
}
use policy_bot.Pull.{Context}
use policy_bot.Common.Result.{PredicateResult, no_predicate_result}

-- All but the last joined by commas, and the last behind ", or ".
join_head : List String → String → List String → String
join_head head last [] = join ", " head <> ", or " <> last
join_head head last (x ∷ xs) = join_head (head ++ last ∷ []) x xs

join_sorted : List String → String
unfolding join_head
join_sorted [] = ""
join_sorted (c ∷ []) = c
join_sorted (c ∷ d ∷ []) = c <> " or " <> d
join_sorted (c ∷ d ∷ e ∷ cs) = join_head (c ∷ d ∷ []) e cs

-- The source sorts its receiver in place; only this function reads the order of that slice.
unfoldable pub join_with_or : List String → String
unfolding join_sorted sort
join_with_or conclusions = join_sorted (sort str_lt conclusions)

pub record HasStatus : Type 0 where
  pub conclusions : List String
  pub statuses : List String

unfoldable pub new_has_status : List String → List String → HasStatus
new_has_status statuses conclusions = record { conclusions = conclusions; statuses = statuses }

abbrev pub allowed : List String → List String
allowed [] = "success" ∷ []
allowed (c ∷ cs) = c ∷ cs

-- A missing key reads as the empty text.
abbrev pub or_empty : Option String → String
or_empty none = ""
or_empty (some s) = s

abbrev pub is_some {ℓ} : {A : Type ℓ} → Option A → Bool
is_some none = false
is_some (some a) = true

abbrev pub missing_statuses : List (String × String) → List String → List String
missing_statuses results = keep (λ s. not (is_some (get s results)))

abbrev pub failing_statuses : List String → List (String × String) → List String → List String
failing_statuses conclusions results =
    keep (λ s. not (contains conclusions (or_empty (get s results))))

status_base : List String → PredicateResult
status_base conclusions = record no_predicate_result {
  value_phrase = "status checks";
  condition_phrase = "exist and have conclusion " <> join_with_or conclusions;
}

-- The message about failing statuses names `pred.Conclusions`, not the default that was applied.
unfoldable pub has_status : HasStatus → Context → Attempt PredicateResult
unfolding status_base
has_status pred ctx = do
  results ← wrap "failed to list commit statuses" ctx.latest_statuses
  let base = status_base (allowed pred.conclusions)
  let missing = missing_statuses results pred.statuses
  let failing = failing_statuses (allowed pred.conclusions) results pred.statuses
  if not (is_empty missing)
      then ok (record base {
        values = missing;
        description = "One or more statuses is missing: " <> join ", " missing;
        satisfied = false;
      })
      else if not (is_empty failing)
      then ok (record base {
        values = failing;
        description =
            "One or more statuses has not concluded with "
            <> join_with_or pred.conclusions
            <> ": "
            <> join "," failing;
        satisfied = false;
      })
      else ok (record base { values = pred.statuses; satisfied = true })

unfoldable pub has_successful_status : List String → Context → Attempt PredicateResult
unfolding has_status
has_successful_status pred ctx = has_status (record { conclusions = []; statuses = pred }) ctx

pub record HasWorkflowResult : Type 0 where
  pub conclusions : List String
  pub workflows : List String

unfoldable pub new_has_workflow_result : List String → List String → HasWorkflowResult
new_has_workflow_result workflows conclusions = record {
  conclusions = conclusions;
  workflows = workflows;
}

abbrev pub or_no_runs : Option (List String) → List String
or_no_runs none = []
or_no_runs (some cs) = cs

abbrev pub missing_workflows : List (String × List String) → List String → List String
missing_workflows runs = keep (λ w. not (is_some (get w runs)))

-- The workflow once for each of its runs that has not an allowed conclusion.
failing_runs : List String → String → List String → List String
failing_runs conclusions w runs = map (λ _. w) (keep (λ c. not (contains conclusions c)) runs)

unfoldable pub failing_workflows :
    List String → List (String × List String) → List String → List String
unfolding failing_runs
failing_workflows conclusions runs [] = []
failing_workflows conclusions runs (w ∷ ws) =
    failing_runs conclusions w (or_no_runs (get w runs)) ++ failing_workflows conclusions runs ws

workflow_base : List String → PredicateResult
workflow_base conclusions = record no_predicate_result {
  value_phrase = "workflow results";
  condition_phrase = "exist and have conclusion " <> join_with_or conclusions;
}

unfoldable pub has_workflow_result : HasWorkflowResult → Context → Attempt PredicateResult
unfolding workflow_base failing_workflows
has_workflow_result pred ctx = do
  runs ← wrap "failed to list latest workflow runs" ctx.latest_workflow_runs
  let base = workflow_base (allowed pred.conclusions)
  let missing = missing_workflows runs pred.workflows
  let failing = failing_workflows (allowed pred.conclusions) runs pred.workflows
  if not (is_empty missing)
      then ok (record base {
        values = missing;
        description = "One or more workflow runs are missing: " <> join ", " missing;
        satisfied = false;
      })
      else if not (is_empty failing)
      then ok (record base {
        values = failing;
        description =
            "One or more workflow runs have not concluded with "
            <> join_with_or pred.conclusions
            <> ": "
            <> join "," failing;
        satisfied = false;
      })
      else ok (record base { values = pred.workflows; satisfied = true })
