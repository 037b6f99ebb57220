-- ===== src/Approval/Requirements.antt =====
-- policy/approval/evaluate.go: requirements, which combine the rules.
pub mod Combination
pub mod Soundness
use policy_bot.Prelude.{
  ℕ, suc, ◌+◌, String, ◌&&◌, Option, none, some, ltb, ◌==◌, if◌then◌else◌, Error, ◌<>◌, show,
}
use policy_bot.Pull.{Context}
use policy_bot.Common.Trigger.{Trigger, trigger_static, ◌or◌}
use policy_bot.Common.Methods.{Orders}
use policy_bot.Common.Result.{
  Report, no_report, Result, result, Results, no_results, and_result, report, children, leaf,
  EvaluationStatus, skipped, pending, approved, disapproved,
}
use policy_bot.Approval.Rule.{Rule, evaluate as evaluate_rule, trigger as rule_trigger}

-- The `common.Evaluator`s that a policy is parsed into.
mutual
  pub data Requirement : Type 0 where
    rule_requirement : Rule → Requirement
    or_requirement and_requirement : Requirements → Requirement

  pub data Requirements : Type 0 where
    no_requirements : Requirements
    and_also : Requirement → Requirements → Requirements

-- The variables of the two loops over the children.
pub record Tally : Type 0 where
  pub error : Option Error
  pub pending_count : ℕ
  pub approved_count : ℕ
  pub skipped_count : ℕ

abbrev pub start : Tally
start = record { error = none; pending_count = 0; approved_count = 0; skipped_count = 0 }

unfoldable pub count_status : EvaluationStatus → Tally → Tally
count_status approved t = record t { approved_count = suc t.approved_count }
count_status pending t = record t { pending_count = suc t.pending_count }
count_status skipped t = record t { skipped_count = suc t.skipped_count }
count_status disapproved t = t

unfoldable pub count_child : Report → Tally → Tally
unfolding count_status
count_child r t = elim r.error [
  | some e ↦ record t { error = some e }
  | none ↦ count_status r.status t
]

unfoldable pub tally : Results → Tally → Tally
unfolding count_child
tally no_results t = t
tally (and_result r rs) t = tally rs (count_child (report r) t)

abbrev pub all_skipped : String
all_skipped = "All of the rules are skipped"

unfoldable pub or_report : Tally → Report
or_report t =
    if ltb 0 t.approved_count
    then record no_report {
      name = "or";
      status = approved;
      status_description = "One or more rules approved";
    }
    else if ltb 0 t.pending_count
    then record no_report {
      name = "or";
      status = pending;
      status_description = "None of the rules are satisfied";
    }
    else record no_report { name = "or"; status_description = all_skipped; error = t.error }

unfoldable pub and_report : Tally → Report
and_report t =
    if ltb 0 t.approved_count && t.pending_count == 0
    then record no_report {
      name = "and";
      status = approved;
      status_description = "All rules are approved";
      error = t.error;
    }
    else if ltb 0 t.pending_count
    then record no_report {
      name = "and";
      status = pending;
      status_description =
          show t.approved_count
          <> "/"
          <> show (t.approved_count + t.pending_count)
          <> " rules approved";
      error = t.error;
    }
    else record no_report { name = "and"; status_description = all_skipped; error = t.error }

unfoldable pub or_result : Results → Result
unfolding or_report tally
or_result rs = result (or_report (tally rs start)) rs

unfoldable pub and_result_of : Results → Result
unfolding and_report tally
and_result_of rs = result (and_report (tally rs start)) rs

unfoldable mutual
  unfolding or_result and_result_of

  pub evaluate : Orders → Requirement → Context → Result
  evaluate orders (rule_requirement r) ctx = evaluate_rule orders r ctx
  evaluate orders (or_requirement rs) ctx = or_result (evaluate_each orders rs ctx)
  evaluate orders (and_requirement rs) ctx = and_result_of (evaluate_each orders rs ctx)

  pub evaluate_each : Orders → Requirements → Context → Results
  evaluate_each orders no_requirements ctx = no_results
  evaluate_each orders (and_also r rs) ctx =
      and_result (evaluate orders r ctx) (evaluate_each orders rs ctx)

unfoldable mutual
  pub trigger : Requirement → Trigger
  trigger (rule_requirement r) = rule_trigger r
  trigger (or_requirement rs) = trigger_each trigger_static rs
  trigger (and_requirement rs) = trigger_each trigger_static rs

  -- The loop `t |= child.Trigger()`, from `t`.
  pub trigger_each : Trigger → Requirements → Trigger
  trigger_each t no_requirements = t
  trigger_each t (and_also r rs) = trigger_each (t or trigger r) rs

-- The `evaluator` of a policy, whose root is missing if the policy is empty.
abbrev pub Approval : Type 0
Approval = Option Requirement

unfoldable pub policy_trigger : Approval → Trigger
policy_trigger none = trigger_static
policy_trigger (some root) = trigger root

abbrev pub named : String → Result → Result
named name (result r rs) = result (record r { name = name }) rs

unfoldable pub evaluate_policy : Orders → Approval → Context → Result
evaluate_policy orders none ctx = leaf (record no_report {
  name = "approval";
  status = approved;
  status_description = "No approval policy defined";
})
evaluate_policy orders (some root) ctx = named "approval" (evaluate orders root ctx)
