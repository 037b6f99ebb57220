-- ===== src/Policy.antt =====
-- policy/policy.go: from a configuration to an evaluator, and the evaluator of the whole policy.
pub mod Meaning
pub mod Defaults
pub mod Stability
use policy_bot.Prelude.{
  ◌>>=◌, String, Bool, true, false, Option, none, some, List, [], ◌∷◌, if◌then◌else◌, get, put,
  Error, raised, Attempt, ok, err, wrap, ◌<>◌, quote, MapOrder,
}
use policy_bot.Pull.{Context}
use policy_bot.Common.Trigger.{Trigger, ◌or◌}
use policy_bot.Common.Methods.{Orders}
use policy_bot.Common.Result.{
  Report, no_report, Result, result, no_results, and_result, report, disapproved, status_eq,
}
use policy_bot.Approval.Options.{
  OptionFields, no_option_fields, Options, options, with_defaults, fields, default_methods,
}
use policy_bot.Approval.Rule.{Rule}
use policy_bot.Approval.Requirements.{Approval, evaluate_policy, policy_trigger}
use policy_bot.Approval.Parse.{Values, Rules, parse}
use policy_bot.Disapproval.{
  Disapproval, no_disapproval, evaluate as evaluate_disapproval, trigger as disapproval_trigger,
}

-- `approval.Defaults`, whose options may be missing.
abbrev pub Defaults : Type 0
Defaults = Option Options

pub record Config : Type 0 where
  pub approval : Values
  pub disapproval : Option Disapproval
  pub approval_defaults : Option Defaults
  pub approval_rules : List Rule

pub record GlobalOptions : Type 0 where
  pub ignore_edited_comments : Option Bool
  pub approval_defaults : Option Defaults

-- The evaluator of a policy.
pub record Evaluator : Type 0 where
  pub approval : Approval
  pub disapproval : Disapproval

abbrev pub set_default_options : Options → Defaults → Options
set_default_options existing none = existing
set_default_options existing (some next) = with_defaults (fields next) existing

abbrev pub hardcoded_fields : OptionFields
hardcoded_fields = record no_option_fields { methods = some default_methods }

abbrev pub with_option_defaults : Options → Option Defaults → Options
with_option_defaults existing none = existing
with_option_defaults existing (some defaults) = set_default_options existing defaults

abbrev pub server_defaults : Option GlobalOptions → Option Defaults
server_defaults none = none
server_defaults (some opts) = opts.approval_defaults

-- Server defaults over the hardcoded ones, and the policy's defaults over both.
unfoldable pub default_approval_options : Config → Option GlobalOptions → Options
default_approval_options c opts =
    with_option_defaults (with_option_defaults (options hardcoded_fields) (server_defaults opts))
      c.approval_defaults

abbrev pub server_ignores_edited : Option GlobalOptions → Option Bool
server_ignores_edited none = none
server_ignores_edited (some opts) = opts.ignore_edited_comments

abbrev pub override : Option Bool → OptionFields → OptionFields
override none o = o
override (some b) o = record o { ignore_edited_comments = some b }

unfoldable pub with_rule_defaults : Options → Option Bool → Rule → Rule
with_rule_defaults defaults ignore r = record r {
  options = with_defaults (override ignore (fields r.options)) defaults;
}

abbrev pub exists {ℓ} : {A : Type ℓ} → Option A → Bool
exists none = false
exists (some a) = true

-- The loop over the rules.
unfoldable pub rules_by_name : Options → Option Bool → List Rule → Rules → Attempt Rules
unfolding with_rule_defaults
rules_by_name defaults ignore [] m = ok m
rules_by_name defaults ignore (r ∷ rs) m =
    let rest =
      rules_by_name defaults ignore rs (put r.name (with_rule_defaults defaults ignore r) m) in
    if exists (get r.name m)
    then err (raised ("duplicate approval rule name " <> quote r.name))
    else rest

abbrev pub or_no_disapproval : Option Disapproval → Disapproval
or_no_disapproval none = no_disapproval
or_no_disapproval (some d) = d

unfoldable pub parse_policy : MapOrder String → Config → Option GlobalOptions → Attempt Evaluator
unfolding rules_by_name default_approval_options parse
parse_policy order c opts = do
  rules ←
      rules_by_name (default_approval_options c opts) (server_ignores_edited opts) c.approval_rules
        []
  approval ← wrap "failed to parse approval policy" (parse order rules c.approval)
  ok (record { approval = approval; disapproval = or_no_disapproval c.disapproval })

unfoldable pub trigger : Evaluator → Trigger
trigger e = policy_trigger e.approval or disapproval_trigger e.disapproval

-- The loop over the children keeps the last error.
abbrev pub last_of : Option Error → Option Error → Option Error
last_of first (some e) = some e
last_of first none = first

-- The final switch.
policy_report : Report → Report → Option Error → Report
policy_report approval disapproval (some e) = record no_report { name = "policy"; error = some e }
policy_report approval disapproval none =
    if status_eq disapproval.status disapproved
    then record no_report {
      name = "policy";
      status = disapproved;
      status_description = disapproval.status_description;
    }
    else record no_report {
      name = "policy";
      status = approval.status;
      status_description = approval.status_description;
    }

unfoldable pub combine : Result → Result → Result
unfolding policy_report
combine approval disapproval =
    result
      (policy_report (report approval) (report disapproval)
        (last_of (report approval).error (report disapproval).error))
      (and_result approval (and_result disapproval no_results))

unfoldable pub evaluate : Orders → Evaluator → Context → Result
unfolding combine
evaluate orders e ctx =
    combine (evaluate_policy orders e.approval ctx) (evaluate_disapproval orders e.disapproval ctx)
