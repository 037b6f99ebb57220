-- ===== src/Common/Result.antt =====
-- policy/common/result.go and predicateresult.go
use policy_bot.Prelude.{ℤ}
use policy_bot.Prelude.{ℕ, ◌-◌, String, Bool, true, false, Option, none, List, [], length, Error}
use policy_bot.Pull.{Permission}
use policy_bot.Common.Actors.{Actors, no_actors}
use policy_bot.Common.Methods.{Methods, Candidate}

pub data EvaluationStatus : Type 0 where
  skipped pending approved disapproved : EvaluationStatus

unfoldable pub status_string : EvaluationStatus → String
status_string skipped = "skipped"
status_string pending = "pending"
status_string approved = "approved"
status_string disapproved = "disapproved"

unfoldable pub status_eq : EvaluationStatus → EvaluationStatus → Bool
status_eq skipped skipped = true
status_eq pending pending = true
status_eq approved approved = true
status_eq disapproved disapproved = true
status_eq _ _ = false

abbrev pub request_mode_all_users : String
request_mode_all_users = "all-users"

abbrev pub request_mode_random_users : String
request_mode_random_users = "random-users"

abbrev pub request_mode_teams : String
request_mode_teams = "teams"

pub record ReviewRequestRule : Type 0 where
  pub teams : List String
  pub users : List String
  pub organizations : List String
  pub permissions : List Permission
  pub requested_count : ℤ
  pub mode : String

pub record PredicateResult : Type 0 where
  pub satisfied : Bool
  pub description : String
  pub value_phrase : String
  pub values : List String
  pub reverse_skip_phrase : Bool
  pub condition_phrase : String
  pub conditions_map : List (String × List String)
  pub condition_values : List String

-- The zero value, from which results are built.
abbrev pub no_predicate_result : PredicateResult
no_predicate_result = record {
  satisfied = false;
  description = "";
  value_phrase = "";
  values = [];
  reverse_skip_phrase = false;
  condition_phrase = "";
  conditions_map = [];
  condition_values = [];
}

pub record RequiresResult : Type 0 where
  pub count : ℕ
  pub actors : Actors
  pub approvers : List Candidate
  pub conditions : List PredicateResult

abbrev pub no_requires_result : RequiresResult
no_requires_result = record { count = 0; actors = no_actors; approvers = []; conditions = [] }

pub record Dismissal : Type 0 where
  pub candidate : Candidate
  pub reason : String

-- The fields of a `Result` but its children.
pub record Report : Type 0 where
  pub name : String
  pub description : String
  pub status_description : String
  pub status : EvaluationStatus
  pub error : Option Error
  pub predicate_results : List PredicateResult
  pub methods : Option Methods
  pub requires : RequiresResult
  pub dismissals : List Dismissal
  pub review_request_rule : Option ReviewRequestRule

-- The zero value; `skipped` is the first status.
abbrev pub no_report : Report
no_report = record {
  name = "";
  description = "";
  status_description = "";
  status = skipped;
  error = none;
  predicate_results = [];
  methods = none;
  requires = no_requires_result;
  dismissals = [];
  review_request_rule = none;
}

mutual
  pub data Result : Type 0 where
    result : Report → Results → Result

  pub data Results : Type 0 where
    no_results : Results
    and_result : Result → Results → Results

abbrev pub report : Result → Report
report (result r cs) = r

abbrev pub children : Result → Results
children (result r cs) = cs

abbrev pub leaf : Report → Result
leaf r = result r no_results

-- `max(0, Count - len(Approvers))`
unfoldable pub remaining_approvals : Report → ℕ
remaining_approvals r = r.requires.count - length r.requires.approvers
