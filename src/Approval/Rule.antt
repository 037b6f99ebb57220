-- ===== src/Approval/Rule.antt =====
-- policy/approval/approve.go: the evaluation of one rule.
pub mod Filtering
pub mod Partition
pub mod Approvers
pub mod Conditions
pub mod Soundness
pub mod Completeness
pub mod Stability
use policy_bot.Prelude.{ℤ, pos, negsuc, zero, suc}
use policy_bot.Prelude.{
  ℕ, ◌-◌, String, Bool, true, false, not, ◌&&◌, Option, none, some, List, [], ◌∷◌, ◌++◌, map, ltb,
  leb, ◌==◌, str_eq, if◌then◌else◌, length, is_empty, keep, contains, get, Error, wrapped, Attempt,
  ok, err, ◌>>=◌, wrap, ◌<>◌, show, first_chars, join, sort, MapOrder,
}
use policy_bot.Pull.{Time, Commit, users, Context}
use policy_bot.Common.Actors.{Actors, get_permissions, is_actor}
use policy_bot.Common.Trigger.{
  Trigger, trigger_commit, trigger_comment, trigger_review, trigger_pull_request, or_if, or_all,
}
use policy_bot.Common.Methods.{
  Candidate, Orders, uses_comments, uses_body, uses_reviews, candidates, created_before,
}
use policy_bot.Common.Result.{
  Report, no_report, Result, leaf, PredicateResult, RequiresResult, Dismissal, ReviewRequestRule,
  approved, pending, skipped, request_mode_random_users,
}
use policy_bot.Predicate.{
  Predicate, Predicates, predicates, evaluate as evaluate_predicate, trigger as predicate_trigger,
}
use policy_bot.Approval.Options.{
  Options, is_allow_author, is_allow_contributor, is_allow_non_author_contributor,
  is_invalidate_on_push, is_ignore_edited_comments, get_request_review, get_methods,
}
use policy_bot.Approval.Commits.{filtered_commits}

pub record Requires : Type 0 where
  pub count : ℕ
  pub actors : Actors
  pub conditions : Predicates

pub record Rule : Type 0 where
  pub name : String
  pub description : String
  pub predicates : Predicates
  pub options : Options
  pub requires : Requires

unfoldable pub trigger : Rule → Trigger
trigger r =
    let m = get_methods r.options in
    let counts = ltb 0 r.requires.count in
    or_all predicate_trigger (predicates r.predicates) (
      or_all predicate_trigger (predicates r.requires.conditions) (
        or_if (counts && uses_reviews m) trigger_review (
          or_if (counts && uses_body m) trigger_pull_request
            (or_if (counts && uses_comments m) trigger_comment trigger_commit))))

-- A count of 0 asks for as many as are required; one below zero stays.
abbrev requested : ℤ → ℕ → ℤ
requested (pos zero) required = pos required
requested (pos (suc n)) required = pos (suc n)
requested (negsuc n) required = negsuc n

unfoldable pub review_request_rule : Rule → Option ReviewRequestRule
review_request_rule r =
    let rr = get_request_review r.options in
    if not rr.enabled
    then none
    else some (record {
      users = r.requires.actors.users;
      teams = r.requires.actors.teams;
      organizations = r.requires.actors.organizations;
      permissions = get_permissions r.requires.actors;
      requested_count = requested rr.count r.requires.count;
      mode = if str_eq rr.mode "" then request_mode_random_users else rr.mode;
    })

-- The users whom the options exclude: the author, and the other users of the counted commits.
abbrev pub banned_author : Rule → Context → List String
banned_author r ctx =
    if not (is_allow_author r.options) && not (is_allow_contributor r.options)
    then ctx.author ∷ []
    else []

abbrev pub commit_contributors : String → List Commit → List String
commit_contributors author [] = []
commit_contributors author (c ∷ commits) =
    keep (λ u. not (str_eq u author)) (users c) ++ commit_contributors author commits

unfoldable pub banned_users : Rule → Context → Attempt (List String)
banned_users r ctx =
    if not (is_allow_contributor r.options) && not (is_allow_non_author_contributor r.options)
    then (do
      commits ← filtered_commits r.options ctx
      ok (banned_author r ctx ++ commit_contributors ctx.author commits))
    else ok (banned_author r ctx)

-- The loop over the candidates.
unfoldable pub real_approvers :
    Actors → Context → List String → List Candidate → Attempt (List Candidate)
real_approvers actors ctx banned [] = ok []
real_approvers actors ctx banned (c ∷ cs) =
    let rest = real_approvers actors ctx banned cs in
    if contains banned c.user
    then rest
    else wrap "failed to check candidate status" (is_actor actors ctx c.user) >>= λ is_approver.
        if is_approver then (rest >>= λ others. ok (c ∷ others)) else rest

unfoldable pub is_approved_by_actors :
    Rule → Context → List Candidate → Attempt (Bool × List Candidate)
unfolding banned_users real_approvers
is_approved_by_actors r ctx cs =
    if leb r.requires.count 0
    then ok (true, [])
    else (banned_users r ctx >>= λ banned.
        real_approvers r.requires.actors ctx banned cs >>= λ approvers.
        ok (leb r.requires.count (length approvers), approvers))

-- Every condition is evaluated; the first error ends the loop.
unfoldable pub evaluate_all :
    MapOrder String → Context → List Predicate → Attempt (List PredicateResult)
evaluate_all order ctx [] = ok []
evaluate_all order ctx (p ∷ ps) =
    let rest = evaluate_all order ctx ps in
    wrap "failed to evaluate condition" (evaluate_predicate order p ctx) >>= λ result.
    rest >>= λ results. ok (result ∷ results)

abbrev pub satisfied_count : List PredicateResult → ℕ
satisfied_count results = length (keep (λ r. r.satisfied) results)

unfoldable pub is_approved_by_conditions :
    MapOrder String → Rule → Context → Attempt (Bool × List PredicateResult)
unfolding evaluate_all
is_approved_by_conditions order r ctx =
    let conditions = predicates r.requires.conditions in
    if is_empty conditions
    then ok (true, [])
    else (evaluate_all order ctx conditions >>= λ results.
        ok (satisfied_count results == length conditions, results))

unfoldable pub is_approved :
    MapOrder String → Rule → Context → List Candidate → Attempt (Bool × RequiresResult)
unfolding is_approved_by_actors is_approved_by_conditions
is_approved order r ctx cs = do
  by_actors ← is_approved_by_actors r ctx cs
  by_conditions ← is_approved_by_conditions order r ctx
  ok (
    by_actors.0 && by_conditions.0,
    record {
      count = r.requires.count;
      actors = r.requires.actors;
      approvers = by_actors.1;
      conditions = by_conditions.1;
    },
  )

-- Candidates that stay, and dismissals of the others.
abbrev pub Split : Type 0
Split = List Candidate × List Dismissal

abbrev pub allow : Candidate → Split → Split
allow c s = (c ∷ s.0, s.1)

abbrev pub dismiss : Candidate → String → Split → Split
dismiss c reason s = (s.0, record { candidate = c; reason = reason } ∷ s.1)

-- `LastEditedAt.IsZero()`
unfoldable pub split_edited : List Candidate → Split
split_edited [] = ([], [])
split_edited (c ∷ cs) =
    let rest = split_edited cs in
    if c.last_edited_at == 0 then allow c rest else dismiss c "Comment was edited" rest

unfoldable pub filter_edited_candidates : Rule → List Candidate → Split
unfolding split_edited
filter_edited_candidates r cs =
    if not (is_ignore_edited_comments r.options) then (cs, []) else split_edited cs

unfoldable pub split_invalid : String → Time → List Candidate → Split
split_invalid sha last_pushed_at [] = ([], [])
split_invalid sha last_pushed_at (c ∷ cs) =
    let rest = split_invalid sha last_pushed_at cs in
    if ltb last_pushed_at c.created_at
    then allow c rest
    else dismiss c ("Invalidated by push of " <> first_chars 7 sha) rest

-- By the last counted commit, if there is one.
unfoldable pub invalid_split : Context → List Candidate → List Commit → Attempt Split
unfolding split_invalid
invalid_split ctx cs [] = ok (cs, [])
invalid_split ctx cs (c ∷ commits) =
    wrap "failed to get last push timestamp" (ctx.pushed_at c.sha) >>= λ last_pushed_at.
    ok (split_invalid c.sha last_pushed_at cs)

unfoldable pub filter_invalid_candidates : Rule → Context → List Candidate → Attempt Split
unfolding invalid_split
filter_invalid_candidates r ctx cs = do
  commits ← filtered_commits r.options ctx
  invalid_split ctx cs commits

unfoldable pub filtered_candidates : Orders → Rule → Context → Attempt Split
unfolding filter_edited_candidates filter_invalid_candidates sort
filtered_candidates orders r ctx = if leb r.requires.count 0 then ok ([], []) else (do
  found ←
      wrap "failed to get approval candidates"
        (candidates orders.candidates (get_methods r.options) ctx)
  let sorted = sort created_before found
  let edited =
      if is_ignore_edited_comments r.options
      then filter_edited_candidates r sorted
      else (sorted, [])
  invalid ←
      (if is_invalidate_on_push r.options
        then filter_invalid_candidates r ctx edited.0
        else ok (edited.0, []))
  ok (invalid.0, edited.1 ++ invalid.1))

unfoldable pub number_of_approvals : ℕ → String
number_of_approvals n = if n == 1 then "1 approval" else show n <> " approvals"

approved_description : RequiresResult → String
approved_description result =
    let has_actors = ltb 0 result.count in
    let has_conditions = not (is_empty result.conditions) in
    if not has_actors && not has_conditions
    then "No approval required"
    else "Approved by "
      <> join ", " (map (λ c. c.user) result.approvers)
      <> (if has_conditions
          then (if has_actors then " and " else "") <> "required conditions"
          else "")

pending_description : RequiresResult → List Candidate → String
unfolding number_of_approvals
pending_description result cs =
    let has_actors = ltb 0 result.count in
    let has_conditions = not (is_empty result.conditions) in
    let disqualified = length cs - length result.approvers in
    (if has_actors
      then show (length result.approvers) <> "/" <> show result.count <> " required approvals"
      else "")
    <> (if has_conditions
        then (if has_actors then " and " else "")
          <> show (satisfied_count result.conditions)
          <> "/"
          <> show (length result.conditions)
          <> " required conditions"
        else "")
    <> (if has_actors && ltb 0 disqualified
        then ". Ignored " <> number_of_approvals disqualified <> " from disqualified users"
        else "")

unfoldable pub status_description : Bool → RequiresResult → List Candidate → String
unfolding approved_description pending_description
status_description true result cs = approved_description result
status_description false result cs = pending_description result cs

-- How the loop over the predicates ends.
pub data Preconditions : Type 0 where
  failed : Error → Preconditions
  unsatisfied : PredicateResult → Preconditions
  satisfied : List PredicateResult → Preconditions

abbrev pub add_result : PredicateResult → Preconditions → Preconditions
add_result r (satisfied rs) = satisfied (r ∷ rs)
add_result r other = other

abbrev pub after_predicate : Preconditions → Attempt PredicateResult → Preconditions
after_predicate rest (err e) = failed (wrapped "failed to evaluate predicate" e)
after_predicate rest (ok r) = if not r.satisfied then unsatisfied r else add_result r rest

unfoldable pub preconditions : MapOrder String → Context → List Predicate → Preconditions
preconditions order ctx [] = satisfied []
preconditions order ctx (p ∷ ps) =
    after_predicate (preconditions order ctx ps) (evaluate_predicate order p ctx)

unfoldable pub base_report : Rule → Report
base_report r = record no_report {
  name = r.name;
  description = r.description;
  status = skipped;
  methods = some (get_methods r.options);
}

abbrev pub with_error : Report → Error → Report
with_error rep e = record rep { error = some e }

-- The report of the last part of `Evaluate`.
unfoldable pub decided : Rule → Report → Split → Bool × RequiresResult → Report
decided r rep split (is_ok, result) = record rep {
  requires = result;
  dismissals = split.1;
  status_description = status_description is_ok result split.0;
  status = if is_ok then approved else pending;
  review_request_rule = if is_ok then none else review_request_rule r;
}

unfoldable pub verdict_report : Rule → Report → Split → Attempt (Bool × RequiresResult) → Report
unfolding decided
verdict_report r rep split (err e) = with_error rep (wrapped "failed to compute approval status" e)
verdict_report r rep split (ok verdict) = decided r rep split verdict

unfoldable pub approval_report : MapOrder String → Rule → Context → Report → Attempt Split → Report
unfolding verdict_report
approval_report order r ctx rep (err e) = with_error rep (wrapped "failed to filter candidates" e)
approval_report order r ctx rep (ok split) =
    verdict_report r rep split (is_approved order r ctx split.0)

unfoldable pub rule_report : Orders → Rule → Context → Preconditions → Report
unfolding base_report approval_report
rule_report orders r ctx (failed e) = with_error (base_report r) e
rule_report orders r ctx (unsatisfied result) = record (base_report r) {
  status_description =
      if str_eq result.description ""
      then "A precondition of this rule was not satisfied"
      else result.description;
  predicate_results = result ∷ [];
}
rule_report orders r ctx (satisfied results) =
    approval_report orders.keys r ctx (record (base_report r) { predicate_results = results })
      (filtered_candidates orders r ctx)

unfoldable pub evaluate : Orders → Rule → Context → Result
unfolding rule_report
evaluate orders r ctx =
    leaf (rule_report orders r ctx (preconditions orders.keys ctx (predicates r.predicates)))
