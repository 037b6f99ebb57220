-- ===== src/Examples/Inputs.antt =====
-- The parts of a policy, on single inputs.
use policy_bot.Approval.Options.Resolution.{option_levels}
use policy_bot.Prelude.{
  ℕ, ◌<◌, String, ◌≡◌, refl, ◌↔◌, ◌⊎◌, inl, inr, Bool, true, false, ◌||◌, none, some, List, [], ◌∷◌,
  ◌++◌, map, Mem, Nodup, arith, eq_iff, str_eq, if◌then◌else◌, Bool-cases, any, get, raised, ok,
  insertion_order,
}
use policy_bot.Pull.{Permission, permission_none, permission_write, Commit}
use policy_bot.Pull.Permission.{marshal_text, parse_permission, parse_permission-marshal_text}
use policy_bot.Common.Actors.{Actors, no_actors, is_actor, get_permissions}
use policy_bot.Common.Actors.Membership.{IsAllowed, Answers, is_actor-iff_IsAllowed}
use policy_bot.Common.Actors.Permissions.{IsDecreasing, any_granted, get_permissions-IsDecreasing}
use policy_bot.Common.Methods.{Candidate, deduplicate_candidates}
use policy_bot.Common.Methods.Latest.{IsLatestAction, deduplicate_candidates-latest}
use policy_bot.Common.Result.{
  no_report, leaf, Results, no_results, and_result, report, approved, pending, skipped,
}
use policy_bot.Predicate.{author_is_only_contributor, evaluate, trigger}
use policy_bot.Predicate.Stability.{evaluate_stable}
use policy_bot.Common.Trigger.{matches, trigger_label}
use policy_bot.Approval.Options.{fields, Options, options}
use policy_bot.Approval.Options.{no_method_fields, no_option_fields, with_defaults, get_methods}
use policy_bot.Approval.Options.Merging.{method_levels, get_methods-levels}
use policy_bot.Common.Methods.{
  methods, github_review_state, get_comments, get_comment_patterns, is_github_review,
  get_github_review_comment_patterns, get_body_patterns,
}
use policy_bot.Common.Methods.Resolution.{first_set}
use policy_bot.Pull.{review_approved}
use policy_bot.Approval.Commits.{commits_by_sha, sort_commits}
use policy_bot.Approval.Commits.History.{IsHistory, IsRanked, sort_commits-IsHistory}
use policy_bot.Approval.Requirements.{or_result, and_result_of}
use policy_bot.Approval.Requirements.Combination.{
  reports, comes_to, last_error, or_result-lem, and_result_of-lem,
}
use policy_bot.Approval.Parse.{no_values, Rules}
use policy_bot.Policy.{
  Config, default_approval_options, server_defaults, hardcoded_fields, override, with_rule_defaults,
  rules_by_name,
}
use policy_bot.Policy.Defaults.{level, with_rule_defaults-levels, rules_by_name-distinct}
use policy_bot.Examples.{
  first_commit, second_commit, pull_request, relabelled, relabelled-Agree, rule_options,
  one_approval,
}

parse_permission-marshal_text_example :
    parse_permission (marshal_text permission_write) ≡ ok permission_write
parse_permission-marshal_text_example = parse_permission-marshal_text permission_write (omega arith)

abbrev maintainers : Actors
maintainers = record no_actors { users = "bob" ∷ []; admins = true; permissions = 4 ∷ 3 ∷ [] }

get_permissions-IsDecreasing_example :
    IsDecreasing (get_permissions maintainers)
    × ((f : Permission → Bool) → any f (get_permissions maintainers) ≡ any_granted f maintainers)
get_permissions-IsDecreasing_example = get_permissions-IsDecreasing maintainers

answers : Answers pull_request "bob"
answers = record {
  team = λ t. (false, refl);
  organization = λ o. (false, refl);
  permission = (permission_none, refl);
}

is_actor-iff_IsAllowed_example :
    (b : Bool) × (is_actor maintainers pull_request "bob" ≡ ok b)
    × ((b ≡ true) ↔ IsAllowed maintainers pull_request "bob")
is_actor-iff_IsAllowed_example = is_actor-iff_IsAllowed maintainers pull_request "bob" answers

abbrev at : ℕ → String → Candidate
at time user = record {
  type = "comment";
  review_id = "";
  user = user;
  created_at = time;
  last_edited_at = 0;
}

abbrev actions : List Candidate
actions = at 1 "bob" ∷ at 2 "dave" ∷ at 3 "bob" ∷ []

deduplicate_candidates-latest_example :
    Nodup (map (λ c. c.user) (deduplicate_candidates insertion_order actions))
    × ((c : Candidate)
        → Mem c (deduplicate_candidates insertion_order actions)
        → IsLatestAction actions c)
    × ((d : Candidate)
        → Mem d actions
        → Mem d.user (map (λ c. c.user) (deduplicate_candidates insertion_order actions)))
deduplicate_candidates-latest_example = deduplicate_candidates-latest insertion_order actions

abbrev plain : Options
plain = options rule_options

-- A rule that sets its own comments, over options with default methods.
abbrev layered : Options
layered =
    with_defaults
      (record no_option_fields {
        methods = some (methods (record no_method_fields { comments = some ("lgtm" ∷ []) }));
      })
      plain

get_methods-levels_example :
    (github_review_state (get_methods layered) ≡ review_approved)
    × (get_comments (get_methods layered) ≡ first_set (λ f. f.comments) [] (method_levels layered))
    × (get_comment_patterns (get_methods layered)
        ≡ first_set (λ f. f.comment_patterns) [] (method_levels layered))
    × (is_github_review (get_methods layered)
        ≡ first_set (λ f. f.github_review) false (method_levels layered))
    × (get_github_review_comment_patterns (get_methods layered)
        ≡ first_set (λ f. f.github_review_comment_patterns) [] (method_levels layered))
    × (get_body_patterns (get_methods layered)
        ≡ first_set (λ f. f.body_patterns) [] (method_levels layered))
get_methods-levels_example = get_methods-levels layered

no_labels : matches (trigger (author_is_only_contributor true)) trigger_label ≡ false
unfolding policy_bot.Common.Trigger.matches policy_bot.Predicate.trigger
no_labels = refl

evaluate_stable_example :
    evaluate insertion_order (author_is_only_contributor true) pull_request
    ≡ evaluate insertion_order (author_is_only_contributor true) relabelled
evaluate_stable_example =
    evaluate_stable insertion_order (author_is_only_contributor true) pull_request relabelled
      (relabelled-Agree (trigger (author_is_only_contributor true)) no_labels)

abbrev commits : List Commit
commits = first_commit ∷ second_commit ∷ []

abbrev age : String → ℕ
age sha = if str_eq sha "a2" then 2 else if str_eq sha "a1" then 1 else 0

same_commit : {k c : Commit} → some k ≡ some c → k ≡ c
same_commit e = cc e

known_commit :
    (sha parent : String) (others : List String) (c k : Commit) (key first : String)
    (rest : List String)
    → key ≡ sha
    → k ≡ c
    → k.parents ≡ first ∷ rest
    → c.parents ≡ parent ∷ others
    → age first < age key
    → age parent < age sha
known_commit sha parent others c k key first rest same_key same parents_k parents_c lower =
    let heads : first ∷ rest ≡ parent ∷ others = cc (same, parents_k, parents_c) in
    let same_parent : first ≡ parent = cc heads in rw (← same_key, ← same_parent) lower

younger :
    (sha parent : String) (others : List String) (c : Commit)
    → get sha (("a1", first_commit) ∷ ("a2", second_commit) ∷ []) ≡ some c
    → c.parents ≡ parent ∷ others
    → age parent < age sha
younger sha parent others c found parents = elim (Bool-cases (str_eq "a1" sha)) [
  | inl e ↦
      known_commit sha parent others c first_commit "a1" "a0" [] ((eq_iff "a1" sha).0 e)
        (same_commit (rw e at found)) refl parents (omega arith)
  | inr e ↦ second (rw e at found) (Bool-cases (str_eq "a2" sha))
]
  where
    second :
        get sha (("a2", second_commit) ∷ []) ≡ some c
        → (str_eq "a2" sha ≡ true) ⊎ (str_eq "a2" sha ≡ false)
        → age parent < age sha
    second found (inl e) =
        known_commit sha parent others c second_commit "a2" "a1" [] ((eq_iff "a2" sha).0 e)
          (same_commit (rw e at found)) refl parents (omega arith)
    second found (inr e) = cc (rw e at found)

ages : IsRanked (commits_by_sha [] commits) 2 age
unfolding commits_by_sha
ages = record { bounded = λ sha. ground arith; decreasing = younger }

sort_commits-IsHistory_example :
    (cs : List Commit) × (sort_commits commits "a2" ≡ some cs)
    × IsHistory (commits_by_sha [] commits) "a2" cs
sort_commits-IsHistory_example = sort_commits-IsHistory commits age "a2" ages

abbrev outcomes : Results
outcomes =
    and_result (leaf (record no_report { status = approved }))
      (and_result (leaf (record no_report { error = some (raised "timeout") })) no_results)

or_result-lem_example :
    ((report (or_result outcomes)).status ≡ (
      if any (comes_to approved) (reports outcomes)
      then approved
      else if any (comes_to pending) (reports outcomes)
      then pending
      else skipped))
    × ((report (or_result outcomes)).error ≡ (
        if any (comes_to approved) (reports outcomes) || any (comes_to pending) (reports outcomes)
        then none
        else last_error (reports outcomes)))
or_result-lem_example = or_result-lem outcomes

and_result_of-lem_example :
    ((report (and_result_of outcomes)).status ≡ (
      if any (comes_to pending) (reports outcomes)
      then pending
      else if any (comes_to approved) (reports outcomes)
      then approved
      else skipped))
    × ((report (and_result_of outcomes)).error ≡ last_error (reports outcomes))
and_result_of-lem_example = and_result_of-lem outcomes

abbrev known : Rules
known = ("one approval", one_approval) ∷ []

abbrev accepted_rules : Rules
accepted_rules = ("one approval", with_rule_defaults plain (some true) one_approval) ∷ []

accepted : rules_by_name plain (some true) (one_approval ∷ []) [] ≡ ok accepted_rules
unfolding rules_by_name
accepted = refl

rules_by_name-distinct_example :
    Nodup (map (λ r. r.name) (one_approval ∷ []))
    × (accepted_rules
        ≡ map (λ r. (r.name, with_rule_defaults plain (some true) r)) (one_approval ∷ []))
rules_by_name-distinct_example =
    rules_by_name-distinct plain (some true) (one_approval ∷ []) accepted_rules accepted

abbrev config : Config
config = record {
  approval = no_values;
  disapproval = none;
  approval_defaults = some (some plain);
  approval_rules = one_approval ∷ [];
}

with_rule_defaults-levels_example :
    option_levels
      (with_rule_defaults (default_approval_options config none) none one_approval).options
    ≡ override none (fields one_approval.options)
      ∷ (level config.approval_defaults
          ++ (level (server_defaults none) ++ (hardcoded_fields ∷ [])))
with_rule_defaults-levels_example = with_rule_defaults-levels config none none one_approval
