-- ===== src/Examples/Policies.antt =====
-- Whole policies, evaluated.
use policy_bot.Prelude.{
  ◌≡◌, refl, ◌↔◌, ◌⊎◌, false, none, some, List, ok, first_chars, contains_text, sort,
}
use policy_bot.Common.Trigger.{matches, trigger_label}
use policy_bot.Common.Methods.{
  Candidate, insertion_orders, candidates, uses_body, get_body_patterns,
}
use policy_bot.Common.Result.{report, approved, disapproved, skipped}
use policy_bot.Approval.Requirements.{Requirement, evaluate_policy, policy_trigger}
use policy_bot.Approval.Requirements.Soundness.{IsSatisfied, evaluate_policy-IsSatisfied}
use policy_bot.Disapproval.{
  evaluate as evaluate_disapproval, get_disapprove_methods, get_revoke_methods, last_actor,
  trigger as disapproval_trigger,
}
use policy_bot.Disapproval.LastActor.{IsLastOf, last_actor-IsLastActor}
use policy_bot.Disapproval.Verdict.{Judgement, evaluate-Judgement}
use policy_bot.Disapproval.Coverage.{IgnoresBody, disapproval-stable}
use policy_bot.Policy.{evaluate, trigger}
use policy_bot.Policy.Meaning.{evaluate-approved, evaluate-disapproved}
use policy_bot.Policy.Stability.{evaluate-stable}
use policy_bot.Examples.{
  pull_request, relabelled, relabelled-Agree, disapproved_request, policy, by_carol,
}

policy-approved : (report (evaluate insertion_orders policy pull_request)).status ≡ approved
unfolding policy_bot.Common.Methods.get_comments policy_bot.Common.Methods.get_comment_patterns
    policy_bot.Common.Methods.is_github_review
    policy_bot.Common.Methods.get_github_review_comment_patterns
    policy_bot.Common.Methods.get_body_patterns policy_bot.Common.Methods.created_before
    policy_bot.Common.Methods.comment_matches policy_bot.Common.Methods.deduplicate_candidates
    policy_bot.Common.Methods.uses_comments policy_bot.Common.Methods.uses_body
    policy_bot.Common.Methods.uses_reviews policy_bot.Common.Methods.comment_candidates
    policy_bot.Common.Methods.body_candidates policy_bot.Common.Methods.review_candidates
    policy_bot.Common.Methods.candidates policy_bot.Common.Actors.is_zero
    policy_bot.Common.Actors.is_actor policy_bot.Predicate.predicates
    policy_bot.Approval.Options.is_allow_author policy_bot.Approval.Options.is_allow_contributor
    policy_bot.Approval.Options.is_allow_non_author_contributor
    policy_bot.Approval.Options.is_invalidate_on_push
    policy_bot.Approval.Options.is_ignore_edited_comments
    policy_bot.Approval.Options.is_ignore_update_merges
    policy_bot.Approval.Options.get_ignore_commits_by policy_bot.Approval.Options.get_methods
    policy_bot.Approval.Commits.commits_by_sha policy_bot.Approval.Commits.sort_commits
    policy_bot.Approval.Commits.filtered_commits policy_bot.Approval.Rule.trigger
    policy_bot.Approval.Rule.banned_users policy_bot.Approval.Rule.real_approvers
    policy_bot.Approval.Rule.is_approved_by_actors
    policy_bot.Approval.Rule.is_approved_by_conditions policy_bot.Approval.Rule.is_approved
    policy_bot.Approval.Rule.split_edited policy_bot.Approval.Rule.filter_edited_candidates
    policy_bot.Approval.Rule.split_invalid policy_bot.Approval.Rule.invalid_split
    policy_bot.Approval.Rule.filter_invalid_candidates policy_bot.Approval.Rule.filtered_candidates
    policy_bot.Approval.Rule.preconditions policy_bot.Approval.Rule.base_report
    policy_bot.Approval.Rule.decided policy_bot.Approval.Rule.verdict_report
    policy_bot.Approval.Rule.approval_report policy_bot.Approval.Rule.rule_report
    policy_bot.Approval.Rule.evaluate policy_bot.Approval.Requirements.count_status
    policy_bot.Approval.Requirements.count_child policy_bot.Approval.Requirements.tally
    policy_bot.Approval.Requirements.or_report policy_bot.Approval.Requirements.and_report
    policy_bot.Approval.Requirements.or_result policy_bot.Approval.Requirements.and_result_of
    policy_bot.Approval.Requirements.policy_trigger policy_bot.Approval.Requirements.evaluate_policy
    policy_bot.Disapproval.get_disapprove_methods policy_bot.Disapproval.get_revoke_methods
    policy_bot.Disapproval.trigger policy_bot.Disapproval.filter policy_bot.Disapproval.last_actor
    policy_bot.Disapproval.revocation policy_bot.Disapproval.disapproval_verdict
    policy_bot.Disapproval.is_disapproved policy_bot.Disapproval.base_report
    policy_bot.Disapproval.preconditions policy_bot.Disapproval.verdict_report
    policy_bot.Disapproval.disapproval_report policy_bot.Disapproval.evaluate
    policy_bot.Policy.combine policy_bot.Policy.evaluate policy_bot.Approval.Requirements.evaluate
    policy_bot.Common.Result.status_eq policy_bot.Pull.users policy_bot.Prelude.contains_text
    policy_bot.Prelude.sort policy_bot.Prelude.first_chars
policy-approved = refl

evaluate-approved_example :
    ((policy.approval ≡ none)
      ⊎ ((root : Requirement) × (policy.approval ≡ some root)
          × IsSatisfied insertion_orders pull_request root))
    × Judgement insertion_orders policy.disapproval pull_request skipped
evaluate-approved_example = evaluate-approved insertion_orders policy pull_request policy-approved

approval-clean :
    ((report (evaluate_policy insertion_orders policy.approval pull_request)).error ≡ none)
    × ((report (evaluate_policy insertion_orders policy.approval pull_request)).status ≡ approved)
unfolding policy_bot.Common.Methods.get_comments policy_bot.Common.Methods.get_comment_patterns
    policy_bot.Common.Methods.is_github_review
    policy_bot.Common.Methods.get_github_review_comment_patterns
    policy_bot.Common.Methods.get_body_patterns policy_bot.Common.Methods.created_before
    policy_bot.Common.Methods.comment_matches policy_bot.Common.Methods.deduplicate_candidates
    policy_bot.Common.Methods.uses_comments policy_bot.Common.Methods.uses_body
    policy_bot.Common.Methods.uses_reviews policy_bot.Common.Methods.comment_candidates
    policy_bot.Common.Methods.body_candidates policy_bot.Common.Methods.review_candidates
    policy_bot.Common.Methods.candidates policy_bot.Common.Actors.is_zero
    policy_bot.Common.Actors.is_actor policy_bot.Predicate.predicates
    policy_bot.Approval.Options.is_allow_author policy_bot.Approval.Options.is_allow_contributor
    policy_bot.Approval.Options.is_allow_non_author_contributor
    policy_bot.Approval.Options.is_invalidate_on_push
    policy_bot.Approval.Options.is_ignore_edited_comments
    policy_bot.Approval.Options.is_ignore_update_merges
    policy_bot.Approval.Options.get_ignore_commits_by policy_bot.Approval.Options.get_methods
    policy_bot.Approval.Commits.commits_by_sha policy_bot.Approval.Commits.sort_commits
    policy_bot.Approval.Commits.filtered_commits policy_bot.Approval.Rule.trigger
    policy_bot.Approval.Rule.banned_users policy_bot.Approval.Rule.real_approvers
    policy_bot.Approval.Rule.is_approved_by_actors
    policy_bot.Approval.Rule.is_approved_by_conditions policy_bot.Approval.Rule.is_approved
    policy_bot.Approval.Rule.split_edited policy_bot.Approval.Rule.filter_edited_candidates
    policy_bot.Approval.Rule.split_invalid policy_bot.Approval.Rule.invalid_split
    policy_bot.Approval.Rule.filter_invalid_candidates policy_bot.Approval.Rule.filtered_candidates
    policy_bot.Approval.Rule.preconditions policy_bot.Approval.Rule.base_report
    policy_bot.Approval.Rule.decided policy_bot.Approval.Rule.verdict_report
    policy_bot.Approval.Rule.approval_report policy_bot.Approval.Rule.rule_report
    policy_bot.Approval.Rule.evaluate policy_bot.Approval.Requirements.count_status
    policy_bot.Approval.Requirements.count_child policy_bot.Approval.Requirements.tally
    policy_bot.Approval.Requirements.or_report policy_bot.Approval.Requirements.and_report
    policy_bot.Approval.Requirements.or_result policy_bot.Approval.Requirements.and_result_of
    policy_bot.Approval.Requirements.policy_trigger policy_bot.Approval.Requirements.evaluate_policy
    policy_bot.Approval.Requirements.evaluate policy_bot.Common.Result.status_eq
    policy_bot.Pull.users policy_bot.Prelude.contains_text policy_bot.Prelude.sort
    policy_bot.Prelude.first_chars
approval-clean = (refl, refl)

evaluate_policy-IsSatisfied_example :
    (policy.approval ≡ none)
    ⊎ ((root : Requirement) × (policy.approval ≡ some root)
        × IsSatisfied insertion_orders pull_request root)
evaluate_policy-IsSatisfied_example =
    evaluate_policy-IsSatisfied insertion_orders pull_request policy.approval approval-clean.0
      approval-clean.1

disapproval-clean :
    (report (evaluate_disapproval insertion_orders by_carol disapproved_request)).error ≡ none
unfolding policy_bot.Common.Methods.get_comments policy_bot.Common.Methods.get_comment_patterns
    policy_bot.Common.Methods.is_github_review
    policy_bot.Common.Methods.get_github_review_comment_patterns
    policy_bot.Common.Methods.get_body_patterns policy_bot.Common.Methods.created_before
    policy_bot.Common.Methods.comment_matches policy_bot.Common.Methods.deduplicate_candidates
    policy_bot.Common.Methods.uses_comments policy_bot.Common.Methods.uses_body
    policy_bot.Common.Methods.uses_reviews policy_bot.Common.Methods.comment_candidates
    policy_bot.Common.Methods.body_candidates policy_bot.Common.Methods.review_candidates
    policy_bot.Common.Methods.candidates policy_bot.Common.Actors.is_zero
    policy_bot.Common.Actors.is_actor policy_bot.Predicate.predicates
    policy_bot.Disapproval.get_disapprove_methods policy_bot.Disapproval.get_revoke_methods
    policy_bot.Disapproval.trigger policy_bot.Disapproval.filter policy_bot.Disapproval.last_actor
    policy_bot.Disapproval.revocation policy_bot.Disapproval.disapproval_verdict
    policy_bot.Disapproval.is_disapproved policy_bot.Disapproval.base_report
    policy_bot.Disapproval.preconditions policy_bot.Disapproval.verdict_report
    policy_bot.Disapproval.disapproval_report policy_bot.Disapproval.evaluate
    policy_bot.Common.Result.status_eq policy_bot.Pull.users policy_bot.Prelude.contains_text
    policy_bot.Prelude.sort policy_bot.Prelude.first_chars
disapproval-clean = refl

evaluate-Judgement_example :
    Judgement insertion_orders by_carol disapproved_request
      (report (evaluate_disapproval insertion_orders by_carol disapproved_request)).status
evaluate-Judgement_example =
    evaluate-Judgement insertion_orders by_carol disapproved_request disapproval-clean

evaluate-disapproved_example :
    ((report (evaluate insertion_orders policy disapproved_request)).status ≡ disapproved) ↔ (
      ((report (evaluate_policy insertion_orders policy.approval disapproved_request)).error ≡ none)
      × ((report
            (evaluate_disapproval insertion_orders policy.disapproval disapproved_request)).error
          ≡ none)
      × Judgement insertion_orders policy.disapproval disapproved_request disapproved
      × ((report
            (evaluate_disapproval insertion_orders policy.disapproval disapproved_request)).status
          ≡ disapproved))
evaluate-disapproved_example = evaluate-disapproved insertion_orders policy disapproved_request

abbrev by_review : Candidate
by_review = record {
  type = "review";
  review_id = "r1";
  user = "carol";
  created_at = 30;
  last_edited_at = 0;
}

carol-last :
    last_actor insertion_orders by_carol disapproved_request (get_disapprove_methods by_carol)
    ≡ ok (some by_review)
unfolding policy_bot.Common.Methods.get_comments policy_bot.Common.Methods.get_comment_patterns
    policy_bot.Common.Methods.is_github_review
    policy_bot.Common.Methods.get_github_review_comment_patterns
    policy_bot.Common.Methods.get_body_patterns policy_bot.Common.Methods.created_before
    policy_bot.Common.Methods.comment_matches policy_bot.Common.Methods.deduplicate_candidates
    policy_bot.Common.Methods.uses_comments policy_bot.Common.Methods.uses_body
    policy_bot.Common.Methods.uses_reviews policy_bot.Common.Methods.comment_candidates
    policy_bot.Common.Methods.body_candidates policy_bot.Common.Methods.review_candidates
    policy_bot.Common.Methods.candidates policy_bot.Common.Actors.is_zero
    policy_bot.Common.Actors.is_actor policy_bot.Predicate.predicates
    policy_bot.Disapproval.get_disapprove_methods policy_bot.Disapproval.get_revoke_methods
    policy_bot.Disapproval.trigger policy_bot.Disapproval.filter policy_bot.Disapproval.last_actor
    policy_bot.Disapproval.revocation policy_bot.Disapproval.disapproval_verdict
    policy_bot.Disapproval.is_disapproved policy_bot.Disapproval.base_report
    policy_bot.Disapproval.preconditions policy_bot.Disapproval.verdict_report
    policy_bot.Disapproval.disapproval_report policy_bot.Disapproval.evaluate
    policy_bot.Common.Result.status_eq policy_bot.Pull.users policy_bot.Prelude.contains_text
    policy_bot.Prelude.sort policy_bot.Prelude.first_chars
carol-last = refl

last_actor-IsLastActor_example :
    (found : List Candidate) × (candidates insertion_orders.candidates
        (get_disapprove_methods by_carol)
        disapproved_request
      ≡ ok found)
    × IsLastOf by_carol disapproved_request found (some by_review)
last_actor-IsLastActor_example =
    last_actor-IsLastActor by_carol disapproved_request insertion_orders
      (get_disapprove_methods by_carol) (some by_review) carol-last

no_body : IgnoresBody by_carol
unfolding policy_bot.Disapproval.get_disapprove_methods policy_bot.Disapproval.get_revoke_methods
    policy_bot.Common.Methods.uses_body policy_bot.Common.Methods.get_body_patterns
no_body = record { disapprove = refl; revoke = refl }

no_labels :
    (matches (trigger policy) trigger_label ≡ false)
    × (matches (disapproval_trigger by_carol) trigger_label ≡ false)
unfolding policy_bot.Approval.Requirements.trigger policy_bot.Common.Trigger.matches
    policy_bot.Common.Methods.get_comments policy_bot.Common.Methods.get_comment_patterns
    policy_bot.Common.Methods.is_github_review
    policy_bot.Common.Methods.get_github_review_comment_patterns
    policy_bot.Common.Methods.get_body_patterns policy_bot.Common.Methods.uses_comments
    policy_bot.Common.Methods.uses_body policy_bot.Common.Methods.uses_reviews
    policy_bot.Common.Actors.is_zero policy_bot.Common.Patterns.regexp_is_zero
    policy_bot.Predicate.trigger policy_bot.Predicate.predicates
    policy_bot.Approval.Options.get_methods policy_bot.Approval.Rule.trigger
    policy_bot.Approval.Requirements.policy_trigger policy_bot.Disapproval.get_disapprove_methods
    policy_bot.Disapproval.get_revoke_methods policy_bot.Disapproval.trigger
    policy_bot.Policy.trigger
no_labels = (refl, refl)

disapproval-stable_example :
    evaluate_disapproval insertion_orders by_carol pull_request
    ≡ evaluate_disapproval insertion_orders by_carol relabelled
disapproval-stable_example =
    disapproval-stable by_carol insertion_orders pull_request relabelled no_body
      (relabelled-Agree (disapproval_trigger by_carol) no_labels.1)

evaluate-stable_example :
    evaluate insertion_orders policy pull_request ≡ evaluate insertion_orders policy relabelled
evaluate-stable_example =
    evaluate-stable insertion_orders pull_request relabelled policy no_body
      (relabelled-Agree (trigger policy) no_labels.0)
