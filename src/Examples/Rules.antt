-- ===== src/Examples/Rules.antt =====
-- One rule, evaluated.
use policy_bot.Prelude.{
  ◌≡◌, refl, true, none, [], ◌∷◌, arith, leb, if◌then◌else◌, length, keep, ok, first_chars,
  contains_text, sort,
}
use policy_bot.Common.Methods.{Candidate, insertion_orders}
use policy_bot.Common.Result.{report, approved, pending}
use policy_bot.Approval.Rule.{evaluate, filtered_candidates, Split, trigger}
use policy_bot.Approval.Rule.Filtering.{IsFiltered}
use policy_bot.Approval.Rule.Partition.{filtered_candidates-IsFiltered}
use policy_bot.Approval.Rule.Approvers.{accepts}
use policy_bot.Approval.Rule.Completeness.{IsReady, evaluate-IsReady}
use policy_bot.Approval.Rule.Soundness.{IsEarned, evaluate-IsEarned}
use policy_bot.Examples.{pull_request, one_approval}

rule-approved : (report (evaluate insertion_orders one_approval pull_request)).status ≡ approved
unfolding policy_bot.Common.Methods.get_comments policy_bot.Common.Methods.get_comment_patterns
    policy_bot.Common.Methods.is_github_review
    policy_bot.Common.Methods.get_github_review_comment_patterns
    policy_bot.Common.Methods.get_body_patterns policy_bot.Common.Methods.created_before
    policy_bot.Common.Methods.comment_matches policy_bot.Common.Methods.deduplicate_candidates
    policy_bot.Common.Methods.uses_comments policy_bot.Common.Methods.uses_body
    policy_bot.Common.Methods.uses_reviews policy_bot.Common.Methods.comment_candidates
    policy_bot.Common.Methods.body_candidates policy_bot.Common.Methods.review_candidates
    policy_bot.Common.Methods.candidates policy_bot.Common.Actors.is_zero
    policy_bot.Common.Actors.is_actor policy_bot.Predicate.predicates
    policy_bot.Approval.Options.is_allow_author policy_bot.Approval.Options.is_allow_contributor
    policy_bot.Approval.Options.is_allow_non_author_contributor
    policy_bot.Approval.Options.is_invalidate_on_push
    policy_bot.Approval.Options.is_ignore_edited_comments
    policy_bot.Approval.Options.is_ignore_update_merges
    policy_bot.Approval.Options.get_ignore_commits_by policy_bot.Approval.Options.get_methods
    policy_bot.Approval.Commits.commits_by_sha policy_bot.Approval.Commits.sort_commits
    policy_bot.Approval.Commits.filtered_commits policy_bot.Approval.Rule.trigger
    policy_bot.Approval.Rule.banned_users policy_bot.Approval.Rule.real_approvers
    policy_bot.Approval.Rule.is_approved_by_actors
    policy_bot.Approval.Rule.is_approved_by_conditions policy_bot.Approval.Rule.is_approved
    policy_bot.Approval.Rule.split_edited policy_bot.Approval.Rule.filter_edited_candidates
    policy_bot.Approval.Rule.split_invalid policy_bot.Approval.Rule.invalid_split
    policy_bot.Approval.Rule.filter_invalid_candidates policy_bot.Approval.Rule.filtered_candidates
    policy_bot.Approval.Rule.preconditions policy_bot.Approval.Rule.base_report
    policy_bot.Approval.Rule.decided policy_bot.Approval.Rule.verdict_report
    policy_bot.Approval.Rule.approval_report policy_bot.Approval.Rule.rule_report
    policy_bot.Approval.Rule.evaluate policy_bot.Common.Result.status_eq policy_bot.Pull.users
    policy_bot.Prelude.contains_text policy_bot.Prelude.sort policy_bot.Prelude.first_chars
rule-approved = refl

evaluate-IsEarned_example :
    IsEarned insertion_orders one_approval pull_request
      (report (evaluate insertion_orders one_approval pull_request))
evaluate-IsEarned_example =
    evaluate-IsEarned insertion_orders one_approval pull_request rule-approved

abbrev bob : Candidate
bob = record { type = "comment"; review_id = ""; user = "bob"; created_at = 20; last_edited_at = 0 }

abbrev dave : Candidate
dave = record {
  type = "comment";
  review_id = "";
  user = "dave";
  created_at = 5;
  last_edited_at = 0;
}

abbrev split : Split
split = (bob ∷ [], record { candidate = dave; reason = "Invalidated by push of a2" } ∷ [])

candidates-split : filtered_candidates insertion_orders one_approval pull_request ≡ ok split
unfolding policy_bot.Common.Methods.get_comments policy_bot.Common.Methods.get_comment_patterns
    policy_bot.Common.Methods.is_github_review
    policy_bot.Common.Methods.get_github_review_comment_patterns
    policy_bot.Common.Methods.get_body_patterns policy_bot.Common.Methods.created_before
    policy_bot.Common.Methods.comment_matches policy_bot.Common.Methods.deduplicate_candidates
    policy_bot.Common.Methods.uses_comments policy_bot.Common.Methods.uses_body
    policy_bot.Common.Methods.uses_reviews policy_bot.Common.Methods.comment_candidates
    policy_bot.Common.Methods.body_candidates policy_bot.Common.Methods.review_candidates
    policy_bot.Common.Methods.candidates policy_bot.Common.Actors.is_zero
    policy_bot.Common.Actors.is_actor policy_bot.Predicate.predicates
    policy_bot.Approval.Options.is_allow_author policy_bot.Approval.Options.is_allow_contributor
    policy_bot.Approval.Options.is_allow_non_author_contributor
    policy_bot.Approval.Options.is_invalidate_on_push
    policy_bot.Approval.Options.is_ignore_edited_comments
    policy_bot.Approval.Options.is_ignore_update_merges
    policy_bot.Approval.Options.get_ignore_commits_by policy_bot.Approval.Options.get_methods
    policy_bot.Approval.Commits.commits_by_sha policy_bot.Approval.Commits.sort_commits
    policy_bot.Approval.Commits.filtered_commits policy_bot.Approval.Rule.trigger
    policy_bot.Approval.Rule.banned_users policy_bot.Approval.Rule.real_approvers
    policy_bot.Approval.Rule.is_approved_by_actors
    policy_bot.Approval.Rule.is_approved_by_conditions policy_bot.Approval.Rule.is_approved
    policy_bot.Approval.Rule.split_edited policy_bot.Approval.Rule.filter_edited_candidates
    policy_bot.Approval.Rule.split_invalid policy_bot.Approval.Rule.invalid_split
    policy_bot.Approval.Rule.filter_invalid_candidates policy_bot.Approval.Rule.filtered_candidates
    policy_bot.Approval.Rule.preconditions policy_bot.Approval.Rule.base_report
    policy_bot.Approval.Rule.decided policy_bot.Approval.Rule.verdict_report
    policy_bot.Approval.Rule.approval_report policy_bot.Approval.Rule.rule_report
    policy_bot.Approval.Rule.evaluate policy_bot.Common.Result.status_eq policy_bot.Pull.users
    policy_bot.Prelude.contains_text policy_bot.Prelude.sort policy_bot.Prelude.first_chars
candidates-split = refl

filtered_candidates-IsFiltered_example : IsFiltered one_approval pull_request insertion_orders split
filtered_candidates-IsFiltered_example =
    filtered_candidates-IsFiltered insertion_orders one_approval pull_request split (omega arith)
      candidates-split

ready : IsReady insertion_orders one_approval pull_request
unfolding policy_bot.Common.Methods.get_comments policy_bot.Common.Methods.get_comment_patterns
    policy_bot.Common.Methods.is_github_review
    policy_bot.Common.Methods.get_github_review_comment_patterns
    policy_bot.Common.Methods.get_body_patterns policy_bot.Common.Methods.created_before
    policy_bot.Common.Methods.comment_matches policy_bot.Common.Methods.deduplicate_candidates
    policy_bot.Common.Methods.uses_comments policy_bot.Common.Methods.uses_body
    policy_bot.Common.Methods.uses_reviews policy_bot.Common.Methods.comment_candidates
    policy_bot.Common.Methods.body_candidates policy_bot.Common.Methods.review_candidates
    policy_bot.Common.Methods.candidates policy_bot.Common.Actors.is_zero
    policy_bot.Common.Actors.is_actor policy_bot.Predicate.predicates
    policy_bot.Approval.Options.is_allow_author policy_bot.Approval.Options.is_allow_contributor
    policy_bot.Approval.Options.is_allow_non_author_contributor
    policy_bot.Approval.Options.is_invalidate_on_push
    policy_bot.Approval.Options.is_ignore_edited_comments
    policy_bot.Approval.Options.is_ignore_update_merges
    policy_bot.Approval.Options.get_ignore_commits_by policy_bot.Approval.Options.get_methods
    policy_bot.Approval.Commits.commits_by_sha policy_bot.Approval.Commits.sort_commits
    policy_bot.Approval.Commits.filtered_commits policy_bot.Approval.Rule.trigger
    policy_bot.Approval.Rule.banned_users policy_bot.Approval.Rule.real_approvers
    policy_bot.Approval.Rule.is_approved_by_actors
    policy_bot.Approval.Rule.is_approved_by_conditions policy_bot.Approval.Rule.is_approved
    policy_bot.Approval.Rule.split_edited policy_bot.Approval.Rule.filter_edited_candidates
    policy_bot.Approval.Rule.split_invalid policy_bot.Approval.Rule.invalid_split
    policy_bot.Approval.Rule.filter_invalid_candidates policy_bot.Approval.Rule.filtered_candidates
    policy_bot.Approval.Rule.preconditions policy_bot.Approval.Rule.base_report
    policy_bot.Approval.Rule.decided policy_bot.Approval.Rule.verdict_report
    policy_bot.Approval.Rule.approval_report policy_bot.Approval.Rule.rule_report
    policy_bot.Approval.Rule.evaluate policy_bot.Common.Result.status_eq policy_bot.Pull.users
    policy_bot.Prelude.contains_text policy_bot.Prelude.sort policy_bot.Prelude.first_chars
ready = record {
  predicates_hold = tt;
  conditions_hold = tt;
  split = split;
  filtered = candidates-split;
  banned = "alice" ∷ [];
  exclusions = refl;
  answers = ((true, refl), tt);
}

evaluate-IsReady_example :
    ((report (evaluate insertion_orders one_approval pull_request)).error ≡ none)
    × ((report (evaluate insertion_orders one_approval pull_request)).status ≡ (
        if leb one_approval.requires.count (
          length
            (keep (accepts one_approval.requires.actors pull_request ready.banned) ready.split.0))
        then approved
        else pending))
evaluate-IsReady_example = evaluate-IsReady insertion_orders one_approval pull_request ready
