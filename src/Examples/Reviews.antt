-- ===== src/Examples/Reviews.antt =====
-- Requests for reviews.
use policy_bot.Prelude.{In, ◌↔◌, pos}
use policy_bot.Prelude.{String, ◌≡◌, refl, some, [], ◌∷◌, arith, ok}
use policy_bot.Pull.{Collaborator, Context}
use policy_bot.Common.Result.{
  Report, no_report, no_requires_result, leaf, ReviewRequestRule, pending,
  request_mode_random_users,
}
use policy_bot.Reviewer.{find_requests, randomly_order_users, select_users}
use policy_bot.Reviewer.Requests.{WantsReview, find_requests-iff_WantsReview}
use policy_bot.Reviewer.Order.{IsOrder, randomly_order_users-IsOrder}
use policy_bot.Reviewer.Eligibility.{IsSelected, select_users-IsSelected}
use policy_bot.Examples.{pull_request}

abbrev one_of_two : ReviewRequestRule
one_of_two = record {
  users = "bob" ∷ "dave" ∷ "alice" ∷ [];
  teams = [];
  organizations = [];
  permissions = [];
  requested_count = pos 1;
  mode = request_mode_random_users;
}

abbrev waiting : Report
waiting = record no_report {
  status = pending;
  requires = record no_requires_result { count = 1 };
  review_request_rule = some one_of_two;
}

find_requests-iff_WantsReview_example :
    In waiting (find_requests (leaf waiting)) ↔ WantsReview waiting (leaf waiting)
find_requests-iff_WantsReview_example = find_requests-iff_WantsReview (leaf waiting) waiting

ordered :
    randomly_order_users ("bob" ∷ "dave" ∷ []) (3 ∷ 1 ∷ 0 ∷ 7 ∷ [])
    ≡ ok ("dave" ∷ "bob" ∷ [], 7 ∷ [])
unfolding randomly_order_users
ordered = refl

randomly_order_users-IsOrder_example : IsOrder ("bob" ∷ "dave" ∷ []) [] 2 ("dave" ∷ "bob" ∷ [])
randomly_order_users-IsOrder_example =
    randomly_order_users-IsOrder ("bob" ∷ "dave" ∷ []) (3 ∷ 1 ∷ 0 ∷ 7 ∷ []) ("dave" ∷ "bob" ∷ [])
      (7 ∷ []) (omega arith) ordered

abbrev collaborator : String → Collaborator
collaborator name = record { name = name; permissions = [] }

abbrev shared_request : Context
shared_request = record pull_request {
  repository_collaborators =
      λ p. ok (collaborator "dave" ∷ collaborator "alice" ∷ collaborator "bob" ∷ []);
}

chosen : select_users waiting one_of_two shared_request (0 ∷ 1 ∷ []) ≡ ok ("bob" ∷ [], [])
unfolding select_users policy_bot.Reviewer.min_permission policy_bot.Reviewer.all_users
    policy_bot.Reviewer.get_possible_reviewers policy_bot.Reviewer.choose_users
    policy_bot.Reviewer.request_count policy_bot.Common.Result.remaining_approvals
chosen = refl

select_users-IsSelected_example : IsSelected waiting one_of_two shared_request ("bob" ∷ [])
select_users-IsSelected_example =
    select_users-IsSelected waiting one_of_two shared_request (0 ∷ 1 ∷ []) ("bob" ∷ []) [] chosen
