-- ===== src/Evaluation/Requests.antt =====
-- server/handler/eval_context_reviewers.go: the reviews that an evaluation requests. The delay before a
-- request is left out. Parameters are the random numbers that a seed gives and GitHub's answers.
use policy_bot.Prelude.{
  ◌-◌, String, false, not, ◌||◌, Option, none, some, List, [], ◌∷◌, ◌++◌, map, ◌^◌, str_eq,
  if◌then◌else◌, is_empty, Error, wrapped, Attempt, ok, err, sort, str_lt,
}
use policy_bot.Pull.{Time, Review, Reviewer, reviewer_user, reviewer_team}
use policy_bot.Common.Trigger.{Trigger, trigger_comment, trigger_review, matches, ◌or◌}
use policy_bot.Common.Methods.{Orders}
use policy_bot.Common.Result.{Report, Result, pending, report, status_eq}
use policy_bot.Reviewer.{
  Selection, Draws, difference, is_empty_selection, find_requests, select_reviewers,
}
use policy_bot.Evaluation.{EvalContext}

pub record ReviewersRequest : Type 0 where
  pub reviewers : List String
  pub team_reviewers : List String

-- `slices.Compact`
unfoldable compact : List String → List String
compact [] = []
compact (x ∷ []) = x ∷ []
compact (x ∷ y ∷ xs) = let rest = compact (y ∷ xs) in if str_eq x y then rest else x ∷ rest

unfoldable pub selection_to_reviewers_request : Selection → ReviewersRequest
unfolding compact sort
selection_to_reviewers_request s = record {
  reviewers = compact (sort str_lt s.users);
  team_reviewers = compact (sort str_lt s.teams);
}

-- The user and the teams of a review of the head commit.
abbrev reviewer_named : String → String → Reviewer
reviewer_named type name = record { type = type; name = name; removed = false }

unfoldable head_reviewers : String → List Review → List Reviewer
head_reviewers head [] = []
head_reviewers head (r ∷ rs) =
    (if str_eq r.sha head
      then reviewer_named reviewer_user r.author ∷ map (reviewer_named reviewer_team) r.teams
      else [])
    ++ head_reviewers head rs

module _ (orders : Orders) (draws : Time → Draws) (answer : ReviewersRequest → Option Error)
    (ec : EvalContext) where
  abbrev with_answer : ReviewersRequest → Option Error → Option ReviewersRequest × Option Error
  with_answer req (some e) = (some req, some (wrapped "failed to request reviewers" e))
  with_answer req none = (some req, none)

  abbrev pub ask : Selection → Option ReviewersRequest × Option Error
  ask diff =
      if not (is_empty_selection diff)
      then with_answer (selection_to_reviewers_request diff)
          (answer (selection_to_reviewers_request diff))
      else (none, none)

  -- The request for the selection of before the delay, and the reviewers of after it.
  unfoldable request_selection :
      Attempt Selection
      → Attempt (List Reviewer)
      → Attempt (List Review)
      → Option ReviewersRequest × Option Error
  unfolding selection_to_reviewers_request head_reviewers
  request_selection (err e) reviewers reviews =
      (none, some (wrapped "failed to select reviewers" e))
  request_selection (ok selection) (err e) reviews =
      if is_empty_selection selection then (none, none) else (none, some e)
  request_selection (ok selection) (ok reviewers) (err e) =
      if is_empty_selection selection then (none, none) else (none, some e)
  request_selection (ok selection) (ok reviewers) (ok reviews) =
      if is_empty_selection selection
      then (none, none)
      else ask (difference selection (reviewers ++ head_reviewers ec.pull_context.head_sha reviews))

  unfoldable request_reviews : List Report → Option ReviewersRequest × Option Error
  unfolding request_selection
  request_reviews reqs =
      request_selection (select_reviewers orders ec.pull_context reqs (draws ec.created_at))
        ec.pull_context.requested_reviewers ec.pull_context.reviews

  -- All events but those of comments and reviews.
  abbrev review_trigger : Trigger
  review_trigger = 2 ^ 32 - 1 - (trigger_comment or trigger_review)

  unfoldable pub request_reviews_for_result :
      Trigger → Result → Option ReviewersRequest × Option Error
  unfolding request_reviews
  request_reviews_for_result event r =
      if ec.pull_context.is_draft || not (status_eq (report r).status pending)
      then (none, none)
      else if not (matches event review_trigger)
      then (none, none)
      else if is_empty (find_requests r)
      then (none, none)
      else request_reviews (find_requests r)
