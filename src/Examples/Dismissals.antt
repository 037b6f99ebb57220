-- ===== src/Examples/Dismissals.antt =====
-- Dismissals of a stale review.
use policy_bot.Prelude.{String, ◌≡◌, refl, false, Option, none, [], ◌∷◌, Error}
use policy_bot.Common.Methods.{Candidate, review_candidate}
use policy_bot.Common.Result.{Report, no_report, Result, result, no_results, and_result, leaf}
use policy_bot.Handler.{dismiss_stale_reviews_for_result}
use policy_bot.Handler.Once.{IsCarriedOut, dismiss_stale_reviews-IsCarriedOut}

abbrev stale : Candidate
stale = record {
  type = review_candidate;
  review_id = "r7";
  user = "dave";
  created_at = 5;
  last_edited_at = 0;
}

abbrev stale_rule : Report
stale_rule = record no_report {
  dismissals = record { candidate = stale; reason = "Invalidated by push of a2" } ∷ [];
}

-- Two rules dismiss the same review.
abbrev two_rules : Result
two_rules =
    result no_report (and_result (leaf stale_rule) (and_result (leaf stale_rule) no_results))

abbrev accepts_all : String → String → Option Error
accepts_all id reason = none

sent_once :
    (dismiss_stale_reviews_for_result accepts_all false two_rules).sent
    ≡ ("r7", "Invalidated by push of a2") ∷ []
unfolding dismiss_stale_reviews_for_result
sent_once = refl

dismiss_stale_reviews-IsCarriedOut_example :
    IsCarriedOut false two_rules (dismiss_stale_reviews_for_result accepts_all false two_rules)
dismiss_stale_reviews-IsCarriedOut_example =
    dismiss_stale_reviews-IsCarriedOut accepts_all false two_rules
