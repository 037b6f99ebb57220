-- ===== src/Evaluation/Events.antt =====
-- One evaluation as a whole: `Evaluate` and `RunPostEvaluateActions`.
use policy_bot.Prelude.{String, Option, none, some, List, [], Error, Attempt, ok, err}
use policy_bot.Pull.{Time}
use policy_bot.Common.Trigger.{Trigger}
use policy_bot.Common.Methods.{Orders}
use policy_bot.Common.Result.{Result}
use policy_bot.Policy.{Evaluator}
use policy_bot.Reviewer.{Draws}
use policy_bot.Handler.{dismiss_stale_reviews_for_result}
use policy_bot.Evaluation.{EvalContext, Posted, evaluate_policy, parse_config}
use policy_bot.Evaluation.Requests.{ReviewersRequest, request_reviews_for_result}

-- Everything that one evaluation sends, and the error that it returns.
pub record Outcome : Type 0 where
  pub error : Option Error
  pub posted : Posted
  pub requested : Option ReviewersRequest
  pub dismissed : List (String × String)

module _ (orders : Orders) (draws : Time → Draws) (answer : ReviewersRequest → Option Error)
    (dismiss : String → String → Option Error) (ec : EvalContext) (event : Trigger) where
  -- The actions after the evaluation, whose errors are only logged.
  unfoldable pub run_post_evaluate_actions : Attempt Result × Posted → Outcome
  run_post_evaluate_actions (err e, posted) = record {
    error = some e;
    posted = posted;
    requested = none;
    dismissed = [];
  }
  run_post_evaluate_actions (ok r, posted) = record {
    error = none;
    posted = posted;
    requested = (request_reviews_for_result orders draws answer ec event r).0;
    dismissed =
        (dismiss_stale_reviews_for_result dismiss ec.options.strict_review_dismissal r).sent;
  }

  unfoldable pub after_parse : Attempt (Option Evaluator) × Posted → Outcome
  unfolding run_post_evaluate_actions
  after_parse (err e, posted) = record {
    error = some e;
    posted = posted;
    requested = none;
    dismissed = [];
  }
  after_parse (ok none, posted) = record {
    error = none;
    posted = posted;
    requested = none;
    dismissed = [];
  }
  after_parse (ok (some evaluator), posted) =
      run_post_evaluate_actions (evaluate_policy orders ec evaluator)

  unfoldable pub evaluate_event : Outcome
  unfolding after_parse
  evaluate_event = after_parse (parse_config orders.keys ec event)
