-- ===== src/Evaluation/Errors.antt =====
-- `Evaluate`: what is left behind when it returns an error.
use policy_bot.Prelude.{
  String, ◌≡◌, refl, inl, inr, Bool, true, false, Option, none, some, [], Bool-cases, All, Error,
  Attempt, ok, err, ◌<>◌,
}
use policy_bot.Common.Trigger.{Trigger, matches}
use policy_bot.Common.Methods.{Orders}
use policy_bot.Common.Result.{Result, report}
use policy_bot.Pull.{Time}
use policy_bot.Policy.{Config, Evaluator, parse_policy, trigger, evaluate}
use policy_bot.Reviewer.{Draws}
use policy_bot.Evaluation.{
  EvalContext, Posted, nothing_posted, post_status, global_options, parsed_config, if_seen,
  config_cases, parse_config, evaluated, evaluate_policy,
}
use policy_bot.Evaluation.Requests.{ReviewersRequest}
use policy_bot.Evaluation.Events.{Outcome, run_post_evaluate_actions, after_parse, evaluate_event}
use policy_bot.Evaluation.Posting.{post_status-state}

-- No reviewer is asked, no review is dismissed, and what is sent says `error`.
pub record IsFailure (o : Outcome) : Type 0 where
  pub requested : o.requested ≡ none
  pub dismissed : o.dismissed ≡ []
  pub sent : All (λ s. s.state ≡ "error") o.posted.sent

module _ (orders : Orders) (draws : Time → Draws) (answer : ReviewersRequest → Option Error)
    (dismiss : String → String → Option Error) (ec : EvalContext) (event : Trigger) where
  abbrev run : Attempt (Option Evaluator) × Posted → Outcome
  run = after_parse orders draws answer dismiss ec event

  evaluated-IsFailure :
      (r : Result) (o : Option Error) (e : Error)
      → (run_post_evaluate_actions orders draws answer dismiss ec event (evaluated ec r o)).error
        ≡ some e
      → IsFailure
          (run_post_evaluate_actions orders draws answer dismiss ec event (evaluated ec r o))
  unfolding evaluated run_post_evaluate_actions
  evaluated-IsFailure r (some x) e failed = record {
    requested = refl;
    dismissed = refl;
    sent = post_status-state ec "error" _;
  }
  evaluated-IsFailure r none e failed = absurd cc

  parsed-IsFailure :
      (x : Attempt Evaluator) (e : Error)
      → (run (parsed_config ec event x)).error ≡ some e
      → IsFailure (run (parsed_config ec event x))
  unfolding parsed_config after_parse
  parsed-IsFailure (err x) e failed = record {
    requested = refl;
    dismissed = refl;
    sent = post_status-state ec "error" _;
  }
  parsed-IsFailure (ok evaluator) e failed = elim (Bool-cases (matches event (trigger evaluator))) [
    | inr irrelevant ↦ let failed' = rw irrelevant at failed in absurd cc
    | inl relevant ↦
        let r = evaluate orders evaluator ec.pull_context in
        rw relevant (
          unfold evaluate_policy in
          evaluated-IsFailure r (report r).error e
            (unfold evaluate_policy in rw relevant at failed))
  ]

  cases-IsFailure :
      (l p : Option Error) (o : Option Config) (e : Error)
      → (run (config_cases orders.keys ec event l p o)).error ≡ some e
      → IsFailure (run (config_cases orders.keys ec event l p o))
  unfolding config_cases after_parse
  cases-IsFailure (some x) p o e failed = record {
    requested = refl;
    dismissed = refl;
    sent = by_seen ec.config.seen_policy;
  }
    where
      by_seen :
          (seen : Bool)
          → All
              (λ s. s.state ≡ "error")
              (if_seen seen
                (post_status ec "error" ("Error loading policy from " <> ec.config.source))).sent
      by_seen true = unfold if_seen in post_status-state ec "error" _
      by_seen false = unfold if_seen in tt
  cases-IsFailure none (some x) o e failed = record {
    requested = refl;
    dismissed = refl;
    sent = post_status-state ec "error" _;
  }
  cases-IsFailure none none none e failed = absurd cc
  cases-IsFailure none none (some cfg) e failed =
      parsed-IsFailure (parse_policy orders.keys cfg (some (global_options ec))) e failed

  unseen-nothing :
      (seen : Bool) (posted : Posted) → seen ≡ false → if_seen seen posted ≡ nothing_posted
  unfolding if_seen
  unseen-nothing true posted h = absurd cc
  unseen-nothing false posted h = refl

  unseen-failure :
      (l p : Option Error) (o : Option Config) (e : Error)
      → l ≡ some e
      → ec.config.seen_policy ≡ false
      → ((x : Error) × ((run (config_cases orders.keys ec event l p o)).error ≡ some x))
        × ((run (config_cases orders.keys ec event l p o)).posted.sent ≡ [])
  unfolding config_cases after_parse
  unseen-failure l p o e same unseen =
      rw
        (
          same,
          unseen-nothing ec.config.seen_policy
              (post_status ec "error" ("Error loading policy from " <> ec.config.source)) unseen,
        )
        ((_, refl), refl)

  -- If an evaluation returns an error, then it asks nobody for a review, dismisses none, and sends no
  -- status but `error`.
  pub evaluate_event-IsFailure :
      (e : Error)
      → (evaluate_event orders draws answer dismiss ec event).error ≡ some e
      → IsFailure (evaluate_event orders draws answer dismiss ec event)
  unfolding evaluate_event parse_config
  evaluate_event-IsFailure =
      cases-IsFailure ec.config.load_error ec.config.parse_error ec.config.config

  -- If the policy could not be loaded and was never seen on its branch, then the evaluation returns an
  -- error and sends nothing.
  evaluate_event-unseen :
      (e : Error)
      → ec.config.load_error ≡ some e
      → ec.config.seen_policy ≡ false
      → ((x : Error) × ((evaluate_event orders draws answer dismiss ec event).error ≡ some x))
        × ((evaluate_event orders draws answer dismiss ec event).posted.sent ≡ [])
  unfolding evaluate_event parse_config
  evaluate_event-unseen = unseen-failure ec.config.load_error ec.config.parse_error ec.config.config
