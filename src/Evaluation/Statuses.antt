-- ===== src/Evaluation/Statuses.antt =====
-- `Evaluate`: the statuses that are sent, against the result of the policy.
use policy_bot.Prelude.{
  String, ◌≡◌, refl, ◌∙◌, ◌↔◌, inl, inr, Bool, true, false, Option, none, some, Bool-cases, any,
  Error, Attempt, ok, err, ◌<>◌,
}
use policy_bot.Common.Trigger.{Trigger, matches}
use policy_bot.Common.Methods.{Orders}
use policy_bot.Common.Result.{Result, EvaluationStatus, approved, report}
use policy_bot.Pull.{Time}
use policy_bot.Policy.{Config, Evaluator, parse_policy, trigger, evaluate}
use policy_bot.Reviewer.{Draws}
use policy_bot.Evaluation.{
  EvalContext, Posted, post_status, global_options, parsed_config, if_seen, load_failure,
  config_cases, parse_config, posted_status, evaluated, evaluate_policy,
}
use policy_bot.Evaluation.Requests.{ReviewersRequest}
use policy_bot.Evaluation.Events.{Outcome, run_post_evaluate_actions, after_parse, evaluate_event}
use policy_bot.Evaluation.Posting.{
  is_success, IsDelivered, post_status-success, other_status, evaluated-success,
}

module _ (orders : Orders) (ec : EvalContext) (event : Trigger) where
  -- The policy was loaded and parsed, the event is one of its trigger, it evaluates to approved without
  -- an error, and statuses are posted for an open pull request.
  pub record IsApproved : Type 0 where
    pub config : Config
    pub evaluator : Evaluator
    pub loaded : ec.config.config ≡ some config
    pub no_load_error : ec.config.load_error ≡ none
    pub no_parse_error : ec.config.parse_error ≡ none
    pub parsed : parse_policy orders.keys config (some (global_options ec)) ≡ ok evaluator
    pub relevant : matches event (trigger evaluator) ≡ true
    pub no_error : (report (evaluate orders evaluator ec.pull_context)).error ≡ none
    pub is_approved : (report (evaluate orders evaluator ec.pull_context)).status ≡ approved
    pub delivered : IsDelivered ec

  module _ (draws : Time → Draws) (answer : ReviewersRequest → Option Error)
      (dismiss : String → String → Option Error) where
    abbrev run : Attempt (Option Evaluator) × Posted → Outcome
    run = after_parse orders draws answer dismiss ec event

    posted_after :
        (x : Attempt Result × Posted)
        → (run_post_evaluate_actions orders draws answer dismiss ec event x).posted ≡ x.1
    unfolding run_post_evaluate_actions
    posted_after (err e, posted) = refl
    posted_after (ok r, posted) = refl

    parsed_success :
        (cfg : Config) (x : Attempt Evaluator)
        → ec.config.config ≡ some cfg
        → ec.config.load_error ≡ none
        → ec.config.parse_error ≡ none
        → parse_policy orders.keys cfg (some (global_options ec)) ≡ x
        → any is_success (run (parsed_config ec event x)).posted.sent ≡ true
        → IsApproved
    unfolding parsed_config after_parse
    parsed_success cfg (err e) a b c p sent = absurd (other_status ec "error" _ refl sent)
    parsed_success cfg (ok evaluator) a b c p sent =
        elim (Bool-cases (matches event (trigger evaluator))) [
          | inr irrelevant ↦ let sent' = rw irrelevant at sent in absurd cc
          | inl relevant ↦
              let sent' =
                rw (relevant, posted_after (evaluate_policy orders ec evaluator)) at sent in
              let r = evaluate orders evaluator ec.pull_context in
              let (n, s, d) =
                evaluated-success ec r (report r).error (unfold evaluate_policy in sent') in
              record {
                config = cfg;
                evaluator = evaluator;
                loaded = a;
                no_load_error = b;
                no_parse_error = c;
                parsed = p;
                relevant = relevant;
                no_error = n;
                is_approved = s;
                delivered = d;
              }
        ]

    load_failure-success : (e : Error) → any is_success (load_failure ec e).1.sent ≡ true → ⊥
    unfolding if_seen
    load_failure-success e sent = by_seen ec.config.seen_policy sent
      where
        by_seen :
            (seen : Bool)
            → any is_success
                (if_seen seen
                  (post_status ec "error" ("Error loading policy from " <> ec.config.source))).sent
              ≡ true
            → ⊥
        by_seen true sent = other_status ec "error" _ refl sent
        by_seen false sent = absurd cc

    cases_success :
        (l p : Option Error) (o : Option Config)
        → ec.config.load_error ≡ l
        → ec.config.parse_error ≡ p
        → ec.config.config ≡ o
        → any is_success (run (config_cases orders.keys ec event l p o)).posted.sent ≡ true
        → IsApproved
    unfolding config_cases after_parse
    cases_success (some e) p o a b c sent = absurd (load_failure-success e sent)
    cases_success none (some e) o a b c sent = absurd (other_status ec "error" _ refl sent)
    cases_success none none none a b c sent = absurd cc
    cases_success none none (some cfg) a b c sent =
        parsed_success cfg (parse_policy orders.keys cfg (some (global_options ec))) c a b refl sent

    evaluated_approved :
        (r : Result) (o : Option Error) (status : EvaluationStatus)
        → o ≡ none
        → (report r).status ≡ status
        → status ≡ approved
        → IsDelivered ec
        → any is_success (evaluated ec r o).1.sent ≡ true
    unfolding evaluated
    evaluated_approved r o status n same a d = rw n (by_status (report r).status (same ∙ a))
      where
        by_status :
            (x : EvaluationStatus)
            → x ≡ approved
            → any is_success (posted_status ec x (report r).status_description).sent ≡ true
        by_status x e = rw e (unfold posted_status in (post_status-success ec _).1 d)

    cases_approved :
        (l p : Option Error) (o : Option Config) (h : IsApproved)
        → l ≡ none
        → p ≡ none
        → o ≡ some h.config
        → any is_success (run (config_cases orders.keys ec event l p o)).posted.sent ≡ true
    unfolding config_cases parsed_config after_parse
    cases_approved l p o h a b c =
        let r = evaluate orders h.evaluator ec.pull_context in
        let posted = posted_after (evaluate_policy orders ec h.evaluator) in
        let sent =
          evaluated_approved r (report r).error (report r).status h.no_error refl h.is_approved
            h.delivered in
        rw (a, b, c, h.parsed, h.relevant, posted) (unfold evaluate_policy in sent)

    -- An evaluation sends a status `success` if and only if the policy was loaded and parsed, the event
    -- is one of its trigger, it evaluates to approved without an error, the pull request is open and
    -- statuses are posted at all.
    pub evaluate_event-iff_IsApproved :
        (any is_success (evaluate_event orders draws answer dismiss ec event).posted.sent ≡ true)
        ↔ IsApproved
    unfolding evaluate_event parse_config
    evaluate_event-iff_IsApproved = (
      cases_success ec.config.load_error ec.config.parse_error ec.config.config refl refl refl,
      λ h.
          cases_approved ec.config.load_error ec.config.parse_error ec.config.config h
            h.no_load_error h.no_parse_error h.loaded,
    )
