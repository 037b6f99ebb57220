-- ===== src/Policy/Stability.antt =====
-- When an event arrives, a policy whose trigger does not match it need not be evaluated.
use policy_bot.Prelude.{◌≡◌, refl, ap, Bool, true, ◌||◌, none, some, arith}
use policy_bot.Pull.{Context}
use policy_bot.Common.Trigger.{Trigger, trigger_static, matches, ◌or◌}
use policy_bot.Common.Trigger.Flags.{matches-or}
use policy_bot.Common.Trigger.Inclusion.{Includes}
use policy_bot.Common.Methods.{Orders}
use policy_bot.Predicate.Stability.{Agree, Agree-part}
use policy_bot.Approval.Rule.Stability.{rule-stable}
use policy_bot.Approval.Requirements.{
  Requirement, Requirements, rule_requirement, or_requirement, and_requirement, no_requirements,
  and_also, or_result, and_result_of, evaluate as evaluate_requirement, evaluate_each,
  trigger as requirement_trigger, trigger_each, Approval, policy_trigger, named, evaluate_policy,
}
use policy_bot.Disapproval.{trigger as disapproval_trigger}
use policy_bot.Disapproval.Coverage.{IgnoresBody, disapproval-stable}
use policy_bot.Policy.{Evaluator, trigger, evaluate}

Includes-left : (t u : Trigger) → Includes (t or u) t
Includes-left t u f m = rw (matches-or t u f) (left (matches t f) (matches u f) m)
  where
    left : (a b : Bool) → a ≡ true → (a || b) ≡ true
    left a b h = ground arith

Includes-right : (t u : Trigger) → Includes (t or u) u
Includes-right t u f m = rw (matches-or t u f) (right (matches t f) (matches u f) m)
  where
    right : (a b : Bool) → b ≡ true → (a || b) ≡ true
    right a b h = ground arith

-- The loop keeps the flags that it starts with.
Includes-start : (rs : Requirements) (t : Trigger) → Includes (trigger_each t rs) t
unfolding trigger_each
Includes-start no_requirements t f m = m
Includes-start (and_also r rs) t f m =
    Includes-start rs (t or requirement_trigger r) f (Includes-left t (requirement_trigger r) f m)

module _ (orders : Orders) (c d : Context) where
  mutual
    unfolding evaluate_requirement requirement_trigger

    requirement_same :
        (req : Requirement)
        → Agree (requirement_trigger req) c d
        → evaluate_requirement orders req c ≡ evaluate_requirement orders req d
    requirement_same (rule_requirement r) h = rule-stable r orders c d h
    requirement_same (or_requirement rs) h = ap or_result (each_same rs trigger_static h)
    requirement_same (and_requirement rs) h = ap and_result_of (each_same rs trigger_static h)

    each_same :
        (rs : Requirements) (t : Trigger)
        → Agree (trigger_each t rs) c d
        → evaluate_each orders rs c ≡ evaluate_each orders rs d
    each_same no_requirements t h = refl
    each_same (and_also r rs) t h =
        rw
          (
            requirement_same r (
                Agree-part
                  (λ f m.
                    Includes-start rs (t or requirement_trigger r) f
                      (Includes-right t (requirement_trigger r) f m))
                  h),
            each_same rs (t or requirement_trigger r) h,
          )
          refl

  approval_same :
      (a : Approval)
      → Agree (policy_trigger a) c d
      → evaluate_policy orders a c ≡ evaluate_policy orders a d
  unfolding evaluate_policy policy_trigger
  approval_same none h = refl
  approval_same (some root) h = ap (named "approval") (requirement_same root h)

  -- Between two contexts that agree on what no event changes and on what the events of the policy's
  -- trigger change, the whole policy evaluates to the same result, if its disapproval policy searches
  -- no pattern in the body.
  pub evaluate-stable :
      (e : Evaluator)
      → IgnoresBody e.disapproval
      → Agree (trigger e) c d
      → evaluate orders e c ≡ evaluate orders e d
  unfolding evaluate trigger
  evaluate-stable e bodiless h =
      rw
        (
          approval_same e.approval (
              Agree-part
                (Includes-left (policy_trigger e.approval) (disapproval_trigger e.disapproval)) h),
          disapproval-stable e.disapproval orders c d bodiless (
              Agree-part
                (Includes-right (policy_trigger e.approval) (disapproval_trigger e.disapproval)) h),
        )
        refl
