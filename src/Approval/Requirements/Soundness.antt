-- ===== src/Approval/Requirements/Soundness.antt =====
-- An approval policy that evaluates to approved is satisfied by its rules.
use policy_bot.Prelude.{
  String, ◌≡◌, refl, sym, ◌∙◌, ◌⊎◌, inl, inr, Bool, true, false, ◌&&◌, ◌||◌, Option, none, some,
  List, ◌∷◌, arith, if◌then◌else◌, any, Error, Attempt, ok, err, MapOrder,
}
use policy_bot.Pull.{Context}
use policy_bot.Common.Methods.{Orders}
use policy_bot.Common.Result.{
  Report, Result, result, report, EvaluationStatus, skipped, pending, approved, disapproved,
  status_eq, RequiresResult,
}
use policy_bot.Predicate.{predicates}
use policy_bot.Approval.Rule.{
  Rule, Preconditions, failed, unsatisfied, satisfied, preconditions, filtered_candidates,
  is_approved, Split, base_report, decided, verdict_report, approval_report, rule_report,
  evaluate as evaluate_rule,
}
use policy_bot.Approval.Rule.Soundness.{IsEarned, evaluate-IsEarned}
use policy_bot.Approval.Requirements.{
  Requirement, Requirements, rule_requirement, or_requirement, and_requirement, no_requirements,
  and_also, evaluate, evaluate_each, Approval, evaluate_policy, named,
}
use policy_bot.Approval.Requirements.Combination.{
  reports, is_none, comes_to, last_error, or_result-lem, and_result_of-lem,
}

comes_to-split :
    (s : EvaluationStatus) (r : Report)
    → comes_to s r ≡ true
    → (r.error ≡ none) × (status_eq r.status s ≡ true)
comes_to-split s r h = by_error r.error refl h
  where
    by_error :
        (o : Option Error)
        → r.error ≡ o
        → (is_none o && status_eq r.status s) ≡ true
        → (r.error ≡ none) × (status_eq r.status s ≡ true)
    by_error none e h = (e, h)
    by_error (some x) e h = cc

status_eq-approved : (s : EvaluationStatus) → status_eq s approved ≡ true → s ≡ approved
unfolding status_eq
status_eq-approved approved h = refl
status_eq-approved skipped h = cc
status_eq-approved pending h = cc
status_eq-approved disapproved h = cc

last_error-split :
    (r : Report) (rs : List Report)
    → last_error (r ∷ rs) ≡ none
    → (r.error ≡ none) × (last_error rs ≡ none)
last_error-split r rs h = by_last (last_error rs) refl h
  where
    by_last :
        (o : Option Error)
        → last_error rs ≡ o
        → (elim o [ some e ↦ some e | none ↦ r.error ]) ≡ none
        → (r.error ≡ none) × (last_error rs ≡ none)
    by_last none e h = (h, e)
    by_last (some x) e h = cc

-- A status that no rule and no requirement gives.
abbrev pub IsPositive : EvaluationStatus → Type 0
IsPositive s = status_eq s disapproved ≡ false

verdict-IsPositive :
    (r : Rule) (rep : Report) (split : Split) (v : Attempt (Bool × RequiresResult))
    → IsPositive rep.status
    → IsPositive (verdict_report r rep split v).status
unfolding verdict_report decided status_eq
verdict-IsPositive r rep split (err e) h = h
verdict-IsPositive r rep split (ok (true, req)) h = refl
verdict-IsPositive r rep split (ok (false, req)) h = refl

split-IsPositive :
    (order : MapOrder String) (r : Rule) (ctx : Context) (rep : Report) (s : Attempt Split)
    → IsPositive rep.status
    → IsPositive (approval_report order r ctx rep s).status
unfolding approval_report
split-IsPositive order r ctx rep (err e) h = h
split-IsPositive order r ctx rep (ok s) h =
    verdict-IsPositive r rep s (is_approved order r ctx s.0) h

rule-IsPositive :
    (orders : Orders) (r : Rule) (ctx : Context) (p : Preconditions)
    → IsPositive (rule_report orders r ctx p).status
unfolding rule_report base_report status_eq
rule-IsPositive orders r ctx (failed e) = refl
rule-IsPositive orders r ctx (unsatisfied u) = refl
rule-IsPositive orders r ctx (satisfied results) =
    split-IsPositive orders.keys r ctx (record (base_report r) { predicate_results = results })
      (filtered_candidates orders r ctx) refl

or_rule : (a w : Bool) → IsPositive (if a then approved else if w then pending else skipped)
unfolding status_eq
or_rule true w = refl
or_rule false true = refl
or_rule false false = refl

-- No requirement evaluates to disapproved.
pub evaluate-IsPositive :
    (orders : Orders) (req : Requirement) (ctx : Context)
    → IsPositive (report (evaluate orders req ctx)).status
unfolding evaluate evaluate_rule status_eq
evaluate-IsPositive orders (rule_requirement r) ctx =
    rule-IsPositive orders r ctx (preconditions orders.keys ctx (predicates r.predicates))
evaluate-IsPositive orders (or_requirement rs) ctx =
    rw (or_result-lem (evaluate_each orders rs ctx)).0 (or_rule _ _)
evaluate-IsPositive orders (and_requirement rs) ctx =
    rw (and_result_of-lem (evaluate_each orders rs ctx)).0 (and_rule _ _)
  where
    and_rule : (a w : Bool) → IsPositive (if w then pending else if a then approved else skipped)
    and_rule true true = refl
    and_rule false true = refl
    and_rule true false = refl
    and_rule false false = refl

or_approved :
    (a w : Bool) → (if a then approved else if w then pending else skipped) ≡ approved → a ≡ true
or_approved true w h = refl
or_approved false true h = cc
or_approved false false h = cc

and_approved :
    (a w : Bool)
    → (if w then pending else if a then approved else skipped) ≡ approved
    → (a ≡ true) × (w ≡ false)
and_approved true false h = (refl, refl)
and_approved a true h = cc
and_approved false false h = cc

or_true : (a b : Bool) → (a || b) ≡ true → (a ≡ true) ⊎ (b ≡ true)
or_true true b h = inl refl
or_true false b h = inr h

or_false : (a b : Bool) → (a || b) ≡ false → (a ≡ false) × (b ≡ false)
or_false a b h = ground arith

-- What it takes to satisfy a requirement: a rule has what it requires; one child of an `or` is
-- satisfied; one child of an `and` is satisfied, and each child is or is skipped without an error.
module _ (orders : Orders) (ctx : Context) where
  abbrev pub IsSkipped : Requirement → Type 0
  IsSkipped req =
      let rep = report (evaluate orders req ctx) in (rep.status ≡ skipped) × (rep.error ≡ none)

  abbrev mutual
    pub IsSatisfied : Requirement → Type 0
    IsSatisfied (rule_requirement r) = IsEarned orders r ctx (report (evaluate_rule orders r ctx))
    IsSatisfied (or_requirement rs) = IsAnySatisfied rs
    IsSatisfied (and_requirement rs) = IsAnySatisfied rs × IsEachSatisfied rs

    pub IsAnySatisfied : Requirements → Type 0
    IsAnySatisfied no_requirements = ⊥
    IsAnySatisfied (and_also r rs) = IsSatisfied r ⊎ IsAnySatisfied rs

    pub IsEachSatisfied : Requirements → Type 0
    IsEachSatisfied no_requirements = Unit
    IsEachSatisfied (and_also r rs) = (IsSatisfied r ⊎ IsSkipped r) × IsEachSatisfied rs

  abbrev child_reports : Requirements → List Report
  child_reports rs = reports (evaluate_each orders rs ctx)

  -- A child of an approved `and` is satisfied or skipped.
  settled :
      (req : Requirement)
      → (report (evaluate orders req ctx)).error ≡ none
      → comes_to pending (report (evaluate orders req ctx)) ≡ false
      → ((report (evaluate orders req ctx)).status ≡ approved → IsSatisfied req)
      → IsSatisfied req ⊎ IsSkipped req
  unfolding status_eq
  settled req e p sound = by_status (report (evaluate orders req ctx)).status refl (rw e at p)
    where
      by_status :
          (s : EvaluationStatus)
          → (report (evaluate orders req ctx)).status ≡ s
          → status_eq (report (evaluate orders req ctx)).status pending ≡ false
          → IsSatisfied req ⊎ IsSkipped req
      by_status approved same np = inl (sound same)
      by_status skipped same np = inr (same, e)
      by_status pending same np = cc (rw same at np)
      by_status disapproved same np =
          let never = evaluate-IsPositive orders req ctx in cc (rw same at never)

  mutual
    unfolding evaluate

    sound :
        (req : Requirement)
        → (report (evaluate orders req ctx)).error ≡ none
        → (report (evaluate orders req ctx)).status ≡ approved
        → IsSatisfied req
    sound (rule_requirement r) e h = evaluate-IsEarned orders r ctx h
    sound (or_requirement rs) e h =
        sound_any rs (or_approved _ _ (sym (or_result-lem (evaluate_each orders rs ctx)).0 ∙ h))
    sound (and_requirement rs) e h =
        let (status_of, error_of) = and_result_of-lem (evaluate_each orders rs ctx) in
        let (some_approved, none_pending) = and_approved _ _ (sym status_of ∙ h) in
        (sound_any rs some_approved, sound_each rs none_pending (sym error_of ∙ e))

    sound_any :
        (rs : Requirements) → any (comes_to approved) (child_reports rs) ≡ true → IsAnySatisfied rs
    sound_any no_requirements h = cc
    sound_any (and_also r rs) h = elim (or_true _ _ h) [
      | inl first ↦
          let (e, same) = comes_to-split approved (report (evaluate orders r ctx)) first in
          inl (sound r e (status_eq-approved _ same))
      | inr later ↦ inr (sound_any rs later)
    ]

    sound_each :
        (rs : Requirements)
        → any (comes_to pending) (child_reports rs) ≡ false
        → last_error (child_reports rs) ≡ none
        → IsEachSatisfied rs
    sound_each no_requirements p e = tt
    sound_each (and_also r rs) p e =
        let (first, rest) =
          last_error-split (report (evaluate orders r ctx)) (child_reports rs) e in
        let (not_pending, none_pending) = or_false _ _ p in
        (settled r first not_pending (λ h. sound r first h), sound_each rs none_pending rest)

  -- If an approval policy evaluates to approved without an error, then it is empty, or its root is
  -- satisfied: for a rule, its report is earned; for an `or`, some child is satisfied; for an `and`,
  -- some child is satisfied and each child is satisfied or is skipped without an error.
  pub evaluate_policy-IsSatisfied :
      (policy : Approval)
      → (report (evaluate_policy orders policy ctx)).error ≡ none
      → (report (evaluate_policy orders policy ctx)).status ≡ approved
      → (policy ≡ none) ⊎ ((root : Requirement) × (policy ≡ some root) × IsSatisfied root)
  unfolding evaluate_policy
  evaluate_policy-IsSatisfied none e h = inl refl
  evaluate_policy-IsSatisfied (some root) e h = inr (
    root,
    refl,
    sound root (same_error (evaluate orders root ctx) e) (same_status (evaluate orders root ctx) h),
  )
    where
      same_error :
          (x : Result) → (report (named "approval" x)).error ≡ none → (report x).error ≡ none
      same_error (result rep rs) e = e

      same_status :
          (x : Result)
          → (report (named "approval" x)).status ≡ approved
          → (report x).status ≡ approved
      same_status (result rep rs) e = e
