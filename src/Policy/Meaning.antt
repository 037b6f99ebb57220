-- ===== src/Policy/Meaning.antt =====
-- What an approved and a disapproved policy mean.
use policy_bot.Prelude.{
  ◌≡◌, refl, sym, ◌∙◌, ◌≢◌, ◌↔◌, ◌⊎◌, inl, inr, true, false, Option, none, some, Bool-cases, Error,
}
use mathlib.Core.Path.{subst}
use policy_bot.Pull.{Context}
use policy_bot.Common.Methods.{Orders}
use policy_bot.Common.Result.{
  Report, Result, result, report, EvaluationStatus, skipped, pending, approved, disapproved,
  status_eq,
}
use policy_bot.Approval.Requirements.{
  Requirement, Approval, evaluate_policy, evaluate as evaluate_requirement, named,
}
use policy_bot.Approval.Requirements.Soundness.{
  IsPositive, evaluate-IsPositive, IsSatisfied, evaluate_policy-IsSatisfied,
}
use policy_bot.Disapproval.{evaluate as evaluate_disapproval}
use policy_bot.Disapproval.Verdict.{
  Judgement, by_predicate, empty, nobody, standing, renewed, revoked, evaluate-Judgement,
}
use policy_bot.Policy.{Evaluator, last_of, policy_report, combine, evaluate}

last_of-none : (a d : Option Error) → last_of a d ≡ none → (a ≡ none) × (d ≡ none)
last_of-none none none h = (refl, refl)
last_of-none (some e) none h = cc
last_of-none a (some e) h = cc

-- Which of the two results decides.
module _ (a d : Report) where
  abbrev Decides : EvaluationStatus → Type 0
  Decides s =
      (a.error ≡ none)
      × (d.error ≡ none)
      × (((d.status ≡ disapproved) × (s ≡ disapproved))
          ⊎ ((d.status ≢ disapproved) × (s ≡ a.status)))

  is_disapproved-eq : (s : EvaluationStatus) → status_eq s disapproved ≡ true → s ≡ disapproved
  unfolding status_eq
  is_disapproved-eq disapproved h = refl
  is_disapproved-eq skipped h = cc
  is_disapproved-eq pending h = cc
  is_disapproved-eq approved h = cc

  not_disapproved : (s : EvaluationStatus) → status_eq s disapproved ≡ false → s ≢ disapproved
  unfolding status_eq
  not_disapproved s h e = cc (rw e at h)

  policy_report-Decides :
      (o : Option Error)
      → last_of a.error d.error ≡ o
      → (policy_report a d o).status ≢ skipped
      → Decides (policy_report a d o).status
  unfolding policy_report
  policy_report-Decides (some e) same h = absurd (h refl)
  policy_report-Decides none same h =
      let (ae, de) = last_of-none a.error d.error same in
      elim (Bool-cases (status_eq d.status disapproved)) [
        | inl e ↦ rw e (ae, de, inl (is_disapproved-eq d.status e, refl))
        | inr e ↦ rw e (ae, de, inr (not_disapproved d.status e, refl))
      ]

module _ (orders : Orders) (e : Evaluator) (ctx : Context) where
  abbrev approval_result : Report
  approval_result = report (evaluate_policy orders e.approval ctx)

  abbrev disapproval_result : Report
  disapproval_result = report (evaluate_disapproval orders e.disapproval ctx)

  decides :
      (report (evaluate orders e ctx)).status ≢ skipped
      → Decides approval_result disapproval_result (report (evaluate orders e ctx)).status
  unfolding evaluate combine
  decides h =
      policy_report-Decides approval_result disapproval_result
        (last_of approval_result.error disapproval_result.error) refl h

  Judgement-status :
      {s : EvaluationStatus}
      → Judgement orders e.disapproval ctx s
      → (s ≡ skipped) ⊎ (s ≡ disapproved)
  Judgement-status (by_predicate p) = inr refl
  Judgement-status (empty none_hold z) = inl refl
  Judgement-status (nobody none_hold found ds h) = inl refl
  Judgement-status (standing none_hold found revokers ds d last rs h) = inr refl
  Judgement-status (renewed none_hold found revokers ds d r last rs h before) = inr refl
  Judgement-status (revoked none_hold found revokers ds d r last rs h after) = inl refl

  not_disapproved-Judgement :
      (s : EvaluationStatus)
      → s ≢ disapproved
      → Judgement orders e.disapproval ctx s
      → Judgement orders e.disapproval ctx skipped
  not_disapproved-Judgement s h j = elim (Judgement-status j) [
    | inl same ↦ subst (Judgement orders e.disapproval ctx) same j
    | inr same ↦ absurd (h same)
  ]

  different : {s : EvaluationStatus} → status_eq s skipped ≡ false → s ≢ skipped
  unfolding status_eq
  different h same = cc (rw same at h)

  -- If the policy evaluates to approved, then its approval policy is empty or its root requirement is
  -- satisfied by rules that have what they require, and its disapproval policy is skipped: nobody is
  -- required, no actor disapproved, or the last revocation is not before the last disapproval.
  pub evaluate-approved :
      (report (evaluate orders e ctx)).status ≡ approved
      → ((e.approval ≡ none)
          ⊎ ((root : Requirement) × (e.approval ≡ some root) × IsSatisfied orders ctx root))
        × Judgement orders e.disapproval ctx skipped
  unfolding status_eq
  evaluate-approved h =
      let (ae, de, decided) = decides (rw h (different refl)) in
      let judged = evaluate-Judgement orders e.disapproval ctx de in
      elim decided [
        | inl (gone, same) ↦ cc (h, same)
        | inr (stays, same) ↦ (
          evaluate_policy-IsSatisfied orders ctx e.approval ae (sym same ∙ h),
          not_disapproved-Judgement _ stays judged,
        )
      ]

  approval-IsPositive : (a : Approval) → IsPositive (report (evaluate_policy orders a ctx)).status
  unfolding evaluate_policy status_eq
  approval-IsPositive none = refl
  approval-IsPositive (some root) =
      rename (evaluate_requirement orders root ctx) (evaluate-IsPositive orders root ctx)
    where
      rename :
          (x : Result)
          → IsPositive (report x).status
          → IsPositive (report (named "approval" x)).status
      rename (result rep rs) h = h

  -- The policy evaluates to disapproved if and only if neither of its two parts has an error and
  -- its disapproval policy disapproves, for one of its reasons: a satisfied predicate, or a last
  -- disapproval without a revocation after it.
  pub evaluate-disapproved : ((report (evaluate orders e ctx)).status ≡ disapproved) ↔ (
      ((report (evaluate_policy orders e.approval ctx)).error ≡ none)
      × ((report (evaluate_disapproval orders e.disapproval ctx)).error ≡ none)
      × Judgement orders e.disapproval ctx disapproved
      × ((report (evaluate_disapproval orders e.disapproval ctx)).status ≡ disapproved))
  unfolding status_eq evaluate combine policy_report
  evaluate-disapproved = (forth, back)
    where
      forth :
          (report (evaluate orders e ctx)).status ≡ disapproved
          → (approval_result.error ≡ none)
            × (disapproval_result.error ≡ none)
            × Judgement orders e.disapproval ctx disapproved
            × (disapproval_result.status ≡ disapproved)
      forth h =
          let (ae, de, decided) = decides (rw h (different refl)) in
          let judged = evaluate-Judgement orders e.disapproval ctx de in
          elim decided [
            | inl (gone, same) ↦
                (ae, de, subst (Judgement orders e.disapproval ctx) gone judged, gone)
            | inr (stays, same) ↦
                let positive = approval-IsPositive e.approval in cc (rw (sym same ∙ h) at positive)
          ]

      back :
          (approval_result.error ≡ none)
            × (disapproval_result.error ≡ none)
            × Judgement orders e.disapproval ctx disapproved
            × (disapproval_result.status ≡ disapproved)
          → (report (evaluate orders e ctx)).status ≡ disapproved
      back (ae, de, j, gone) = rw (ae, de, gone) refl
