-- ===== src/Relevance/Skipped.antt =====
-- The names that the collectors of policy_relevance.go find, and those that the predicates read.
use mathlib.Core.Path.{subst}
use policy_bot.Prelude.{String, ◌≡◌, Bool, false, Option, none, some, List, [], ◌∷◌, All, All-zip}
use policy_bot.Predicate.{Predicates}
use policy_bot.Predicate.Status.{HasStatus, HasWorkflowResult}
use policy_bot.Approval.Rule.{Rule}
use policy_bot.Disapproval.{Disapproval}
use policy_bot.Policy.{Config}
use policy_bot.Relevance.{
  Names, add_status, add_successful_status, add_workflows, collect_status_names,
  collect_workflow_names, collect_rules, collect_disapproval, policy_status_names,
  policy_workflow_names,
}
use policy_bot.Relevance.Names.{Every}
use policy_bot.Relevance.Reads.{Every-left, Every-right, ReadsNames}

-- The collectors, backwards: what is all right after a block is all right in it and before it.
some-same : {A : Type 0} (a b : A) → ◌≡◌ {A = Option A} (some a) (some b) → a ≡ b
some-same a b e = cc

module _ (m : String → Bool) where
  status_block :
      (o : Option HasStatus) (names : Names)
      → Every m (add_status o names).0
      → ((s : HasStatus) → o ≡ some s → Every m s.statuses) × Every m names.0
  status_block none names h = (λ s e. absurd cc, h)
  status_block (some a) names h = (
    λ s e. subst (λ x. Every m x.statuses) (some-same a s e) (Every-left m a.statuses names.0 h),
    Every-right m a.statuses names.0 h,
  )

  successful_status_block :
      (o : Option (List String)) (names : Names)
      → Every m (add_successful_status o names).0
      → ((s : List String) → o ≡ some s → Every m s) × Every m names.0
  successful_status_block none names h = (λ s e. absurd cc, h)
  successful_status_block (some a) names h = (
    λ s e. subst (Every m) (some-same a s e) (Every-left m a names.0 h),
    Every-right m a names.0 h,
  )

  workflow_block :
      (o : Option HasWorkflowResult) (names : Names)
      → Every m (add_workflows o names).0
      → ((w : HasWorkflowResult) → o ≡ some w → Every m w.workflows) × Every m names.0
  workflow_block none names h = (λ s e. absurd cc, h)
  workflow_block (some a) names h = (
    λ s e. subst (λ x. Every m x.workflows) (some-same a s e) (Every-left m a.workflows names.0 h),
    Every-right m a.workflows names.0 h,
  )

  abbrev pub StatusesFine : Predicates → Type 0
  StatusesFine p =
      ((s : HasStatus) → p.has_status ≡ some s → Every m s.statuses)
      × ((s : List String) → p.has_successful_status ≡ some s → Every m s)

  abbrev pub WorkflowsFine : Predicates → Type 0
  WorkflowsFine p = (w : HasWorkflowResult) → p.has_workflow_result ≡ some w → Every m w.workflows

  collect_status_names-Fine :
      (p : Predicates) (names : Names)
      → Every m (collect_status_names p names).0
      → StatusesFine p × Every m names.0
  unfolding collect_status_names
  collect_status_names-Fine p names h =
      let (later, rest) =
        successful_status_block p.has_successful_status (add_status p.has_status names) h in
      let (first, before) = status_block p.has_status names rest in ((first, later), before)

  collect_workflow_names-Fine :
      (p : Predicates) (names : Names)
      → Every m (collect_workflow_names p names).0
      → WorkflowsFine p × Every m names.0
  unfolding collect_workflow_names
  collect_workflow_names-Fine p names h = workflow_block p.has_workflow_result names h

  module _ (Fine : Predicates → Type 0) (collect : Predicates → Names → Names)
      (step : (p : Predicates) (names : Names)
        → Every m (collect p names).0
        → Fine p × Every m names.0) where
    rules_fine :
        (rs : List Rule) (names : Names)
        → Every m (collect_rules collect rs names).0
        → All (λ r. Fine r.predicates × Fine r.requires.conditions) rs × Every m names.0
    rules_fine [] names h = (tt, h)
    rules_fine (r ∷ rs) names h =
        let (later, rest) =
          rules_fine rs (collect r.requires.conditions (collect r.predicates names)) h in
        let (conditions, before) = step r.requires.conditions (collect r.predicates names) rest in
        let (holds, first) = step r.predicates names before in (((holds, conditions), later), first)

    disapproval_fine :
        (o : Option Disapproval) (names : Names)
        → Every m (collect_disapproval collect o names).0
        → ((d : Disapproval) → o ≡ some d → Fine d.predicates) × Every m names.0
    disapproval_fine none names h = (λ d e. absurd cc, h)
    disapproval_fine (some x) names h =
        let (fine, before) = step x.predicates names h in
        (λ d e. subst (λ y. Fine y.predicates) (some-same x d e) fine, before)

    config_fine :
        (cfg : Config)
        → Every m
            (collect_disapproval collect cfg.disapproval
              (collect_rules collect cfg.approval_rules ([], false))).0
        → All (λ r. Fine r.predicates × Fine r.requires.conditions) cfg.approval_rules
          × ((d : Disapproval) → cfg.disapproval ≡ some d → Fine d.predicates)
    config_fine cfg h =
        let (last, before) =
          disapproval_fine cfg.disapproval (collect_rules collect cfg.approval_rules ([], false))
            h in
        ((rules_fine cfg.approval_rules ([], false) before).0, last)

-- If every check and every workflow that the policy names matters, then so does every one that a
-- rule or the disapproval policy reads.
module _ (checks workflows : String → Bool) where
  abbrev pub RuleReadsNames : Rule → Type 0
  RuleReadsNames r =
      ReadsNames checks workflows r.predicates × ReadsNames checks workflows r.requires.conditions

  both_fine :
      (p : Predicates)
      → StatusesFine checks p
      → WorkflowsFine workflows p
      → ReadsNames checks workflows p
  both_fine p s w = record {
    has_status = s.0;
    has_successful_status = s.1;
    has_workflow_result = w;
  }

  pub policy-ReadsNames :
      (cfg : Config)
      → Every checks (policy_status_names (some cfg)).0
      → Every workflows (policy_workflow_names (some cfg)).0
      → All RuleReadsNames cfg.approval_rules
        × ((d : Disapproval) → cfg.disapproval ≡ some d → ReadsNames checks workflows d.predicates)
  unfolding policy_status_names policy_workflow_names
  policy-ReadsNames cfg s w =
      let (rs, ds) =
        config_fine checks (StatusesFine checks) collect_status_names
          (collect_status_names-Fine checks) cfg s in
      let (rw', dw) =
        config_fine workflows (WorkflowsFine workflows) collect_workflow_names
          (collect_workflow_names-Fine workflows) cfg w in
      (
        All-zip (λ r x y. (both_fine r.predicates x.0 y.0, both_fine r.requires.conditions x.1 y.1))
            cfg.approval_rules rs rw',
        λ d e. both_fine d.predicates (ds d e) (dw d e),
      )
