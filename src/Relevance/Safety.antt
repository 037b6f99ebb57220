-- ===== src/Relevance/Safety.antt =====
-- `shouldSkipCheckRun` and `shouldSkipWorkflowRun`, against the evaluation of the policy.
use policy_bot.Prelude.{
  String, ◌≡◌, refl, inl, inr, Bool, true, false, not, ◌||◌, Option, none, some, List, [], ◌∷◌,
  arith, str_eq, if◌then◌else◌, Bool-cases, contains, ok, MapOrder,
}
use policy_bot.Pull.{Context}
use policy_bot.Common.Methods.{Orders}
use policy_bot.Predicate.{Predicates}
use policy_bot.Predicate.Status.{HasStatus, HasWorkflowResult}
use policy_bot.Approval.Rule.{Rule}
use policy_bot.Disapproval.{Disapproval}
use policy_bot.Policy.{Config, GlobalOptions, Evaluator, parse_policy, evaluate}
use policy_bot.Fetcher.{FetchedConfig}
use policy_bot.Relevance.{
  Names, add_status, add_successful_status, add_workflows, collect_status_names,
  collect_workflow_names, collect_rules, collect_disapproval, policy_status_names,
  policy_workflow_names, should_skip_check_run, should_skip_workflow_run, unlisted, failed,
  should_skip,
}
use policy_bot.Relevance.Names.{Similar, Every}
use policy_bot.Relevance.Events.{policy_same}

-- Without a block there are no names.
abbrev Quiet : Names → Type 0
Quiet names = names.1 ≡ false → names.0 ≡ []

Quiet-statuses :
    (p : Predicates) (names : Names) → Quiet names → Quiet (collect_status_names p names)
unfolding collect_status_names
Quiet-statuses p names q = by_blocks p.has_status p.has_successful_status
  where
    by_blocks :
        (a : Option HasStatus) (b : Option (List String))
        → Quiet (add_successful_status b (add_status a names))
    by_blocks none none = q
    by_blocks (some a) none = λ e. absurd cc
    by_blocks none (some b) = λ e. absurd cc
    by_blocks (some a) (some b) = λ e. absurd cc

Quiet-workflows :
    (p : Predicates) (names : Names) → Quiet names → Quiet (collect_workflow_names p names)
unfolding collect_workflow_names
Quiet-workflows p names q = by_block p.has_workflow_result
  where
    by_block : (o : Option HasWorkflowResult) → Quiet (add_workflows o names)
    by_block none = q
    by_block (some a) = λ e. absurd cc

module _ (collect : Predicates → Names → Names)
    (step : (p : Predicates) (names : Names) → Quiet names → Quiet (collect p names)) where
  Quiet-rules :
      (rs : List Rule) (names : Names) → Quiet names → Quiet (collect_rules collect rs names)
  Quiet-rules [] names q = q
  Quiet-rules (r ∷ rs) names q =
      Quiet-rules rs (collect r.requires.conditions (collect r.predicates names))
        (step r.requires.conditions (collect r.predicates names) (step r.predicates names q))

  Quiet-disapproval :
      (o : Option Disapproval) (names : Names)
      → Quiet names
      → Quiet (collect_disapproval collect o names)
  Quiet-disapproval none names q = q
  Quiet-disapproval (some d) names q = step d.predicates names q

-- Every name matters but the one of the event.
abbrev pub but : String → String → Bool
but name s = not (str_eq s name)

abbrev pub all_names : String → Bool
all_names s = true

Every-but :
    (name : String) (names : List String) → contains names name ≡ false → Every (but name) names
Every-but name [] h = tt
Every-but name (s ∷ names) h = elim (Bool-cases (str_eq s name)) [
  | inl same ↦ let h' = rw same at h in absurd cc
  | inr other ↦ (rw other refl, Every-but name names (rw other at h))
]

Every-all : (names : List String) → Every all_names names
Every-all [] = tt
Every-all (s ∷ names) = (refl, Every-all names)

unlisted-Every :
    (names : Names) (name : String)
    → Quiet names
    → unlisted names name ≡ true
    → Every (but name) names.0
unlisted-Every (names, true) name q h = Every-but name names (ground (arith, h))
unlisted-Every (names, false) name q h = rw (q refl) tt

-- What a skip says of the names, if there is a policy.
skip-unlisted :
    (policy_names : Option Config → Names) (fetched : FetchedConfig) (base name : String)
    (cfg : Config)
    → should_skip policy_names (ok fetched) base name ≡ true
    → fetched.config ≡ some cfg
    → unlisted (policy_names (some cfg)) name ≡ true
skip-unlisted policy_names fetched base name cfg skipped there =
    later (failed fetched.load_error || failed fetched.parse_error) _
      (after (str_eq base "" || str_eq name "") _ (rw there at skipped))
  where
    after : (a b : Bool) → (if a then false else b) ≡ true → b ≡ true
    after true b h = absurd cc
    after false b h = h

    later : (a b : Bool) → (if a then false else b) ≡ true → b ≡ true
    later a b h = after a b h

module _ (orders : Orders) (order : MapOrder String) (fetched : FetchedConfig) (cfg : Config)
    (opts : Option GlobalOptions) (e : Evaluator) (base : String) (c d : Context)
    (there : fetched.config ≡ some cfg) (parsed : parse_policy order cfg opts ≡ ok e) where
  -- If a check_run event is skipped although the branch has a policy, then the policy evaluates to the
  -- same result in any two contexts that differ at most in the status of that check.
  pub should_skip_check_run-same :
      (check_name : String)
      → should_skip_check_run (ok fetched) base check_name ≡ true
      → Similar (but check_name) all_names c d
      → evaluate orders e c ≡ evaluate orders e d
  unfolding should_skip_check_run
  should_skip_check_run-same name skipped h =
      policy_same orders (but name) all_names c d h order cfg opts e
        (unlisted-Every (policy_status_names (some cfg)) name quiet
          (skip-unlisted policy_status_names fetched base name cfg skipped there))
        (Every-all (policy_workflow_names (some cfg)).0) parsed
    where
      quiet : Quiet (policy_status_names (some cfg))
      quiet =
          unfold policy_status_names in
          Quiet-disapproval collect_status_names Quiet-statuses cfg.disapproval
            (collect_rules collect_status_names cfg.approval_rules ([], false))
            (Quiet-rules collect_status_names Quiet-statuses cfg.approval_rules ([], false)
              (λ q. refl))

  -- If a workflow_run event is skipped although the branch has a policy, then the policy evaluates to
  -- the same result in any two contexts that differ at most in the runs of that workflow.
  pub should_skip_workflow_run-same :
      (workflow_path : String)
      → should_skip_workflow_run (ok fetched) base workflow_path ≡ true
      → Similar all_names (but workflow_path) c d
      → evaluate orders e c ≡ evaluate orders e d
  unfolding should_skip_workflow_run
  should_skip_workflow_run-same path skipped h =
      policy_same orders all_names (but path) c d h order cfg opts e
        (Every-all (policy_status_names (some cfg)).0)
        (unlisted-Every (policy_workflow_names (some cfg)) path quiet
          (skip-unlisted policy_workflow_names fetched base path cfg skipped there))
        parsed
    where
      quiet : Quiet (policy_workflow_names (some cfg))
      quiet =
          unfold policy_workflow_names in
          Quiet-disapproval collect_workflow_names Quiet-workflows cfg.disapproval
            (collect_rules collect_workflow_names cfg.approval_rules ([], false))
            (Quiet-rules collect_workflow_names Quiet-workflows cfg.approval_rules ([], false)
              (λ q. refl))
