-- ===== src/Relevance/Events.antt =====
-- Policies in two contexts that differ in a status or a workflow run.
use mathlib.Core.Path.{subst}
use policy_bot.Prelude.{
  ℕ, String, ◌≡◌, refl, sym, ap, inl, inr, Bool, Option, none, some, List, [], ◌∷◌, map, str_eq,
  Bool-cases, All, All-imp, get, Attempt, ok, ◌>>=◌, wrap, >>=-eq-ok, wrap-eq-ok, ok-injective,
  MapOrder,
}
use policy_bot.Pull.{Context}
use policy_bot.Common.Methods.{Methods, Orders, candidates}
use policy_bot.Common.Methods.Stability.{candidates_same}
use policy_bot.Predicate.{Predicates, predicates, evaluate as evaluate_predicate}
use policy_bot.Approval.Options.{Options, get_methods}
use policy_bot.Approval.Rule.{Rule, evaluate as evaluate_rule}
use policy_bot.Approval.Rule.Stability.{evaluate_same}
use policy_bot.Approval.Requirements.{
  Requirement, Requirements, or_result, and_result_of, evaluate as evaluate_requirement,
  evaluate_each, Approval, named, evaluate_policy,
}
use policy_bot.Approval.Parse.{
  Value, mapping, sequence, Values, no_values, and_value, no_entries, and_entry, Rules, parse,
  parse_value,
}
use policy_bot.Approval.Parse.Outcome.{
  Reads, reads_rule, reads_or, reads_and, ReadsAll, reads_none, reads_next, parse_value-iff_Reads,
}
use policy_bot.Disapproval.{Disapproval, evaluate as evaluate_disapproval}
use policy_bot.Disapproval.Coverage.{evaluate_same as disapproval_same}
use policy_bot.Policy.{
  Config, GlobalOptions, Evaluator, or_no_disapproval, with_rule_defaults, rules_by_name,
  default_approval_options, server_ignores_edited, parse_policy, evaluate,
}
use policy_bot.Policy.Defaults.{rules_by_name-distinct}
use policy_bot.Relevance.{policy_status_names, policy_workflow_names}
use policy_bot.Relevance.Names.{Similar, Every, evaluate-similar}
use policy_bot.Relevance.Reads.{ReadsNames, predicates-ReadsOnly}
use policy_bot.Relevance.Skipped.{RuleReadsNames, policy-ReadsNames}

module _ (orders : Orders) (checks workflows : String → Bool) (c d : Context)
    (h : Similar checks workflows c d) where
  bundle_same :
      (p : Predicates)
      → ReadsNames checks workflows p
      → All
          (λ q. evaluate_predicate orders.keys q c ≡ evaluate_predicate orders.keys q d)
          (predicates p)
  bundle_same p names =
      All-imp (evaluate-similar h orders.keys) (predicates p)
        (predicates-ReadsOnly checks workflows p names)

  methods_same : (m : Methods) → candidates orders.candidates m c ≡ candidates orders.candidates m d
  methods_same m =
      candidates_same m c d orders.candidates (λ u. h.comments) (λ u. h.pull_request.body)
        (λ u. h.reviews)

  abbrev RuleSame : Rule → Type 0
  RuleSame r = evaluate_rule orders r c ≡ evaluate_rule orders r d

  rule_same : (r : Rule) → RuleReadsNames checks workflows r → RuleSame r
  rule_same r (holds, conditions) =
      evaluate_same c d h.static h.commits r orders (bundle_same r.predicates holds)
        (bundle_same r.requires.conditions conditions) (λ u. methods_same (get_methods r.options))

  -- A rule that the parser finds is one of the configuration's, with its defaults.
  found_same :
      (defaults : Options) (ignore : Option Bool) (rs : List Rule) (name : String) (rule : Rule)
      → All (λ r. RuleSame (with_rule_defaults defaults ignore r)) rs
      → get name (map (λ r. (r.name, with_rule_defaults defaults ignore r)) rs) ≡ some rule
      → RuleSame rule
  found_same defaults ignore [] name rule hs found = absurd cc
  found_same defaults ignore (r ∷ rs) name rule (q, hs) found =
      elim (Bool-cases (str_eq r.name name)) [
        | inl here ↦
            let one : ◌≡◌ {A = Option Rule} (some (with_rule_defaults defaults ignore r))
                (some rule) =
              rw here at found in
            let same : with_rule_defaults defaults ignore r ≡ rule = cc in subst RuleSame same q
        | inr later ↦ found_same defaults ignore rs name rule hs (rw later at found)
      ]

  module _ (rules : Rules)
      (found : (name : String) (rule : Rule) → get name rules ≡ some rule → RuleSame rule) where
    mutual
      unfolding evaluate_requirement

      requirement_same :
          {depth : ℕ} {v : Value} {req : Requirement}
          → Reads rules depth v req
          → evaluate_requirement orders req c ≡ evaluate_requirement orders req d
      requirement_same (reads_rule {depth} {name} {rule} fits there) = found name rule there
      requirement_same (reads_or fits children) = ap or_result (each_same children)
      requirement_same (reads_and fits children) = ap and_result_of (each_same children)

      each_same :
          {depth : ℕ} {vs : Values} {reqs : Requirements}
          → ReadsAll rules depth vs reqs
          → evaluate_each orders reqs c ≡ evaluate_each orders reqs d
      each_same reads_none = refl
      each_same (reads_next first rest) = rw (requirement_same first, each_same rest) refl

    approval_same :
        (order : MapOrder String) (vs : Values) (a : Approval)
        → parse order rules vs ≡ ok a
        → evaluate_policy orders a c ≡ evaluate_policy orders a d
    unfolding parse evaluate_policy
    approval_same order no_values a parsed = rw (sym (ok-injective parsed)) refl
    approval_same order (and_value v vs) a parsed =
        let tree = mapping (and_entry "and" (sequence (and_value v vs)) no_entries) in
        let done = λ (root : Requirement). let x : Attempt Approval = ok (some root) in x in
        let (root, read, same) = >>=-eq-ok (parse_value order rules 0 tree) done parsed in
        rw (sym (ok-injective same)) (
          ap (named "approval")
            (requirement_same ((parse_value-iff_Reads order rules 0 tree root).0 read)))

  disapproval_part :
      (o : Option Disapproval)
      → ((x : Disapproval) → o ≡ some x → ReadsNames checks workflows x.predicates)
      → evaluate_disapproval orders (or_no_disapproval o) c
        ≡ evaluate_disapproval orders (or_no_disapproval o) d
  disapproval_part o names =
      disapproval_same c d orders (or_no_disapproval o) h.static
        (bundle_same (or_no_disapproval o).predicates (of_none o names)) (λ z. methods_same _)
        (λ z. methods_same _)
    where
      of_none :
          (o : Option Disapproval)
          → ((x : Disapproval) → o ≡ some x → ReadsNames checks workflows x.predicates)
          → ReadsNames checks workflows (or_no_disapproval o).predicates
      of_none none names = record {
        has_status = λ s e. absurd cc;
        has_successful_status = λ s e. absurd cc;
        has_workflow_result = λ w e. absurd cc;
      }
      of_none (some x) names = names x refl

  -- The whole policy.
  pub policy_same :
      (order : MapOrder String) (cfg : Config) (opts : Option GlobalOptions) (e : Evaluator)
      → Every checks (policy_status_names (some cfg)).0
      → Every workflows (policy_workflow_names (some cfg)).0
      → parse_policy order cfg opts ≡ ok e
      → evaluate orders e c ≡ evaluate orders e d
  unfolding parse_policy evaluate
  policy_same order cfg opts e s w parsed =
      let (rules_fine, disapproval_fine) = policy-ReadsNames checks workflows cfg s w in
      let defaults = default_approval_options cfg opts in
      let ignore = server_ignores_edited opts in
      let finish = λ (a : Approval).
        let x : Attempt Evaluator =
          ok (record { approval = a; disapproval = or_no_disapproval cfg.disapproval }) in
        x in
      let after_rules = λ (rules : Rules).
        wrap "failed to parse approval policy" (parse order rules cfg.approval) >>= finish in
      let (rules, indexed, rest) =
        >>=-eq-ok (rules_by_name defaults ignore cfg.approval_rules []) after_rules parsed in
      let (a, approved, made) =
        >>=-eq-ok (wrap "failed to parse approval policy" (parse order rules cfg.approval)) finish
          rest in
      let read = wrap-eq-ok _ (parse order rules cfg.approval) approved in
      let named = (rules_by_name-distinct defaults ignore cfg.approval_rules rules indexed).1 in
      let every =
        All-imp
          (λ r n. rule_same (with_rule_defaults defaults ignore r) (unfold with_rule_defaults in n))
          cfg.approval_rules rules_fine in
      let first =
        approval_same rules
          (λ name rule there.
            found_same defaults ignore cfg.approval_rules name rule every (rw named at there))
          order cfg.approval a read in
      rw (sym (ok-injective made), first, disapproval_part cfg.disapproval disapproval_fine) refl
