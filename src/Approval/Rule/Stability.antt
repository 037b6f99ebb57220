-- ===== src/Approval/Rule/Stability.antt =====
-- A rule's trigger names every event that can change its result.
use policy_bot.Prelude.{
  String, ◌≡◌, refl, ap, ◌∙◌, inl, inr, Bool, true, ◌&&◌, List, [], ◌∷◌, arith, ltb, leb,
  Bool-cases, All, All-imp, Attempt, ok, err, MapOrder,
}
use policy_bot.Pull.{Commit, Context}
use policy_bot.Common.Actors.Stability.{is_actor_same}
use policy_bot.Common.Trigger.{
  Trigger, trigger_commit, trigger_comment, trigger_review, trigger_pull_request, matches, or_if,
  or_all,
}
use policy_bot.Common.Trigger.Inclusion.{
  Includes, Includes-or_if, Includes-or_if_rest, Includes-or_all, Includes-or_all_rest,
}
use policy_bot.Common.Methods.Stability.{candidates_same}
use policy_bot.Approval.Commits.Stability.{filtered_commits_same}
use policy_bot.Common.Methods.{
  Methods, Candidate, Orders, uses_comments, uses_body, uses_reviews, candidates,
}
use policy_bot.Common.Result.{Report, leaf}
use policy_bot.Predicate.{
  Predicate, predicates, evaluate as evaluate_predicate, trigger as predicate_trigger,
}
use policy_bot.Predicate.Stability.{SameStatic, SameCommits, Agree, Agree-part, evaluate_stable}
use policy_bot.Approval.Options.{get_methods}
use policy_bot.Approval.Rule.{
  Rule, Split, trigger, banned_users, real_approvers, is_approved_by_actors, evaluate_all,
  is_approved_by_conditions, is_approved, invalid_split, filter_invalid_candidates,
  filtered_candidates, preconditions, Preconditions, satisfied, unsatisfied, failed,
  approval_report, rule_report, evaluate,
}

module _ (c d : Context) where
  -- The loops over predicates.
  abbrev pub SameResults : MapOrder String → List Predicate → Type 0
  SameResults order ps = All (λ p. evaluate_predicate order p c ≡ evaluate_predicate order p d) ps

  pub agreements :
      (order : MapOrder String) (ps : List Predicate) (t u : Trigger)
      → Includes u (or_all predicate_trigger ps t)
      → Agree u c d
      → SameResults order ps
  agreements order ps t u inc h =
      All-imp (λ p i. evaluate_stable order p c d (Agree-part (λ f m. inc f (i f m)) h)) ps
        (Includes-or_all predicate_trigger ps t)

  preconditions_same :
      (order : MapOrder String) (ps : List Predicate)
      → SameResults order ps
      → preconditions order c ps ≡ preconditions order d ps
  unfolding preconditions
  preconditions_same order [] h = refl
  preconditions_same order (p ∷ ps) (h, hs) = rw (h, preconditions_same order ps hs) refl

  evaluate_all_same :
      (order : MapOrder String) (ps : List Predicate)
      → SameResults order ps
      → evaluate_all order c ps ≡ evaluate_all order d ps
  unfolding evaluate_all
  evaluate_all_same order [] h = refl
  evaluate_all_same order (p ∷ ps) (h, hs) = simp (h, evaluate_all_same order ps hs)

  module _ (static : SameStatic c d) (same : SameCommits c d) (r : Rule) where
    real_approvers_same :
        (banned : List String) (cs : List Candidate)
        → real_approvers r.requires.actors c banned cs
          ≡ real_approvers r.requires.actors d banned cs
    unfolding real_approvers
    real_approvers_same banned [] = refl
    real_approvers_same banned (k ∷ ks) =
        simp
          (is_actor_same static.membership k.user r.requires.actors, real_approvers_same banned ks)

    banned_users_same : banned_users r c ≡ banned_users r d
    unfolding banned_users
    banned_users_same = simp (filtered_commits_same static r.options same, static.author)

    is_approved_by_actors_same :
        (cs : List Candidate) → is_approved_by_actors r c cs ≡ is_approved_by_actors r d cs
    unfolding is_approved_by_actors
    is_approved_by_actors_same cs = simp (banned_users_same, real_approvers_same)

    invalid_split_same :
        (cs : List Candidate) (commits : List Commit)
        → invalid_split c cs commits ≡ invalid_split d cs commits
    unfolding invalid_split
    invalid_split_same cs [] = refl
    invalid_split_same cs (k ∷ ks) = simp same.pushed_at

    filter_invalid_candidates_same :
        (cs : List Candidate) → filter_invalid_candidates r c cs ≡ filter_invalid_candidates r d cs
    unfolding filter_invalid_candidates
    filter_invalid_candidates_same cs =
        simp (filtered_commits_same static r.options same, invalid_split_same)

    filtered_candidates_same :
        (orders : Orders)
        → (ltb 0 r.requires.count ≡ true
            → candidates orders.candidates (get_methods r.options) c
              ≡ candidates orders.candidates (get_methods r.options) d)
        → filtered_candidates orders r c ≡ filtered_candidates orders r d
    unfolding filtered_candidates
    filtered_candidates_same orders h = elim (Bool-cases (leb r.requires.count 0)) [
      | inl e ↦ rw e refl
      | inr e ↦
          let counts : ltb 0 r.requires.count ≡ true = ground arith in
          rw e (simp (h counts, filter_invalid_candidates_same))
    ]

    is_approved_same :
        (order : MapOrder String)
        → SameResults order (predicates r.requires.conditions)
        → (cs : List Candidate) → is_approved order r c cs ≡ is_approved order r d cs
    unfolding is_approved is_approved_by_conditions
    is_approved_same order h cs =
        simp
          (is_approved_by_actors_same, evaluate_all_same order (predicates r.requires.conditions) h)

    approval_report_same :
        (orders : Orders)
        → SameResults orders.keys (predicates r.requires.conditions)
        → (rep : Report) (s : Attempt Split)
        → approval_report orders.keys r c rep s ≡ approval_report orders.keys r d rep s
    unfolding approval_report
    approval_report_same orders h rep (err e) = refl
    approval_report_same orders h rep (ok s) = simp (is_approved_same orders.keys h s.0)

    rule_report_same :
        (orders : Orders)
        → SameResults orders.keys (predicates r.requires.conditions)
        → filtered_candidates orders r c ≡ filtered_candidates orders r d
        → (p : Preconditions) → rule_report orders r c p ≡ rule_report orders r d p
    unfolding rule_report
    rule_report_same orders h f (failed e) = refl
    rule_report_same orders h f (unsatisfied u) = refl
    rule_report_same orders h f (satisfied results) =
        rw f (approval_report_same orders h _ (filtered_candidates orders r d))

    -- The rule, if its predicates, its conditions and the candidates that it asks for are the same.
    pub evaluate_same :
        (orders : Orders)
        → SameResults orders.keys (predicates r.predicates)
        → SameResults orders.keys (predicates r.requires.conditions)
        → (ltb 0 r.requires.count ≡ true
            → candidates orders.candidates (get_methods r.options) c
              ≡ candidates orders.candidates (get_methods r.options) d)
        → evaluate orders r c ≡ evaluate orders r d
    unfolding evaluate
    evaluate_same orders holds conditions asked = ap leaf (
        ap (rule_report orders r c) (preconditions_same orders.keys (predicates r.predicates) holds)
        ∙ rule_report_same orders conditions (filtered_candidates_same orders asked)
            (preconditions orders.keys d (predicates r.predicates)))

-- The parts of a rule's trigger.
module _ (r : Rule) where
  abbrev asks : Bool
  asks = ltb 0 r.requires.count

  abbrev rule_methods : Methods
  rule_methods = get_methods r.options

  abbrev from_comments : Trigger
  from_comments = or_if (asks && uses_comments rule_methods) trigger_comment trigger_commit

  abbrev from_body : Trigger
  from_body = or_if (asks && uses_body rule_methods) trigger_pull_request from_comments

  abbrev from_reviews : Trigger
  from_reviews = or_if (asks && uses_reviews rule_methods) trigger_review from_body

  abbrev from_conditions : Trigger
  from_conditions = or_all predicate_trigger (predicates r.requires.conditions) from_reviews

  Includes-from_conditions : Includes (trigger r) from_conditions
  unfolding trigger
  Includes-from_conditions =
      Includes-or_all_rest predicate_trigger (predicates r.predicates) from_conditions

  Includes-from_reviews : Includes (trigger r) from_reviews
  Includes-from_reviews f m =
      Includes-from_conditions f
        (Includes-or_all_rest predicate_trigger (predicates r.requires.conditions) from_reviews f m)

  Includes-from_body : Includes (trigger r) from_body
  Includes-from_body f m =
      Includes-from_reviews f
        (Includes-or_if_rest (asks && uses_reviews rule_methods) trigger_review from_body f m)

  Includes-from_comments : Includes (trigger r) from_comments
  Includes-from_comments f m =
      Includes-from_body f (
        Includes-or_if_rest (asks && uses_body rule_methods) trigger_pull_request from_comments f m)

  Includes-commit : Includes (trigger r) trigger_commit
  Includes-commit f m =
      Includes-from_comments f (
        Includes-or_if_rest (asks && uses_comments rule_methods) trigger_comment trigger_commit f m)

  both : (a b : Bool) → a ≡ true → b ≡ true → (a && b) ≡ true
  both a b p q = ground arith

  -- Between two contexts that agree on what no event changes and on what the events of the rule's
  -- trigger change, the rule evaluates to the same result.
  pub rule-stable :
      (orders : Orders) (c d : Context)
      → Agree (trigger r) c d
      → evaluate orders r c ≡ evaluate orders r d
  unfolding trigger matches
  rule-stable orders c d h =
      let same = h.on_commit (Includes-commit _ refl) in
      let holds =
        agreements c d orders.keys (predicates r.predicates) from_conditions (trigger r) (λ f m. m)
          h in
      let conditions =
        agreements c d orders.keys (predicates r.requires.conditions) from_reviews (trigger r)
          Includes-from_conditions h in
      evaluate_same c d h.static same r orders holds conditions (λ asked.
        candidates_same rule_methods c d orders.candidates
          (λ u. h.on_comment (
            Includes-from_comments _
              (Includes-or_if trigger_comment trigger_commit _ (both _ _ asked u) _ refl)))
          (λ u.
            (h.on_pull_request (
              Includes-from_body _ (
                Includes-or_if trigger_pull_request from_comments _ (both _ _ asked u) _
                  refl))).body)
          (λ u. h.on_review (
            Includes-from_reviews _
              (Includes-or_if trigger_review from_body _ (both _ _ asked u) _ refl))))
