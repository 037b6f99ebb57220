-- ===== src/Approval/Rule/Completeness.antt =====
-- A rule whose queries succeed and whose predicates and conditions hold is decided by its approvers.
use policy_bot.Prelude.{
  suc, String, ◌≡◌, refl, ap, inl, inr, Bool, true, false, ◌&&◌, none, List, [], ◌∷◌, arith, leb,
  ◌==◌, if◌then◌else◌, ==_iff, Bool-cases, length, is_empty, keep, All, contains, ok, MapOrder,
}
use policy_bot.Pull.{Context}
use policy_bot.Common.Actors.{Actors, is_actor}
use policy_bot.Common.Methods.{Candidate, Orders}
use policy_bot.Common.Result.{report, RequiresResult, PredicateResult, approved, pending}
use policy_bot.Predicate.{Predicate, predicates}
use policy_bot.Approval.Rule.{
  Rule, Split, satisfied, preconditions, evaluate_all, satisfied_count, is_approved_by_conditions,
  banned_users, real_approvers, is_approved_by_actors, is_approved, filtered_candidates,
  base_report, decided, verdict_report, approval_report, rule_report, evaluate,
}
use policy_bot.Approval.Rule.Approvers.{accepts}
use policy_bot.Approval.Rule.Conditions.{Holds}

real_approvers_complete :
    (actors : Actors) (ctx : Context) (banned : List String) (cs : List Candidate)
    → All (λ c. (b : Bool) × (is_actor actors ctx c.user ≡ ok b)) cs
    → real_approvers actors ctx banned cs ≡ ok (keep (accepts actors ctx banned) cs)
unfolding real_approvers
real_approvers_complete actors ctx banned [] h = refl
real_approvers_complete actors ctx banned (c ∷ cs) ((b, e), h) =
    elim (Bool-cases (contains banned c.user)) [
      | inl out ↦ rw (out, real_approvers_complete actors ctx banned cs h) refl
      | inr unbanned ↦ by_answer b e unbanned (real_approvers_complete actors ctx banned cs h)
    ]
  where
    by_answer :
        (b : Bool)
        → is_actor actors ctx c.user ≡ ok b
        → contains banned c.user ≡ false
        → real_approvers actors ctx banned cs ≡ ok (keep (accepts actors ctx banned) cs)
        → real_approvers actors ctx banned (c ∷ cs) ≡ ok (keep (accepts actors ctx banned) (c ∷ cs))
    by_answer true e unbanned ih = rw (unbanned, e, ih) refl
    by_answer false e unbanned ih = rw (unbanned, e, ih) refl

module _ (order : MapOrder String) (ctx : Context) where
  preconditions_complete :
      (ps : List Predicate)
      → All (Holds order ctx) ps
      → (rs : List PredicateResult) × (preconditions order ctx ps ≡ satisfied rs)
  unfolding preconditions
  preconditions_complete [] h = ([], refl)
  preconditions_complete (p ∷ ps) ((r, asked, sat), h) =
      let (rs, e) = preconditions_complete ps h in (r ∷ rs, rw (asked, e, sat) refl)

  evaluate_all_complete :
      (ps : List Predicate)
      → All (Holds order ctx) ps
      → (rs : List PredicateResult) × (evaluate_all order ctx ps ≡ ok rs)
        × (satisfied_count rs ≡ length ps)
  unfolding evaluate_all
  evaluate_all_complete [] h = ([], refl, refl)
  evaluate_all_complete (p ∷ ps) ((r, asked, sat), h) =
      let (rs, e, n) = evaluate_all_complete ps h in (r ∷ rs, rw (asked, e) refl, rw sat (ap suc n))

  is_approved_by_conditions_complete :
      (r : Rule)
      → All (Holds order ctx) (predicates r.requires.conditions)
      → (rs : List PredicateResult) × (is_approved_by_conditions order r ctx ≡ ok (true, rs))
  unfolding is_approved_by_conditions
  is_approved_by_conditions_complete r h =
      let (rs, e, n) = evaluate_all_complete (predicates r.requires.conditions) h in
      let full : (satisfied_count rs == length (predicates r.requires.conditions)) ≡ true =
        (==_iff _ _).1 n in
      elim (Bool-cases (is_empty (predicates r.requires.conditions))) [
        | inl none_left ↦ ([], rw none_left refl)
        | inr some_left ↦ (rs, rw (some_left, e, full) refl)
      ]

-- Every query about the rule succeeds, and its predicates and conditions hold.
pub record IsReady (orders : Orders) (r : Rule) (ctx : Context) : Type 0 where
  pub predicates_hold : All (Holds orders.keys ctx) (predicates r.predicates)
  pub conditions_hold : All (Holds orders.keys ctx) (predicates r.requires.conditions)
  pub split : Split
  pub filtered : filtered_candidates orders r ctx ≡ ok split
  pub banned : List String
  pub exclusions : banned_users r ctx ≡ ok banned
  pub answers : All (λ c. (b : Bool) × (is_actor r.requires.actors ctx c.user ≡ ok b)) split.0

module _ (orders : Orders) (r : Rule) (ctx : Context) (ready : IsReady orders r ctx) where
  -- The kept candidates who are not excluded and are actors.
  abbrev pub acceptable : List Candidate
  acceptable = keep (accepts r.requires.actors ctx ready.banned) ready.split.0

  abbrev pub has_enough : Bool
  has_enough = leb r.requires.count (length acceptable)

  actors-decide :
      (approvers : List Candidate) × (is_approved_by_actors r ctx ready.split.0
        ≡ ok (has_enough, approvers))
  unfolding is_approved_by_actors
  actors-decide = elim (Bool-cases (leb r.requires.count 0)) [
    | inl none_required ↦
        let enough : has_enough ≡ true = at_least none_required in
        ([], rw (none_required, enough) refl)
    | inr some_required ↦ (
      acceptable,
      rw
          (
            some_required,
            ready.exclusions,
            real_approvers_complete r.requires.actors ctx ready.banned ready.split.0 ready.answers,
          )
          refl,
    )
  ]
    where
      at_least : leb r.requires.count 0 ≡ true → has_enough ≡ true
      at_least h = ground arith

  verdict :
      (req : RequiresResult) × (is_approved orders.keys r ctx ready.split.0 ≡ ok (has_enough, req))
  unfolding is_approved
  verdict =
      let (approvers, by_actors) = actors-decide in
      let (conditions, by_conditions) =
        is_approved_by_conditions_complete orders.keys ctx r ready.conditions_hold in
      (
        requirements approvers conditions,
        rw (by_actors, by_conditions)
            (ap (λ b. ok (b, requirements approvers conditions)) (true_right has_enough)),
      )
    where
      requirements : List Candidate → List PredicateResult → RequiresResult
      requirements approvers conditions = record {
        count = r.requires.count;
        actors = r.requires.actors;
        approvers = approvers;
        conditions = conditions;
      }

      true_right : (b : Bool) → (b && true) ≡ b
      true_right b = ground arith

  -- If every query about a rule succeeds and its predicates and conditions hold, then the rule reports no
  -- error, and it is approved if the candidates that are kept, not excluded and actors are at least
  -- as many as it requires, and else pending.
  pub evaluate-IsReady :
      ((report (evaluate orders r ctx)).error ≡ none)
      × ((report (evaluate orders r ctx)).status ≡ (
          if leb r.requires.count
            (length (keep (accepts r.requires.actors ctx ready.banned) ready.split.0))
          then approved
          else pending))
  unfolding evaluate rule_report approval_report verdict_report decided base_report
  evaluate-IsReady =
      let (rs, holds) =
        preconditions_complete orders.keys ctx (predicates r.predicates) ready.predicates_hold in
      let (req, decides) = verdict in rw (holds, ready.filtered, decides) (refl, refl)
