-- ===== src/Disapproval/Verdict.antt =====
-- When `Evaluate` disapproves.
use policy_bot.Prelude.{
  ◌≤◌, ◌<◌, ◌≡◌, refl, ◌⊎◌, inl, inr, Bool, true, false, Option, none, some, List, [], ◌∷◌, arith,
  ltb, if◌then◌else◌, ltb→lt, Bool-cases, All, Attempt, ok, err, wrap, >>=-eq-ok, wrap-eq-ok,
  ok-injective,
}
use policy_bot.Pull.{Context}
use policy_bot.Common.Actors.{is_zero}
use policy_bot.Common.Methods.{Candidate, Orders, candidates}
use policy_bot.Common.Result.{
  Report, report, PredicateResult, EvaluationStatus, skipped, disapproved,
}
use policy_bot.Predicate.{Predicate, predicates, evaluate as evaluate_predicate}
use policy_bot.Disapproval.{
  Disapproval, get_disapprove_methods, get_revoke_methods, last_actor, Verdict, revocation,
  disapproval_verdict, is_disapproved, Preconditions, failed, satisfied, unsatisfied, add_result,
  after_predicate, preconditions, base_report, verdict_report, disapproval_report, evaluate,
}
use policy_bot.Disapproval.LastActor.{HasNoActor, IsLastActor, IsLastOf, last_actor-IsLastActor}

module _ (orders : Orders) (p : Disapproval) (ctx : Context) where
  abbrev pub Comes : Bool → Predicate → Type 0
  Comes b q =
      (r : PredicateResult) × (evaluate_predicate orders.keys q ctx ≡ ok r) × (r.satisfied ≡ b)

  -- The first predicates are not satisfied, and the next one is.
  abbrev pub IsSomeSatisfied : List Predicate → Type 0
  IsSomeSatisfied [] = ⊥
  IsSomeSatisfied (q ∷ qs) = Comes true q ⊎ (Comes false q × IsSomeSatisfied qs)

  abbrev pub Disapprovers : List Candidate → Type 0
  Disapprovers found = candidates orders.candidates (get_disapprove_methods p) ctx ≡ ok found

  abbrev pub Revokers : List Candidate → Type 0
  Revokers found = candidates orders.candidates (get_revoke_methods p) ctx ≡ ok found

  -- Why the policy has its status.
  pub data Judgement : EvaluationStatus → Type 0 where
    by_predicate : IsSomeSatisfied (predicates p.predicates) → Judgement disapproved
    empty :
        All (Comes false) (predicates p.predicates) → is_zero p.requires ≡ true → Judgement skipped
    nobody :
        All (Comes false) (predicates p.predicates)
        → (found : List Candidate) → Disapprovers found
        → HasNoActor p ctx found
        → Judgement skipped
    standing :
        All (Comes false) (predicates p.predicates)
        → (found revokers : List Candidate) → Disapprovers found
        → (d : Candidate) → IsLastActor p ctx found d
        → Revokers revokers
        → HasNoActor p ctx revokers
        → Judgement disapproved
    renewed :
        All (Comes false) (predicates p.predicates)
        → (found revokers : List Candidate) → Disapprovers found
        → (d r : Candidate) → IsLastActor p ctx found d
        → Revokers revokers
        → IsLastActor p ctx revokers r
        → r.created_at < d.created_at
        → Judgement disapproved
    revoked :
        All (Comes false) (predicates p.predicates)
        → (found revokers : List Candidate) → Disapprovers found
        → (d r : Candidate) → IsLastActor p ctx found d
        → Revokers revokers
        → IsLastActor p ctx revokers r
        → d.created_at ≤ r.created_at
        → Judgement skipped

  abbrev status_of : Bool → EvaluationStatus
  status_of b = if b then disapproved else skipped

  revocation-Judgement :
      All (Comes false) (predicates p.predicates)
      → (found revokers : List Candidate) → Disapprovers found
      → (d : Candidate) → IsLastActor p ctx found d
      → Revokers revokers
      → (o : Option Candidate) → IsLastOf p ctx revokers o
      → Judgement (status_of (revocation d o).0)
  unfolding revocation
  revocation-Judgement none_hold found revokers ds d last rs none h =
      standing none_hold found revokers ds d last rs h
  revocation-Judgement none_hold found revokers ds d last rs (some r) h =
      elim (Bool-cases (ltb r.created_at d.created_at)) [
        | inl e ↦
            rw e (
              renewed none_hold found revokers ds d r last rs h
                (ltb→lt r.created_at d.created_at e))
        | inr e ↦
            let later : d.created_at ≤ r.created_at = ground arith in
            rw e (revoked none_hold found revokers ds d r last rs h later)
      ]

  is_disapproved-Judgement :
      All (Comes false) (predicates p.predicates)
      → (v : Verdict) → is_disapproved orders p ctx ≡ ok v
      → Judgement (status_of v.0)
  unfolding is_disapproved disapproval_verdict
  is_disapproved-Judgement none_hold v h =
      let (o, wrapped_o, e) =
        >>=-eq-ok
          (wrap "failed to get last disapprover"
            (last_actor orders p ctx (get_disapprove_methods p)))
          (disapproval_verdict orders p ctx) h in
      let asked = wrap-eq-ok _ (last_actor orders p ctx (get_disapprove_methods p)) wrapped_o in
      let (found, ds, last) =
        last_actor-IsLastActor p ctx orders (get_disapprove_methods p) o asked in
      by_disapprover o found ds last e
    where
      by_disapprover :
          (o : Option Candidate) (found : List Candidate)
          → Disapprovers found
          → IsLastOf p ctx found o
          → disapproval_verdict orders p ctx o ≡ ok v
          → Judgement (status_of v.0)
      by_disapprover none found ds last e = rw (← ok-injective e) (nobody none_hold found ds last)
      by_disapprover (some d) found ds last e =
          let step = λ (o : Option Candidate). let x : Attempt Verdict = ok (revocation d o) in x in
          let (o, wrapped_o, same) =
            >>=-eq-ok
              (wrap "failed to get last revoker" (last_actor orders p ctx (get_revoke_methods p)))
              step e in
          let asked = wrap-eq-ok _ (last_actor orders p ctx (get_revoke_methods p)) wrapped_o in
          let (revokers, rs, last_revoker) =
            last_actor-IsLastActor p ctx orders (get_revoke_methods p) o asked in
          rw (← ok-injective same)
            (revocation-Judgement none_hold found revokers ds d last rs o last_revoker)

  -- How the loop over the predicates ends, in terms of the predicates.
  abbrev Ends : List Predicate → Preconditions → Type 0
  Ends qs (failed e) = Unit
  Ends qs (satisfied r) = IsSomeSatisfied qs
  Ends qs (unsatisfied rs) = All (Comes false) qs

  preconditions-Ends : (qs : List Predicate) → Ends qs (preconditions orders.keys ctx qs)
  unfolding preconditions
  preconditions-Ends [] = tt
  preconditions-Ends (q ∷ qs) =
      by_result (evaluate_predicate orders.keys q ctx) refl (preconditions orders.keys ctx qs)
        (preconditions-Ends qs)
    where
      add-Ends :
          (r : PredicateResult)
          → Comes false q
          → (rest : Preconditions) → Ends qs rest
          → Ends (q ∷ qs) (add_result r rest)
      add-Ends r unmet (failed e) h = tt
      add-Ends r unmet (satisfied s) h = inr (unmet, h)
      add-Ends r unmet (unsatisfied rs) h = (unmet, h)

      by_test :
          (r : PredicateResult) (b : Bool)
          → Comes b q
          → (rest : Preconditions) → Ends qs rest
          → Ends (q ∷ qs) (if b then satisfied r else add_result r rest)
      by_test r true met rest h = inl met
      by_test r false unmet rest h = add-Ends r unmet rest h

      by_result :
          (m : Attempt PredicateResult)
          → evaluate_predicate orders.keys q ctx ≡ m
          → (rest : Preconditions) → Ends qs rest
          → Ends (q ∷ qs) (after_predicate rest m)
      by_result (err e) asked rest h = tt
      by_result (ok r) asked rest h = by_test r r.satisfied (r, asked, refl) rest h

  -- If `Evaluate` reports no error, then its status is disapproved because some predicate is satisfied
  -- and none before it, or because the last disapproval by an actor is not followed by a revocation; and
  -- it is skipped because no predicate is satisfied and nobody is required, nobody disapproved, or the
  -- last revocation is not before the last disapproval.
  pub evaluate-Judgement :
      (report (evaluate orders p ctx)).error ≡ none
      → Judgement (report (evaluate orders p ctx)).status
  unfolding evaluate disapproval_report base_report verdict_report
  evaluate-Judgement h =
      by_preconditions (preconditions orders.keys ctx (predicates p.predicates))
        (preconditions-Ends (predicates p.predicates)) h
    where
      by_verdict :
          All (Comes false) (predicates p.predicates)
          → (rep : Report) (v : Attempt Verdict) → is_disapproved orders p ctx ≡ v
          → (verdict_report rep v).error ≡ none
          → Judgement (verdict_report rep v).status
      by_verdict none_hold rep (err e) asked h = cc
      by_verdict none_hold rep (ok v) asked h = is_disapproved-Judgement none_hold v asked

      by_zero :
          All (Comes false) (predicates p.predicates)
          → (rep : Report) (zero_report : Report) (b : Bool) → is_zero p.requires ≡ b
          → zero_report.status ≡ skipped
          → (if b then zero_report else verdict_report rep (is_disapproved orders p ctx)).error
            ≡ none
          → Judgement
              (if b then zero_report else verdict_report rep (is_disapproved orders p ctx)).status
      by_zero none_hold rep zero_report true z s h = rw s (empty none_hold z)
      by_zero none_hold rep zero_report false z s h =
          by_verdict none_hold rep (is_disapproved orders p ctx) refl h

      by_preconditions :
          (c : Preconditions)
          → Ends (predicates p.predicates) c
          → (disapproval_report orders p ctx c).error ≡ none
          → Judgement (disapproval_report orders p ctx c).status
      by_preconditions (failed e) ends h = cc
      by_preconditions (satisfied r) ends h = by_predicate ends
      by_preconditions (unsatisfied rs) none_hold h =
          by_zero none_hold _ _ (is_zero p.requires) refl refl h
