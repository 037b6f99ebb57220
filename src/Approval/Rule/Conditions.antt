-- ===== src/Approval/Rule/Conditions.antt =====
-- What the loops over a rule's predicates and over its conditions establish.
use policy_bot.Prelude.{
  suc, ◌≤◌, String, ◌≡◌, refl, sym, ap, ◌∙◌, inl, inr, Bool, true, false, not, List, [], ◌∷◌, arith,
  ◌==◌, if◌then◌else◌, ==_iff, Bool-cases, length, is_empty, All, Attempt, ok, err, ◌>>=◌, wrap,
  >>=-eq-ok, wrap-eq-ok, ok-injective, MapOrder,
}
use policy_bot.Pull.{Context}
use policy_bot.Common.Result.{PredicateResult}
use policy_bot.Predicate.{Predicate, predicates, evaluate as evaluate_predicate}
use policy_bot.Approval.Rule.{
  Rule, evaluate_all, satisfied_count, is_approved_by_conditions, Preconditions, failed,
  unsatisfied, satisfied, add_result, after_predicate, preconditions,
}

-- The predicate is evaluated without an error, and is satisfied.
abbrev pub Holds : MapOrder String → Context → Predicate → Type 0
Holds order ctx p =
    (r : PredicateResult) × (evaluate_predicate order p ctx ≡ ok r) × (r.satisfied ≡ true)

satisfied_count-le : (rs : List PredicateResult) → satisfied_count rs ≤ length rs
satisfied_count-le [] = omega arith
satisfied_count-le (r ∷ rs) = ground (arith, satisfied_count-le rs)

every_satisfied :
    (rs : List PredicateResult) → satisfied_count rs ≡ length rs → All (λ r. r.satisfied ≡ true) rs
every_satisfied [] h = tt
every_satisfied (r ∷ rs) h = elim (Bool-cases r.satisfied) [
  | inl e ↦ (e, every_satisfied rs (omega (arith, rw e at h)))
  | inr e ↦ absurd (too_many (rw e at h))
]
  where
    too_many : satisfied_count rs ≡ suc (length rs) → ⊥
    too_many k = omega (arith, k, satisfied_count-le rs)

evaluate_all-Holds :
    (order : MapOrder String) (ctx : Context) (ps : List Predicate) (rs : List PredicateResult)
    → evaluate_all order ctx ps ≡ ok rs
    → (length rs ≡ length ps) × (All (λ r. r.satisfied ≡ true) rs → All (Holds order ctx) ps)
unfolding evaluate_all
evaluate_all-Holds order ctx [] rs h = rw (← ok-injective h) (refl, λ _. tt)
evaluate_all-Holds order ctx (p ∷ ps) rs h =
    let (r, asked, h1) =
      >>=-eq-ok (wrap "failed to evaluate condition" (evaluate_predicate order p ctx)) step h in
    let (others, found, h2) = >>=-eq-ok (evaluate_all order ctx ps) (λ l. ok (r ∷ l)) h1 in
    let (same, each) = evaluate_all-Holds order ctx ps others found in
    rw (← ok-injective h2) (
      ap suc same,
      λ (sat, sats). ((r, wrap-eq-ok _ (evaluate_predicate order p ctx) asked, sat), each sats),
    )
  where
    step : PredicateResult → Attempt (List PredicateResult)
    step r = evaluate_all order ctx ps >>= λ l. ok (r ∷ l)

pub is_approved_by_conditions-Holds :
    (order : MapOrder String) (r : Rule) (ctx : Context) (rs : List PredicateResult)
    → is_approved_by_conditions order r ctx ≡ ok (true, rs)
    → All (Holds order ctx) (predicates r.requires.conditions)
unfolding is_approved_by_conditions
is_approved_by_conditions-Holds order r ctx rs h = by_list (predicates r.requires.conditions) h
  where
    verdict : List Predicate → List PredicateResult → Attempt (Bool × List PredicateResult)
    verdict ps found = ok (satisfied_count found == length ps, found)

    by_list :
        (ps : List Predicate)
        → (if is_empty ps then ok (true, []) else (evaluate_all order ctx ps >>= verdict ps))
          ≡ ok (true, rs)
        → All (Holds order ctx) ps
    by_list [] h = tt
    by_list (p ∷ ps) h =
        let (found, asked, e) = >>=-eq-ok (evaluate_all order ctx (p ∷ ps)) (verdict (p ∷ ps)) h in
        let (same, each) = evaluate_all-Holds order ctx (p ∷ ps) found asked in
        let counted =
          (==_iff (satisfied_count found) (length (p ∷ ps))).0 (ap (λ v. v.0) (ok-injective e)) in
        each (every_satisfied found (counted ∙ sym same))

module _ (order : MapOrder String) (ctx : Context) where
  after_result :
      (ps : List Predicate) (rs : List PredicateResult) (r : PredicateResult) (rest : Preconditions)
      → ((l : List PredicateResult) → rest ≡ satisfied l → All (Holds order ctx) ps)
      → add_result r rest ≡ satisfied rs
      → All (Holds order ctx) ps
  after_result ps rs r (failed e) hyp h = cc
  after_result ps rs r (unsatisfied u) hyp h = cc
  after_result ps rs r (satisfied l) hyp h = hyp l refl

  after_test :
      {rs : List PredicateResult} (r : PredicateResult) (rest : Preconditions) (b : Bool)
      → r.satisfied ≡ b
      → (if not b then unsatisfied r else add_result r rest) ≡ satisfied rs
      → (r.satisfied ≡ true) × (add_result r rest ≡ satisfied rs)
  after_test r rest true e h = (e, h)
  after_test r rest false e h = cc

  pub preconditions-Holds :
      (ps : List Predicate) (rs : List PredicateResult)
      → preconditions order ctx ps ≡ satisfied rs
      → All (Holds order ctx) ps
  unfolding preconditions
  preconditions-Holds [] rs h = tt
  preconditions-Holds (p ∷ ps) rs h =
      by_result (evaluate_predicate order p ctx) refl (λ l e. preconditions-Holds ps l e) h
    where
      by_result :
          (m : Attempt PredicateResult)
          → evaluate_predicate order p ctx ≡ m
          → ((l : List PredicateResult)
              → preconditions order ctx ps ≡ satisfied l
              → All (Holds order ctx) ps)
          → after_predicate (preconditions order ctx ps) m ≡ satisfied rs
          → All (Holds order ctx) (p ∷ ps)
      by_result (err e) asked hyp h = cc
      by_result (ok r) asked hyp h =
          let (sat, e) = after_test r (preconditions order ctx ps) r.satisfied refl h in
          ((r, asked, sat), after_result ps rs r (preconditions order ctx ps) hyp e)
