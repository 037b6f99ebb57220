-- ===== src/Disapproval/Coverage.antt =====
-- A disapproval policy's trigger names every event that can change its result, but for the body.
use policy_bot.Prelude.{
  String, ◌≡◌, refl, ap, ◌∙◌, inl, inr, true, false, not, Option, none, some, List, [], ◌∷◌,
  if◌then◌else◌, Bool-cases, All, All-imp, >>=-same, MapOrder,
}
use policy_bot.Pull.{Context}
use policy_bot.Common.Actors.{Actors, is_zero}
use policy_bot.Common.Actors.Stability.{is_actor_same}
use policy_bot.Common.Trigger.{
  Trigger, trigger_commit, trigger_comment, trigger_review, matches, or_if,
}
use policy_bot.Common.Trigger.Inclusion.{
  Includes, Includes-or_if, Includes-or_if_rest, Includes-or_all, Includes-or_all_rest,
}
use policy_bot.Common.Methods.{
  Methods, Candidate, Orders, uses_comments, uses_body, uses_reviews, candidates,
}
use policy_bot.Common.Methods.Stability.{candidates_same}
use policy_bot.Common.Result.{leaf}
use policy_bot.Predicate.{
  Predicate, predicates, evaluate as evaluate_predicate, trigger as predicate_trigger,
}
use policy_bot.Predicate.Stability.{SameStatic, Agree, Agree-part, evaluate_stable}
use policy_bot.Disapproval.{
  Disapproval, get_disapprove_methods, get_revoke_methods, methods_trigger, trigger, filter,
  last_actor, disapproval_verdict, is_disapproved, Preconditions, failed, satisfied, unsatisfied,
  preconditions, disapproval_report, evaluate,
}

-- No pattern is searched in the body of the pull request.
pub record IgnoresBody (p : Disapproval) : Type 0 where
  pub disapprove : uses_body (get_disapprove_methods p) ≡ false
  pub revoke : uses_body (get_revoke_methods p) ≡ false

module _ (c d : Context) where
  preconditions_same :
      (order : MapOrder String) (ps : List Predicate)
      → All (λ p. evaluate_predicate order p c ≡ evaluate_predicate order p d) ps
      → preconditions order c ps ≡ preconditions order d ps
  unfolding preconditions
  preconditions_same order [] h = refl
  preconditions_same order (p ∷ ps) (h, hs) = rw (h, preconditions_same order ps hs) refl

  filter_same :
      SameStatic c d
      → (actors : Actors) (cs : List Candidate) → filter actors c cs ≡ filter actors d cs
  unfolding filter
  filter_same static actors [] = refl
  filter_same static actors (k ∷ ks) =
      simp (is_actor_same static.membership k.user actors, filter_same static actors ks)

  module _ (orders : Orders) (p : Disapproval) where
    last_actor_same :
        SameStatic c d
        → (m : Methods) → candidates orders.candidates m c ≡ candidates orders.candidates m d
        → last_actor orders p c m ≡ last_actor orders p d m
    unfolding last_actor
    last_actor_same static m h = simp (h, filter_same static p.requires)

    verdict_same :
        last_actor orders p c (get_revoke_methods p) ≡ last_actor orders p d (get_revoke_methods p)
        → (o : Option Candidate)
        → disapproval_verdict orders p c o ≡ disapproval_verdict orders p d o
    unfolding disapproval_verdict
    verdict_same h none = refl
    verdict_same h (some k) = simp h

    is_disapproved_same :
        last_actor orders p c (get_disapprove_methods p)
          ≡ last_actor orders p d (get_disapprove_methods p)
        → last_actor orders p c (get_revoke_methods p)
          ≡ last_actor orders p d (get_revoke_methods p)
        → is_disapproved orders p c ≡ is_disapproved orders p d
    unfolding is_disapproved
    is_disapproved_same h k = rw h (>>=-same _ (verdict_same k))

    report_same :
        (is_zero p.requires ≡ false → is_disapproved orders p c ≡ is_disapproved orders p d)
        → (x : Preconditions) → disapproval_report orders p c x ≡ disapproval_report orders p d x
    unfolding disapproval_report
    report_same h (failed e) = refl
    report_same h (satisfied r) = refl
    report_same h (unsatisfied rs) = elim (Bool-cases (is_zero p.requires)) [
      | inl e ↦ rw e refl
      | inr e ↦ rw e (rw (h e) refl)
    ]

    -- The policy, if its predicates and the candidates that it asks for are the same.
    pub evaluate_same :
        SameStatic c d
        → All
            (λ q. evaluate_predicate orders.keys q c ≡ evaluate_predicate orders.keys q d)
            (predicates p.predicates)
        → (is_zero p.requires ≡ false
            → candidates orders.candidates (get_disapprove_methods p) c
              ≡ candidates orders.candidates (get_disapprove_methods p) d)
        → (is_zero p.requires ≡ false
            → candidates orders.candidates (get_revoke_methods p) c
              ≡ candidates orders.candidates (get_revoke_methods p) d)
        → evaluate orders p c ≡ evaluate orders p d
    unfolding evaluate
    evaluate_same static holds disapprovers revokers = ap leaf (
        ap (disapproval_report orders p c)
          (preconditions_same orders.keys (predicates p.predicates) holds)
        ∙ report_same
            (λ z.
              is_disapproved_same
                (last_actor_same static (get_disapprove_methods p) (disapprovers z))
                (last_actor_same static (get_revoke_methods p) (revokers z)))
            (preconditions orders.keys d (predicates p.predicates)))

module _ (p : Disapproval) where
  abbrev base : Trigger
  base =
      if not (is_zero p.requires)
      then methods_trigger (get_revoke_methods p)
          (methods_trigger (get_disapprove_methods p) trigger_commit)
      else trigger_commit

  Includes-base : Includes (trigger p) base
  unfolding trigger
  Includes-base = Includes-or_all_rest predicate_trigger (predicates p.predicates) base

  Includes-methods : (m : Methods) (t : Trigger) → Includes (methods_trigger m t) t
  Includes-methods m t f h =
      Includes-or_if_rest (uses_reviews m) trigger_review
        (or_if (uses_comments m) trigger_comment t) f
        (Includes-or_if_rest (uses_comments m) trigger_comment t f h)

  Includes-reviews :
      (m : Methods) (t : Trigger)
      → uses_reviews m ≡ true
      → Includes (methods_trigger m t) trigger_review
  Includes-reviews m t =
      Includes-or_if trigger_review (or_if (uses_comments m) trigger_comment t) (uses_reviews m)

  Includes-comments :
      (m : Methods) (t : Trigger)
      → uses_comments m ≡ true
      → Includes (methods_trigger m t) trigger_comment
  Includes-comments m t h f k =
      Includes-or_if_rest (uses_reviews m) trigger_review
        (or_if (uses_comments m) trigger_comment t) f
        (Includes-or_if trigger_comment t (uses_comments m) h f k)

  module _ {c d : Context} (h : Agree (trigger p) c d) (order : MapOrder Candidate) where
    methods_same :
        (m : Methods) (t : Trigger)
        → uses_body m ≡ false
        → Includes (trigger p) (methods_trigger m t)
        → candidates order m c ≡ candidates order m d
    unfolding matches
    methods_same m t bodiless inc =
        candidates_same m c d order (λ u. h.on_comment (inc _ (Includes-comments m t u _ refl)))
          (λ u. cc (u, bodiless)) (λ u. h.on_review (inc _ (Includes-reviews m t u _ refl)))

  -- If no pattern is searched in the body, then between two contexts that agree on what no event
  -- changes and on what the events of the disapproval policy's trigger change, the policy evaluates to
  -- the same result.
  pub disapproval-stable :
      (orders : Orders) (c d : Context)
      → IgnoresBody p
      → Agree (trigger p) c d
      → evaluate orders p c ≡ evaluate orders p d
  unfolding trigger
  disapproval-stable orders c d bodiless h =
      evaluate_same c d orders p h.static holds disapprovers revokers
    where
      holds :
          All
            (λ q. evaluate_predicate orders.keys q c ≡ evaluate_predicate orders.keys q d)
            (predicates p.predicates)
      holds =
          All-imp (λ q i. evaluate_stable orders.keys q c d (Agree-part i h))
            (predicates p.predicates)
            (Includes-or_all predicate_trigger (predicates p.predicates) base)

      with_zero :
          is_zero p.requires ≡ false
          → Includes (trigger p) (
              methods_trigger
                (get_revoke_methods p)
                (methods_trigger (get_disapprove_methods p) trigger_commit))
      with_zero z f m = Includes-base f (rw z m)

      disapprovers :
          is_zero p.requires ≡ false
          → candidates orders.candidates (get_disapprove_methods p) c
            ≡ candidates orders.candidates (get_disapprove_methods p) d
      disapprovers z =
          methods_same h orders.candidates (get_disapprove_methods p) trigger_commit
            bodiless.disapprove
            (λ f m. with_zero z f (Includes-methods (get_revoke_methods p) _ f m))

      revokers :
          is_zero p.requires ≡ false
          → candidates orders.candidates (get_revoke_methods p) c
            ≡ candidates orders.candidates (get_revoke_methods p) d
      revokers z =
          methods_same h orders.candidates (get_revoke_methods p)
            (methods_trigger (get_disapprove_methods p) trigger_commit) bodiless.revoke
            (with_zero z)
