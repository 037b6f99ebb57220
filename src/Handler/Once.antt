-- ===== src/Handler/Once.antt =====
-- Each stale review is dismissed, once.
use policy_bot.Prelude.{In, All-at, inl, inr, Bool-cases, eq_iff, ◌&&◌, ◌≡◌}
use policy_bot.Common.Methods.{review_candidate}
use policy_bot.Handler.Leaves.{
  IsApprover, IsDismissed, find_all_dismissals-iff_IsDismissed, find_all_approvers-iff_IsApprover,
}
use policy_bot.Prelude.{
  String, refl, Bool, true, false, not, ◌||◌, Option, none, some, List, [], ◌∷◌, map, arith,
  eq_refl, str_eq, if◌then◌else◌, All, All-imp, contains, Error,
}
use policy_bot.Common.Result.{Result, Dismissal}
use policy_bot.Handler.{
  find_all_approvers, find_all_dismissals, Dismissed, send_one, is_dismissible, dismiss_loop,
  dismiss_stale_reviews_for_result,
}

-- No review is in the list, or sent twice.
abbrev pub IsOnce : List String → List (String × String) → Type 0
IsOnce done [] = Unit
IsOnce done (s ∷ sent) = (contains done s.0 ≡ false) × IsOnce (s.0 ∷ done) sent

module _ (answer : String → String → Option Error) (strict : Bool) (approvers : List String) where
  -- The request comes from a dismissal that may be carried out.
  abbrev IsFrom : List Dismissal → String × String → Type 0
  IsFrom ds s =
      (d : Dismissal) × In d ds
      × (s ≡ (d.candidate.review_id, d.reason))
      × (is_dismissible strict approvers d ≡ true)

  record Runs (done : List String) (ds : List Dismissal) (out : Dismissed) : Type 0 where
    pub once : IsOnce done out.sent
    pub origin : All (IsFrom ds) out.sent
    pub complete :
        out.error ≡ none
        → All
            (λ d.
              is_dismissible strict approvers d ≡ true
              → (contains done d.candidate.review_id
                  || contains (map (λ s. s.0) out.sent) d.candidate.review_id)
                ≡ true)
            ds

  IsFrom-later :
      (d : Dismissal) (ds : List Dismissal) (s : String × String) → IsFrom ds s → IsFrom (d ∷ ds) s
  IsFrom-later d ds s (e, m, same, may) = (e, inr m, same, may)

  skipped :
      (done : List String) (d : Dismissal) (ds : List Dismissal) (out : Dismissed)
      → (is_dismissible strict approvers d ≡ true → contains done d.candidate.review_id ≡ true)
      → Runs done ds out
      → Runs done (d ∷ ds) out
  skipped done d ds out why c = record {
    once = c.once;
    origin = All-imp (IsFrom-later d ds) out.sent c.origin;
    complete = λ e. ((λ may. left _ _ (why may)), c.complete e);
  }
    where
      left : (a b : Bool) → a ≡ true → (a || b) ≡ true
      left a b h = ground arith

  sent_now :
      (done : List String) (d : Dismissal) (ds : List Dismissal) (a : Option Error)
      (later : Dismissed)
      → is_dismissible strict approvers d ≡ true
      → contains done d.candidate.review_id ≡ false
      → Runs (d.candidate.review_id ∷ done) ds later
      → Runs done (d ∷ ds) (send_one d.candidate.review_id d.reason a later)
  sent_now done d ds (some e) later may new c = record {
    once = (new, tt);
    origin = ((d, inl refl, refl, may), tt);
    complete = λ h. cc h;
  }
  sent_now done d ds none later may new c = record {
    once = (new, c.once);
    origin = ((d, inl refl, refl, may), All-imp (IsFrom-later d ds) later.sent c.origin);
    complete = λ e. (
      (λ _. right (contains done d.candidate.review_id) _ _ (eq_refl d.candidate.review_id)),
      All-imp
          (λ x f m.
            shift (str_eq d.candidate.review_id x.candidate.review_id)
              (contains done x.candidate.review_id)
              (contains (map (λ s. s.0) later.sent) x.candidate.review_id) (f m))
          ds (c.complete e),
    );
  }
    where
      right : (a b c : Bool) → b ≡ true → (a || (b || c)) ≡ true
      right a b c h = ground arith

      shift : (a b c : Bool) → ((a || b) || c) ≡ true → (b || (a || c)) ≡ true
      shift a b c h = ground arith

  dismiss_loop-Runs :
      (done : List String) (ds : List Dismissal)
      → Runs done ds (dismiss_loop answer strict approvers done ds)
  unfolding dismiss_loop
  dismiss_loop-Runs done [] = record { once = tt; origin = tt; complete = λ e. tt }
  dismiss_loop-Runs done (d ∷ ds) =
      by_test (is_dismissible strict approvers d) refl (contains done d.candidate.review_id) refl
        (dismiss_loop-Runs done ds) (dismiss_loop-Runs (d.candidate.review_id ∷ done) ds)
    where
      by_test :
          (may : Bool)
          → is_dismissible strict approvers d ≡ may
          → (old : Bool) → contains done d.candidate.review_id ≡ old
          → Runs done ds (dismiss_loop answer strict approvers done ds)
          → Runs
              (d.candidate.review_id ∷ done)
              ds
              (dismiss_loop answer strict approvers (d.candidate.review_id ∷ done) ds)
          → Runs done (d ∷ ds) (
              if not may || old
              then dismiss_loop answer strict approvers done ds
              else send_one d.candidate.review_id d.reason
                  (answer d.candidate.review_id d.reason)
                  (dismiss_loop answer strict approvers (d.candidate.review_id ∷ done) ds))
      by_test false e old o skip next = skipped done d ds _ (λ h. cc (e, h)) skip
      by_test true e true o skip next = skipped done d ds _ (λ h. o) skip
      by_test true e false o skip next =
          sent_now done d ds (answer d.candidate.review_id d.reason) _ e o next

-- The review may be dismissed: a rule without an error dismissed it, and unless dismissals are strict
-- its user is no approver of a rule without an error.
pub record MayBeDismissed (strict : Bool) (r : Result) (d : Dismissal) : Type 0 where
  pub is_review : d.candidate.type ≡ review_candidate
  pub stale : IsDismissed r d
  pub not_approver : strict ≡ false → IsApprover r d.candidate.user → ⊥

pub record IsCarriedOut (strict : Bool) (r : Result) (out : Dismissed) : Type 0 where
  pub once : IsOnce [] out.sent
  pub origin :
      All
        (λ s. (d : Dismissal) × MayBeDismissed strict r d × (s ≡ (d.candidate.review_id, d.reason)))
        out.sent
  pub complete :
      out.error ≡ none
      → (d : Dismissal) → MayBeDismissed strict r d
      → contains (map (λ s. s.0) out.sent) d.candidate.review_id ≡ true

both : (t s c : Bool) → (t && (s || not c)) ≡ true → (t ≡ true) × (s ≡ false → c ≡ false)
both t s c h = ground arith

from_both : (t s c : Bool) → t ≡ true → (s ≡ false → c ≡ false) → (t && (s || not c)) ≡ true
from_both t true c h k = rw h refl
from_both t false c h k = rw (h, k refl) refl

is_dismissible-may :
    (strict : Bool) (r : Result) (d : Dismissal)
    → is_dismissible strict (find_all_approvers r) d ≡ true
    → IsDismissed r d
    → MayBeDismissed strict r d
unfolding is_dismissible
is_dismissible-may strict r d h stale =
    let approver = contains (find_all_approvers r) d.candidate.user in
    let (review, free) = both (str_eq d.candidate.type review_candidate) strict approver h in
    record {
      is_review = (eq_iff d.candidate.type review_candidate).0 review;
      stale = stale;
      not_approver = λ lax approves.
          let there = (find_all_approvers-iff_IsApprover r d.candidate.user).1 approves in
          cc (there, free lax);
    }

may-is_dismissible :
    (strict : Bool) (r : Result) (d : Dismissal)
    → MayBeDismissed strict r d
    → is_dismissible strict (find_all_approvers r) d ≡ true
unfolding is_dismissible
may-is_dismissible strict r d may =
    from_both (str_eq d.candidate.type review_candidate) strict _
      (rw may.is_review (eq_refl review_candidate))
      (λ lax. elim (Bool-cases (contains (find_all_approvers r) d.candidate.user)) [
        | inl there ↦
            absurd (
              may.not_approver lax ((find_all_approvers-iff_IsApprover r d.candidate.user).0 there))
        | inr absent ↦ absent
      ])

-- Each request names a review that a rule without an error dismissed, with a reason that the rule gave,
-- and unless dismissals are strict its user is no approver of such a rule; no review is named twice; and
-- if no request fails, then every such review is named.
pub dismiss_stale_reviews-IsCarriedOut :
    (answer : String → String → Option Error) (strict : Bool) (r : Result)
    → IsCarriedOut strict r (dismiss_stale_reviews_for_result answer strict r)
unfolding dismiss_stale_reviews_for_result
dismiss_stale_reviews-IsCarriedOut answer strict r =
    let run = dismiss_loop-Runs answer strict (find_all_approvers r) [] (find_all_dismissals r) in
    record {
      once = run.once;
      origin =
          All-imp
            (λ s (d, among, same, may). (
              d,
              is_dismissible-may strict r d may ((find_all_dismissals-iff_IsDismissed r d).0 among),
              same,
            ))
            _ run.origin;
      complete = λ clean d may.
          All-at _ (find_all_dismissals r) d (run.complete clean)
            ((find_all_dismissals-iff_IsDismissed r d).1 may.stale)
            (may-is_dismissible strict r d may);
    }
