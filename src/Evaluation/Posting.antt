-- ===== src/Evaluation/Posting.antt =====
-- The statuses that are posted for a result.
use policy_bot.Prelude.{
  String, ◌≡◌, refl, ◌↔◌, Bool, true, false, Option, none, some, List, [], ◌∷◌, str_eq,
  if◌then◌else◌, any, All, Error,
}
use policy_bot.Common.Result.{
  Result, EvaluationStatus, skipped, pending, approved, disapproved, report,
}
use policy_bot.Evaluation.{
  RepoStatus, EvalContext, status_of, insecure_copy, deliver, post_status, posted_status, evaluated,
}

-- A posted status has the state that is asked for.
pub post_status-state :
    (ec : EvalContext) (state message : String)
    → All (λ s. s.state ≡ state) (post_status ec state message).sent
unfolding post_status
post_status-state ec state message = delivered ec.skip_post_status ec.is_open
  where
    copied :
        (insecure : Bool) (s : RepoStatus)
        → s.state ≡ state
        → All
            (λ x. x.state ≡ state)
            (if insecure then record s { context = ec.options.status_check_context } ∷ [] else [])
    copied true s e = (e, tt)
    copied false s e = tt

    delivered :
        (skip is_open : Bool)
        → All (λ s. s.state ≡ state) (deliver skip is_open ec (status_of ec state message)).sent
    delivered true o = unfold deliver in tt
    delivered false false = unfold deliver in tt
    delivered false true =
        unfold deliver insecure_copy status_of in
        (refl, copied ec.options.post_insecure_status_checks (status_of ec state message) refl)

abbrev pub is_success : RepoStatus → Bool
is_success s = str_eq s.state "success"

-- A list of statuses with another state has no success.
no_success :
    (state : String) (ss : List RepoStatus)
    → str_eq state "success" ≡ false
    → All (λ s. s.state ≡ state) ss
    → any is_success ss ≡ false
no_success state [] h q = refl
no_success state (s ∷ ss) h (e, q) =
    let other : str_eq s.state "success" ≡ false = rw e h in
    rw (other, no_success state ss h q) refl

-- A success that is asked for is sent if statuses are posted and the pull request is open.
abbrev pub IsDelivered : EvalContext → Type 0
IsDelivered ec = (ec.skip_post_status ≡ false) × (ec.is_open ≡ true)

pub post_status-success :
    (ec : EvalContext) (message : String)
    → (any is_success (post_status ec "success" message).sent ≡ true) ↔ IsDelivered ec
unfolding post_status
post_status-success ec message = delivered ec.skip_post_status ec.is_open
  where
    delivered :
        (skip is_open : Bool)
        → (any is_success (deliver skip is_open ec (status_of ec "success" message)).sent ≡ true)
          ↔ ((skip ≡ false) × (is_open ≡ true))
    delivered true o = unfold deliver in (λ h. absurd cc, λ h. absurd cc)
    delivered false false = unfold deliver in (λ h. absurd cc, λ h. absurd cc)
    delivered false true = unfold deliver status_of in (λ h. (refl, refl), λ h. refl)

pub other_status :
    (ec : EvalContext) (state message : String)
    → str_eq state "success" ≡ false
    → any is_success (post_status ec state message).sent ≡ true
    → ⊥
other_status ec state message other sent =
    let none =
      no_success state (post_status ec state message).sent other
        (post_status-state ec state message) in
    cc

posted_status-success :
    (ec : EvalContext) (status : EvaluationStatus) (message : String)
    → any is_success (posted_status ec status message).sent ≡ true
    → (status ≡ approved) × IsDelivered ec
unfolding posted_status
posted_status-success ec approved message sent = (refl, (post_status-success ec message).0 sent)
posted_status-success ec disapproved message sent = absurd (other_status ec "failure" _ refl sent)
posted_status-success ec pending message sent = absurd (other_status ec "pending" _ refl sent)
posted_status-success ec skipped message sent = absurd (other_status ec "error" _ refl sent)

pub evaluated-success :
    (ec : EvalContext) (r : Result) (o : Option Error)
    → any is_success (evaluated ec r o).1.sent ≡ true
    → (o ≡ none) × ((report r).status ≡ approved) × IsDelivered ec
unfolding evaluated
evaluated-success ec r (some e) sent = absurd (other_status ec "error" _ refl sent)
evaluated-success ec r none sent =
    let (a, d) = posted_status-success ec (report r).status (report r).status_description sent in
    (refl, a, d)
