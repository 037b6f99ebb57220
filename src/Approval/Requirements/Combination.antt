-- ===== src/Approval/Requirements/Combination.antt =====
-- What `or` and `and` make of their children's results.
use policy_bot.Prelude.{
  ℕ, ◌+◌, ◌≡◌, refl, ap, ◌∙◌, Bool, true, false, not, ◌&&◌, ◌||◌, Option, none, some, List, [], ◌∷◌,
  arith, ltb, ◌==◌, if◌then◌else◌, length, any, keep, Error,
}
use policy_bot.Common.Result.{
  Report, Results, no_results, and_result, report, EvaluationStatus, skipped, pending, approved,
  disapproved, status_eq,
}
use policy_bot.Approval.Requirements.{
  Tally, start, count_status, count_child, tally, or_report, and_report, or_result, and_result_of,
}

-- The reports of the children, first to last.
abbrev pub reports : Results → List Report
reports no_results = []
reports (and_result r rs) = report r ∷ reports rs

abbrev pub is_none {ℓ} : {A : Type ℓ} → Option A → Bool
is_none none = true
is_none (some a) = false

-- A child without an error that has the status.
abbrev pub comes_to : EvaluationStatus → Report → Bool
comes_to s r = is_none r.error && status_eq r.status s

abbrev pub number : EvaluationStatus → List Report → ℕ
number s rs = length (keep (comes_to s) rs)

-- The error of the last child that has one.
abbrev pub last_error : List Report → Option Error
last_error [] = none
last_error (r ∷ rs) = elim (last_error rs) [ some e ↦ some e | none ↦ r.error ]

abbrev or_else {ℓ} : {A : Type ℓ} → Option A → Option A → Option A
or_else (some a) o = some a
or_else none o = o

record IsTally (t : Tally) (rs : List Report) (u : Tally) : Type 0 where
  error : u.error ≡ or_else (last_error rs) t.error
  approvals : u.approved_count ≡ t.approved_count + number approved rs
  pendings : u.pending_count ≡ t.pending_count + number pending rs

or_else-later_none :
    (o p : Option Error) → or_else o p ≡ or_else (elim o [ some e ↦ some e | none ↦ none ]) p
or_else-later_none none p = refl
or_else-later_none (some e) p = refl

or_else-later_some :
    (o p : Option Error) (x : Error)
    → or_else o (some x) ≡ or_else (elim o [ some e ↦ some e | none ↦ some x ]) p
or_else-later_some none p x = refl
or_else-later_some (some e) p x = refl

IsTally-step :
    (t u : Tally) (r : Report) (rs : List Report) (o : Option Error) (s : EvaluationStatus)
    → IsTally (count_child (record r { error = o; status = s }) t) rs u
    → IsTally t (record r { error = o; status = s } ∷ rs) u
unfolding count_child count_status status_eq
IsTally-step t u r rs none approved h = record {
  error = h.error ∙ or_else-later_none (last_error rs) t.error;
  approvals = omega (arith, h.approvals);
  pendings = h.pendings;
}
IsTally-step t u r rs none pending h = record {
  error = h.error ∙ or_else-later_none (last_error rs) t.error;
  approvals = h.approvals;
  pendings = omega (arith, h.pendings);
}
IsTally-step t u r rs none skipped h = record {
  error = h.error ∙ or_else-later_none (last_error rs) t.error;
  approvals = h.approvals;
  pendings = h.pendings;
}
IsTally-step t u r rs none disapproved h = record {
  error = h.error ∙ or_else-later_none (last_error rs) t.error;
  approvals = h.approvals;
  pendings = h.pendings;
}
IsTally-step t u r rs (some e) s h = record {
  error = h.error ∙ or_else-later_some (last_error rs) t.error e;
  approvals = h.approvals;
  pendings = h.pendings;
}

tally-IsTally : (rs : Results) (t : Tally) → IsTally t (reports rs) (tally rs t)
unfolding tally
tally-IsTally no_results t = record {
  error = refl;
  approvals = omega arith;
  pendings = omega arith;
}
tally-IsTally (and_result r rs) t =
    IsTally-step t (tally rs (count_child (report r) t)) (report r) (reports rs) (report r).error
      (report r).status (tally-IsTally rs (count_child (report r) t))

or_else-none : (o : Option Error) → or_else o none ≡ o
or_else-none none = refl
or_else-none (some e) = refl

number-any : (s : EvaluationStatus) (l : List Report) → ltb 0 (number s l) ≡ any (comes_to s) l
number-any s [] = refl
number-any s (r ∷ l) = by_test (comes_to s r) (number-any s l)
  where
    by_test :
        (b : Bool)
        → ltb 0 (number s l) ≡ any (comes_to s) l
        → ltb 0 (length (if b then r ∷ keep (comes_to s) l else keep (comes_to s) l))
          ≡ (b || any (comes_to s) l)
    by_test true h = ground arith
    by_test false h = h

abbrev or_status : Bool → Bool → EvaluationStatus
or_status some_approved some_pending =
    if some_approved then approved else if some_pending then pending else skipped

or_report-lem :
    (t : Tally) (some_approved some_pending : Bool)
    → ltb 0 t.approved_count ≡ some_approved
    → ltb 0 t.pending_count ≡ some_pending
    → ((or_report t).status ≡ or_status some_approved some_pending)
      × ((or_report t).error ≡ (if some_approved || some_pending then none else t.error))
unfolding or_report
or_report-lem t true p a_eq p_eq = rw a_eq (refl, refl)
or_report-lem t false true a_eq p_eq = rw (a_eq, p_eq) (refl, refl)
or_report-lem t false false a_eq p_eq = rw (a_eq, p_eq) (refl, refl)

abbrev and_status : Bool → Bool → EvaluationStatus
and_status some_approved some_pending =
    if some_pending then pending else if some_approved then approved else skipped

zero_test : (n : ℕ) → (n == 0) ≡ not (ltb 0 n)
zero_test n = ground arith

and_report-lem :
    (t : Tally) (some_approved some_pending : Bool)
    → ltb 0 t.approved_count ≡ some_approved
    → ltb 0 t.pending_count ≡ some_pending
    → ((and_report t).status ≡ and_status some_approved some_pending)
      × ((and_report t).error ≡ t.error)
unfolding and_report
and_report-lem t true true a_eq p_eq = rw (zero_test t.pending_count, a_eq, p_eq) (refl, refl)
and_report-lem t true false a_eq p_eq = rw (zero_test t.pending_count, a_eq, p_eq) (refl, refl)
and_report-lem t false true a_eq p_eq = rw (a_eq, p_eq) (refl, refl)
and_report-lem t false false a_eq p_eq = rw (a_eq, p_eq) (refl, refl)

module _ (rs : Results) where
  abbrev total : Tally
  total = tally rs start

  some_approved : ltb 0 total.approved_count ≡ any (comes_to approved) (reports rs)
  some_approved =
      let count = (tally-IsTally rs start).approvals in
      let same : total.approved_count ≡ number approved (reports rs) = omega (arith, count) in
      ap (ltb 0) same ∙ number-any approved (reports rs)

  some_pending : ltb 0 total.pending_count ≡ any (comes_to pending) (reports rs)
  some_pending =
      let count = (tally-IsTally rs start).pendings in
      let same : total.pending_count ≡ number pending (reports rs) = omega (arith, count) in
      ap (ltb 0) same ∙ number-any pending (reports rs)

  total_error : total.error ≡ last_error (reports rs)
  total_error = (tally-IsTally rs start).error ∙ or_else-none (last_error (reports rs))

  -- An `or` is approved if a child without an error is, else pending if such a child is, else
  -- skipped. Only in the last case does it have an error, which is that of the last child with one.
  pub or_result-lem :
      ((report (or_result rs)).status ≡ (
        if any (comes_to approved) (reports rs)
        then approved
        else if any (comes_to pending) (reports rs)
        then pending
        else skipped))
      × ((report (or_result rs)).error ≡ (
          if any (comes_to approved) (reports rs) || any (comes_to pending) (reports rs)
          then none
          else last_error (reports rs)))
  unfolding or_result
  or_result-lem = rw (← total_error) (or_report-lem total _ _ some_approved some_pending)

  -- An `and` is pending if a child without an error is, else approved if such a child is, else
  -- skipped. Its error is that of the last child with one.
  pub and_result_of-lem :
      ((report (and_result_of rs)).status ≡ (
        if any (comes_to pending) (reports rs)
        then pending
        else if any (comes_to approved) (reports rs)
        then approved
        else skipped))
      × ((report (and_result_of rs)).error ≡ last_error (reports rs))
  unfolding and_result_of
  and_result_of-lem = rw (← total_error) (and_report-lem total _ _ some_approved some_pending)
