-- ===== src/Relevance/Names.antt =====
-- Single predicates in two contexts that differ in a status or a workflow run.
use policy_bot.Prelude.{
  String, ◌≡◌, refl, ap, Bool, true, false, not, Option, List, [], ◌∷◌, if◌then◌else◌, keep, All,
  contains, get, Attempt, ok, err, ◌>>=◌, wrap, MapOrder,
}
use policy_bot.Pull.{Context}
use policy_bot.Common.Trigger.{Trigger, trigger_status, matches}
use policy_bot.Predicate.{
  Predicate, changed_files, no_changed_files, only_changed_files, file_added, file_not_added,
  file_deleted, file_not_deleted, has_author_in, has_contributor_in, only_has_contributors_in,
  author_is_only_contributor, targets_branch, from_branch, modified_lines, has_status,
  has_successful_status, has_workflow_result, has_labels, repository, title, has_valid_signatures,
  has_valid_signatures_by, has_valid_signatures_by_keys, custom_property_is_null,
  custom_property_is_not_null, custom_property_matches_any_of, custom_property_matches_none_of,
  evaluate, trigger,
}
use policy_bot.Predicate.Status
use policy_bot.Predicate.Status.{
  HasStatus, HasWorkflowResult, allowed, or_empty, is_some, failing_workflows,
}
use policy_bot.Predicate.Stability.{
  SameStatic, SameCommits, SamePullRequest, Agree, evaluate_stable,
}

-- Two answers with the same error, or with maps that have the same values at the keys that matter.
module _ {V : Type 0} where
  abbrev pub SameOn :
      (String → Bool) → Attempt (List (String × V)) → Attempt (List (String × V)) → Type 0
  SameOn matters (ok m) (ok n) = (s : String) → matters s ≡ true → get s m ≡ get s n
  SameOn matters (err e) (err f) = e ≡ f
  SameOn matters (ok m) (err f) = ⊥
  SameOn matters (err e) (ok n) = ⊥

  answer_same :
      {A : Type 0} (matters : String → Bool) (msg : String) (x y : Attempt (List (String × V)))
      (f : List (String × V) → Attempt A)
      → SameOn matters x y
      → ((m n : List (String × V))
          → ((s : String) → matters s ≡ true → get s m ≡ get s n)
          → f m ≡ f n)
      → (wrap msg x >>= f) ≡ (wrap msg y >>= f)
  answer_same matters msg (ok m) (ok n) f same step = step m n same
  answer_same matters msg (err e) (err g) f same step = rw same refl
  answer_same matters msg (ok m) (err g) f same step = absurd same
  answer_same matters msg (err e) (ok n) f same step = absurd same

-- Two contexts that differ at most in the statuses of other checks and in the runs of other workflows.
pub record Similar (checks workflows : String → Bool) (c d : Context) : Type 0 where
  pub static : SameStatic c d
  pub commits : SameCommits c d
  pub comments : c.comments ≡ d.comments
  pub reviews : c.reviews ≡ d.reviews
  pub labels : c.labels ≡ d.labels
  pub pull_request : SamePullRequest c d
  pub statuses : SameOn checks c.latest_statuses d.latest_statuses
  pub workflow_runs : SameOn workflows c.latest_workflow_runs d.latest_workflow_runs

abbrev pub Every : (String → Bool) → List String → Type 0
Every matters names = All (λ s. matters s ≡ true) names

module _ (checks workflows : String → Bool) where
  -- Every check and every workflow that a predicate reads matters.
  abbrev pub ReadsOnly : Predicate → Type 0
  ReadsOnly (has_status p) = Every checks p.statuses
  ReadsOnly (has_successful_status p) = Every checks p
  ReadsOnly (has_workflow_result p) = Every workflows p.workflows
  ReadsOnly p = Unit

module _ (matters : String → Bool) {V : Type 0} (m n : List (String × V))
    (same : (s : String) → matters s ≡ true → get s m ≡ get s n) where
  keep_same :
      (p : Option V → Bool) (names : List String)
      → Every matters names
      → keep (λ s. p (get s m)) names ≡ keep (λ s. p (get s n)) names
  keep_same p [] h = refl
  keep_same p (s ∷ names) (q, h) =
      rw (same s q) (ap (λ r. if p (get s n) then s ∷ r else r) (keep_same p names h))

failing_same :
    (matters : String → Bool) (cs : List String) (m n : List (String × List String))
    → ((s : String) → matters s ≡ true → get s m ≡ get s n)
    → (names : List String) → Every matters names
    → failing_workflows cs m names ≡ failing_workflows cs n names
unfolding failing_workflows
failing_same matters cs m n same [] h = refl
failing_same matters cs m n same (s ∷ names) (q, h) =
    rw (same s q, failing_same matters cs m n same names h) refl

has_status_same :
    (checks : String → Bool) (p : HasStatus) (c d : Context)
    → Every checks p.statuses
    → SameOn checks c.latest_statuses d.latest_statuses
    → Status.has_status p c ≡ Status.has_status p d
unfolding Status.has_status
has_status_same checks p c d h same =
    answer_same checks _ c.latest_statuses d.latest_statuses _ same (λ m n on.
      rw
        (
          keep_same checks m n on (λ o. not (is_some o)) p.statuses h,
          keep_same checks m n on (λ o. not (contains (allowed p.conclusions) (or_empty o)))
              p.statuses h,
        )
        refl)

has_workflow_result_same :
    (workflows : String → Bool) (p : HasWorkflowResult) (c d : Context)
    → Every workflows p.workflows
    → SameOn workflows c.latest_workflow_runs d.latest_workflow_runs
    → Status.has_workflow_result p c ≡ Status.has_workflow_result p d
unfolding Status.has_workflow_result
has_workflow_result_same workflows p c d h same =
    answer_same workflows _ c.latest_workflow_runs d.latest_workflow_runs _ same (λ m n on.
      rw
        (
          keep_same workflows m n on (λ o. not (is_some o)) p.workflows h,
          failing_same workflows (allowed p.conclusions) m n on p.workflows h,
        )
        refl)

module _ {checks workflows : String → Bool} {c d : Context} (h : Similar checks workflows c d) where
  -- No event but that of a status matters.
  others : (t : Trigger) → matches t trigger_status ≡ false → Agree t c d
  others t no_status = record {
    static = h.static;
    on_commit = λ m. h.commits;
    on_comment = λ m. h.comments;
    on_review = λ m. h.reviews;
    on_label = λ m. h.labels;
    on_status = λ m. absurd (contradiction m);
    on_pull_request = λ m. h.pull_request;
  }
    where
      contradiction : matches t trigger_status ≡ true → ⊥
      contradiction m = cc

  pub evaluate-similar :
      (order : MapOrder String) (p : Predicate)
      → ReadsOnly checks workflows p
      → evaluate order p c ≡ evaluate order p d
  unfolding trigger matches
  evaluate-similar order (changed_files p) reads =
      evaluate_stable order (changed_files p) c d (others (trigger (changed_files p)) refl)
  evaluate-similar order (no_changed_files p) reads =
      evaluate_stable order (no_changed_files p) c d (others (trigger (no_changed_files p)) refl)
  evaluate-similar order (only_changed_files p) reads =
      evaluate_stable order (only_changed_files p) c d
        (others (trigger (only_changed_files p)) refl)
  evaluate-similar order (file_added p) reads =
      evaluate_stable order (file_added p) c d (others (trigger (file_added p)) refl)
  evaluate-similar order (file_not_added p) reads =
      evaluate_stable order (file_not_added p) c d (others (trigger (file_not_added p)) refl)
  evaluate-similar order (file_deleted p) reads =
      evaluate_stable order (file_deleted p) c d (others (trigger (file_deleted p)) refl)
  evaluate-similar order (file_not_deleted p) reads =
      evaluate_stable order (file_not_deleted p) c d (others (trigger (file_not_deleted p)) refl)
  evaluate-similar order (has_author_in p) reads =
      evaluate_stable order (has_author_in p) c d (others (trigger (has_author_in p)) refl)
  evaluate-similar order (has_contributor_in p) reads =
      evaluate_stable order (has_contributor_in p) c d
        (others (trigger (has_contributor_in p)) refl)
  evaluate-similar order (only_has_contributors_in p) reads =
      evaluate_stable order (only_has_contributors_in p) c d
        (others (trigger (only_has_contributors_in p)) refl)
  evaluate-similar order (author_is_only_contributor p) reads =
      evaluate_stable order (author_is_only_contributor p) c d
        (others (trigger (author_is_only_contributor p)) refl)
  evaluate-similar order (targets_branch p) reads =
      evaluate_stable order (targets_branch p) c d (others (trigger (targets_branch p)) refl)
  evaluate-similar order (from_branch p) reads =
      evaluate_stable order (from_branch p) c d (others (trigger (from_branch p)) refl)
  evaluate-similar order (modified_lines p) reads =
      evaluate_stable order (modified_lines p) c d (others (trigger (modified_lines p)) refl)
  evaluate-similar order (has_labels p) reads =
      evaluate_stable order (has_labels p) c d (others (trigger (has_labels p)) refl)
  evaluate-similar order (repository p) reads =
      evaluate_stable order (repository p) c d (others (trigger (repository p)) refl)
  evaluate-similar order (title p) reads =
      evaluate_stable order (title p) c d (others (trigger (title p)) refl)
  evaluate-similar order (has_valid_signatures p) reads =
      evaluate_stable order (has_valid_signatures p) c d
        (others (trigger (has_valid_signatures p)) refl)
  evaluate-similar order (has_valid_signatures_by p) reads =
      evaluate_stable order (has_valid_signatures_by p) c d
        (others (trigger (has_valid_signatures_by p)) refl)
  evaluate-similar order (has_valid_signatures_by_keys p) reads =
      evaluate_stable order (has_valid_signatures_by_keys p) c d
        (others (trigger (has_valid_signatures_by_keys p)) refl)
  evaluate-similar order (custom_property_is_null p) reads =
      evaluate_stable order (custom_property_is_null p) c d
        (others (trigger (custom_property_is_null p)) refl)
  evaluate-similar order (custom_property_is_not_null p) reads =
      evaluate_stable order (custom_property_is_not_null p) c d
        (others (trigger (custom_property_is_not_null p)) refl)
  evaluate-similar order (custom_property_matches_any_of p) reads =
      evaluate_stable order (custom_property_matches_any_of p) c d
        (others (trigger (custom_property_matches_any_of p)) refl)
  evaluate-similar order (custom_property_matches_none_of p) reads =
      evaluate_stable order (custom_property_matches_none_of p) c d
        (others (trigger (custom_property_matches_none_of p)) refl)
  evaluate-similar order (has_status p) reads =
      unfold evaluate in has_status_same checks p c d reads h.statuses
  evaluate-similar order (has_successful_status p) reads =
      unfold evaluate Status.has_successful_status in
      has_status_same checks (record { conclusions = []; statuses = p }) c d reads h.statuses
  evaluate-similar order (has_workflow_result p) reads =
      unfold evaluate in has_workflow_result_same workflows p c d reads h.workflow_runs
