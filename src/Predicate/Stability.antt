-- ===== src/Predicate/Stability.antt =====
-- A predicate's value changes only on the events that its `Trigger` names.
use policy_bot.Prelude.{String, ◌≡◌, refl, true, Option, none, some, List, [], ◌∷◌, MapOrder}
use policy_bot.Pull.{Commit, Context}
use policy_bot.Common.Actors.{Actors}
use policy_bot.Common.Actors.Stability.{SameMembership, is_actor_same}
use policy_bot.Common.Trigger.Inclusion.{Includes}
use policy_bot.Common.Trigger.{
  Trigger, trigger_commit, trigger_comment, trigger_review, trigger_label, trigger_status,
  trigger_pull_request, matches,
}
use policy_bot.Common.Result.{PredicateResult}
use policy_bot.Predicate.Files.{
  changed_files as changed_files_evaluate, only_changed_files as only_changed_files_evaluate,
  no_changed_files as no_changed_files_evaluate, file_added_pred, file_not_added_pred,
  file_deleted_pred, file_not_deleted_pred,
}
use policy_bot.Predicate.Author
use policy_bot.Predicate.Text
use policy_bot.Predicate.Status
use policy_bot.Predicate.Properties
use policy_bot.Predicate.Signature
use policy_bot.Predicate.Lines.{modified_lines as modified_lines_evaluate}
use policy_bot.Predicate.{
  Predicate, changed_files, no_changed_files, only_changed_files, file_added, file_not_added,
  file_deleted, file_not_deleted, has_author_in, has_contributor_in, only_has_contributors_in,
  author_is_only_contributor, targets_branch, from_branch, modified_lines, has_status,
  has_successful_status, has_workflow_result, has_labels, repository, title, has_valid_signatures,
  has_valid_signatures_by, has_valid_signatures_by_keys, custom_property_is_null,
  custom_property_is_not_null, custom_property_matches_any_of, custom_property_matches_none_of,
  evaluate, trigger,
}

-- What no event changes: memberships, the author, the repository and its properties, and the source
-- branch.
pub record SameStatic (c d : Context) : Type 0 where
  pub membership : SameMembership c d
  pub author : c.author ≡ d.author
  pub owner : c.repository_owner ≡ d.repository_owner
  pub name : c.repository_name ≡ d.repository_name
  pub properties : c.repository_custom_properties ≡ d.repository_custom_properties
  pub head_branch : c.head_branch ≡ d.head_branch

pub record SameCommits (c d : Context) : Type 0 where
  pub changed_files : c.changed_files ≡ d.changed_files
  pub commits : c.commits ≡ d.commits
  pub head_sha : c.head_sha ≡ d.head_sha
  pub pushed_at : (sha : String) → c.pushed_at sha ≡ d.pushed_at sha

pub record SameStatuses (c d : Context) : Type 0 where
  pub statuses : c.latest_statuses ≡ d.latest_statuses
  pub workflow_runs : c.latest_workflow_runs ≡ d.latest_workflow_runs

pub record SamePullRequest (c d : Context) : Type 0 where
  pub title : c.title ≡ d.title
  pub body : c.body ≡ d.body
  pub base_branch : c.base_branch ≡ d.base_branch

-- Two contexts agree on what no event changes, and on the parts that the events of `t` change.
pub record Agree (t : Trigger) (c d : Context) : Type 0 where
  pub static : SameStatic c d
  pub on_commit : matches t trigger_commit ≡ true → SameCommits c d
  pub on_comment : matches t trigger_comment ≡ true → c.comments ≡ d.comments
  pub on_review : matches t trigger_review ≡ true → c.reviews ≡ d.reviews
  pub on_label : matches t trigger_label ≡ true → c.labels ≡ d.labels
  pub on_status : matches t trigger_status ≡ true → SameStatuses c d
  pub on_pull_request : matches t trigger_pull_request ≡ true → SamePullRequest c d

pub Agree-part : {t u : Trigger} {c d : Context} → Includes t u → Agree t c d → Agree u c d
Agree-part inc h = record {
  static = h.static;
  on_commit = λ m. h.on_commit (inc _ m);
  on_comment = λ m. h.on_comment (inc _ m);
  on_review = λ m. h.on_review (inc _ m);
  on_label = λ m. h.on_label (inc _ m);
  on_status = λ m. h.on_status (inc _ m);
  on_pull_request = λ m. h.on_pull_request (inc _ m);
}

module _ {c d : Context} (static : SameStatic c d) where
  contributors_same :
      (commits : List Commit) → Author.contributors c commits ≡ Author.contributors d commits
  unfolding Author.contributors
  contributors_same commits = simp static.author

  only_members_same :
      (a : Actors) (r : PredicateResult) (l us : List String)
      → Author.only_members a c r l us ≡ Author.only_members a d r l us
  unfolding Author.only_has_contributors_in
  only_members_same a r l [] = refl
  only_members_same a r l (u ∷ us) =
      simp (is_actor_same static.membership u a, only_members_same a r l us)

  some_member_same :
      (a : Actors) (r : PredicateResult) (l us : List String)
      → Author.some_member a c r l us ≡ Author.some_member a d r l us
  unfolding Author.has_contributor_in
  some_member_same a r l [] = refl
  some_member_same a r l (u ∷ us) =
      simp (is_actor_same static.membership u a, some_member_same a r l us)

  signers_same :
      (a : Actors) (r : PredicateResult) (l us : List String)
      → Signature.signers_loop a c r l us ≡ Signature.signers_loop a d r l us
  unfolding Signature.has_valid_signatures_by
  signers_same a r l [] = refl
  signers_same a r l (u ∷ us) = simp (is_actor_same static.membership u a, signers_same a r l us)

  after_commits_same :
      (order : MapOrder String) (a : Actors) (commits : List Commit) (o : Option Commit)
      → Signature.after_commits order a c commits o ≡ Signature.after_commits order a d commits o
  unfolding Signature.after_commits
  after_commits_same order a commits none = simp (signers_same a)
  after_commits_same order a commits (some k) = refl

  signed_by_same :
      SameCommits c d
      → (order : MapOrder String) (a : Actors)
      → Signature.has_valid_signatures_by order a c ≡ Signature.has_valid_signatures_by order a d
  unfolding Signature.has_valid_signatures_by
  signed_by_same same order a = simp (same.commits, after_commits_same order a)

-- Between two contexts that agree on what no event changes and on what the events of its trigger
-- change, a predicate evaluates to the same result or the same error.
pub evaluate_stable :
    (order : MapOrder String) (p : Predicate) (c d : Context)
    → Agree (trigger p) c d
    → evaluate order p c ≡ evaluate order p d
unfolding evaluate trigger matches
evaluate_stable order (changed_files p) c d h =
    unfold changed_files_evaluate in simp (h.on_commit refl).changed_files
evaluate_stable order (no_changed_files p) c d h =
    unfold no_changed_files_evaluate in simp (h.on_commit refl).changed_files
evaluate_stable order (only_changed_files p) c d h =
    unfold only_changed_files_evaluate in simp (h.on_commit refl).changed_files
evaluate_stable order (file_added p) c d h =
    unfold file_added_pred in simp (h.on_commit refl).changed_files
evaluate_stable order (file_not_added p) c d h =
    unfold file_not_added_pred in simp (h.on_commit refl).changed_files
evaluate_stable order (file_deleted p) c d h =
    unfold file_deleted_pred in simp (h.on_commit refl).changed_files
evaluate_stable order (file_not_deleted p) c d h =
    unfold file_not_deleted_pred in simp (h.on_commit refl).changed_files
evaluate_stable order (has_author_in p) c d h =
    unfold Author.has_author_in in
    simp h.static.author (simp (is_actor_same h.static.membership d.author p))
evaluate_stable order (has_contributor_in p) c d h =
    unfold Author.has_contributor_in in
    simp ((h.on_commit refl).commits, contributors_same h.static, some_member_same h.static p)
evaluate_stable order (only_has_contributors_in p) c d h =
    unfold Author.only_has_contributors_in in
    simp ((h.on_commit refl).commits, contributors_same h.static, only_members_same h.static p)
evaluate_stable order (author_is_only_contributor p) c d h =
    unfold Author.author_is_only_contributor in simp ((h.on_commit refl).commits, h.static.author)
evaluate_stable order (targets_branch p) c d h =
    unfold Text.targets_branch in simp (h.on_pull_request refl).base_branch
evaluate_stable order (from_branch p) c d h = unfold Text.from_branch in simp h.static.head_branch
evaluate_stable order (modified_lines p) c d h =
    unfold modified_lines_evaluate in simp (h.on_commit refl).changed_files
evaluate_stable order (has_status p) c d h =
    unfold Status.has_status in simp (h.on_status refl).statuses
evaluate_stable order (has_successful_status p) c d h =
    unfold Status.has_successful_status in simp (h.on_status refl).statuses
evaluate_stable order (has_workflow_result p) c d h =
    unfold Status.has_workflow_result in simp (h.on_status refl).workflow_runs
evaluate_stable order (has_labels []) c d h = unfold Text.has_labels in refl
evaluate_stable order (has_labels (l ∷ ls)) c d h = unfold Text.has_labels in simp (h.on_label refl)
evaluate_stable order (repository p) c d h =
    unfold Text.repository in simp (h.static.owner, h.static.name)
evaluate_stable order (title p) c d h = unfold Text.title in simp (h.on_pull_request refl).title
evaluate_stable order (has_valid_signatures p) c d h =
    unfold Signature.has_valid_signatures in simp (h.on_commit refl).commits
evaluate_stable order (has_valid_signatures_by p) c d h =
    signed_by_same h.static (h.on_commit refl) order p
evaluate_stable order (has_valid_signatures_by_keys p) c d h =
    unfold Signature.has_valid_signatures_by_keys in simp (h.on_commit refl).commits
evaluate_stable order (custom_property_is_null p) c d h =
    unfold Properties.custom_property_is_null in simp h.static.properties
evaluate_stable order (custom_property_is_not_null p) c d h =
    unfold Properties.custom_property_is_not_null in simp h.static.properties
evaluate_stable order (custom_property_matches_any_of p) c d h =
    unfold Properties.custom_property_matches_any_of in simp h.static.properties
evaluate_stable order (custom_property_matches_none_of p) c d h =
    unfold Properties.custom_property_matches_none_of in simp h.static.properties
