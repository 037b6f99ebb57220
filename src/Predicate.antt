-- ===== src/Predicate.antt =====
-- policy/predicate: the conditions that rules and the disapproval policy are made of.
pub mod Files
pub mod Author
pub mod Text
pub mod Status
pub mod Properties
pub mod Signature
pub mod Lines
pub mod Stability
use policy_bot.Prelude.{String, Bool, Option, none, some, List, [], ◌∷◌, map, Attempt, MapOrder}
use policy_bot.Pull.{Context}
use policy_bot.Common.Patterns.{Regexp}
use policy_bot.Common.Actors.{Actors}
use policy_bot.Common.Trigger.{
  Trigger, trigger_static, trigger_commit, trigger_label, trigger_status, trigger_pull_request,
}
use policy_bot.Common.Result.{PredicateResult}
use policy_bot.Predicate.Files.{
  ChangedFiles, PathPatterns, changed_files as changed_files_evaluate,
  only_changed_files as only_changed_files_evaluate, no_changed_files as no_changed_files_evaluate,
  file_added_pred, file_not_added_pred, file_deleted_pred, file_not_deleted_pred,
}
use policy_bot.Predicate.Author
use policy_bot.Predicate.Text
use policy_bot.Predicate.Text.{MatchPatterns}
use policy_bot.Predicate.Status
use policy_bot.Predicate.Status.{HasStatus, HasWorkflowResult}
use policy_bot.Predicate.Properties
use policy_bot.Predicate.Properties.{PropertyPatterns}
use policy_bot.Predicate.Signature
use policy_bot.Predicate.Lines.{ModifiedLines, modified_lines as modified_lines_evaluate}

-- The interface `Predicate`: a constructor for each type that implements it.
pub data Predicate : Type 0 where
  changed_files : ChangedFiles → Predicate
  no_changed_files : ChangedFiles → Predicate
  only_changed_files : PathPatterns → Predicate
  file_added : PathPatterns → Predicate
  file_not_added : PathPatterns → Predicate
  file_deleted : PathPatterns → Predicate
  file_not_deleted : PathPatterns → Predicate
  has_author_in : Actors → Predicate
  has_contributor_in : Actors → Predicate
  only_has_contributors_in : Actors → Predicate
  author_is_only_contributor : Bool → Predicate
  targets_branch : Regexp → Predicate
  from_branch : Regexp → Predicate
  modified_lines : ModifiedLines → Predicate
  has_status : HasStatus → Predicate
  has_successful_status : List String → Predicate
  has_workflow_result : HasWorkflowResult → Predicate
  has_labels : List String → Predicate
  repository : MatchPatterns → Predicate
  title : MatchPatterns → Predicate
  has_valid_signatures : Bool → Predicate
  has_valid_signatures_by : Actors → Predicate
  has_valid_signatures_by_keys : List String → Predicate
  custom_property_is_null : List String → Predicate
  custom_property_is_not_null : List String → Predicate
  custom_property_matches_any_of : PropertyPatterns → Predicate
  custom_property_matches_none_of : PropertyPatterns → Predicate

-- The order is that of the map iterations in the signature predicates.
unfoldable pub evaluate : MapOrder String → Predicate → Context → Attempt PredicateResult
evaluate order (changed_files p) ctx = changed_files_evaluate p ctx
evaluate order (no_changed_files p) ctx = no_changed_files_evaluate p ctx
evaluate order (only_changed_files p) ctx = only_changed_files_evaluate p ctx
evaluate order (file_added p) ctx = file_added_pred p ctx
evaluate order (file_not_added p) ctx = file_not_added_pred p ctx
evaluate order (file_deleted p) ctx = file_deleted_pred p ctx
evaluate order (file_not_deleted p) ctx = file_not_deleted_pred p ctx
evaluate order (has_author_in p) ctx = Author.has_author_in p ctx
evaluate order (has_contributor_in p) ctx = Author.has_contributor_in p ctx
evaluate order (only_has_contributors_in p) ctx = Author.only_has_contributors_in p ctx
evaluate order (author_is_only_contributor p) ctx = Author.author_is_only_contributor p ctx
evaluate order (targets_branch p) ctx = Text.targets_branch p ctx
evaluate order (from_branch p) ctx = Text.from_branch p ctx
evaluate order (modified_lines p) ctx = modified_lines_evaluate p ctx
evaluate order (has_status p) ctx = Status.has_status p ctx
evaluate order (has_successful_status p) ctx = Status.has_successful_status p ctx
evaluate order (has_workflow_result p) ctx = Status.has_workflow_result p ctx
evaluate order (has_labels p) ctx = Text.has_labels p ctx
evaluate order (repository p) ctx = Text.repository p ctx
evaluate order (title p) ctx = Text.title p ctx
evaluate order (has_valid_signatures p) ctx = Signature.has_valid_signatures p ctx
evaluate order (has_valid_signatures_by p) ctx = Signature.has_valid_signatures_by order p ctx
evaluate order (has_valid_signatures_by_keys p) ctx =
    Signature.has_valid_signatures_by_keys order p ctx
evaluate order (custom_property_is_null p) ctx = Properties.custom_property_is_null p ctx
evaluate order (custom_property_is_not_null p) ctx = Properties.custom_property_is_not_null p ctx
evaluate order (custom_property_matches_any_of p) ctx =
    Properties.custom_property_matches_any_of p ctx
evaluate order (custom_property_matches_none_of p) ctx =
    Properties.custom_property_matches_none_of p ctx

unfoldable pub trigger : Predicate → Trigger
trigger (changed_files p) = trigger_commit
trigger (no_changed_files p) = trigger_commit
trigger (only_changed_files p) = trigger_commit
trigger (file_added p) = trigger_commit
trigger (file_not_added p) = trigger_commit
trigger (file_deleted p) = trigger_commit
trigger (file_not_deleted p) = trigger_commit
trigger (has_author_in p) = trigger_static
trigger (has_contributor_in p) = trigger_commit
trigger (only_has_contributors_in p) = trigger_commit
trigger (author_is_only_contributor p) = trigger_commit
trigger (targets_branch p) = trigger_pull_request
trigger (from_branch p) = trigger_static
trigger (modified_lines p) = trigger_commit
trigger (has_status p) = trigger_status
trigger (has_successful_status p) = trigger_status
trigger (has_workflow_result p) = trigger_status
trigger (has_labels p) = trigger_label
trigger (repository p) = trigger_pull_request
trigger (title p) = trigger_pull_request
trigger (has_valid_signatures p) = trigger_commit
trigger (has_valid_signatures_by p) = trigger_commit
trigger (has_valid_signatures_by_keys p) = trigger_commit
trigger (custom_property_is_null p) = trigger_static
trigger (custom_property_is_not_null p) = trigger_static
trigger (custom_property_matches_any_of p) = trigger_static
trigger (custom_property_matches_none_of p) = trigger_static

pub record Predicates : Type 0 where
  pub changed_files : Option ChangedFiles
  pub no_changed_files : Option ChangedFiles
  pub only_changed_files : Option PathPatterns
  pub file_added : Option PathPatterns
  pub file_not_added : Option PathPatterns
  pub file_deleted : Option PathPatterns
  pub file_not_deleted : Option PathPatterns
  pub has_author_in : Option Actors
  pub has_contributor_in : Option Actors
  pub only_has_contributors_in : Option Actors
  pub author_is_only_contributor : Option Bool
  pub targets_branch : Option Regexp
  pub from_branch : Option Regexp
  pub modified_lines : Option ModifiedLines
  pub has_status : Option HasStatus
  pub has_successful_status : Option (List String)
  pub has_workflow_result : Option HasWorkflowResult
  pub has_labels : Option (List String)
  pub repository : Option MatchPatterns
  pub title : Option MatchPatterns
  pub has_valid_signatures : Option Bool
  pub has_valid_signatures_by : Option Actors
  pub has_valid_signatures_by_keys : Option (List String)
  pub custom_property_is_null : Option (List String)
  pub custom_property_is_not_null : Option (List String)
  pub custom_property_matches_any_of : Option PropertyPatterns
  pub custom_property_matches_none_of : Option PropertyPatterns

abbrev pub no_predicates : Predicates
no_predicates = record {
  changed_files = none;
  no_changed_files = none;
  only_changed_files = none;
  file_added = none;
  file_not_added = none;
  file_deleted = none;
  file_not_deleted = none;
  has_author_in = none;
  has_contributor_in = none;
  only_has_contributors_in = none;
  author_is_only_contributor = none;
  targets_branch = none;
  from_branch = none;
  modified_lines = none;
  has_status = none;
  has_successful_status = none;
  has_workflow_result = none;
  has_labels = none;
  repository = none;
  title = none;
  has_valid_signatures = none;
  has_valid_signatures_by = none;
  has_valid_signatures_by_keys = none;
  custom_property_is_null = none;
  custom_property_is_not_null = none;
  custom_property_matches_any_of = none;
  custom_property_matches_none_of = none;
}

-- `if p.F != nil { ps = append(ps, p.F) }`, before the rest.
abbrev pub add_if {ℓ} : {A : Type ℓ} → (A → Predicate) → Option A → List Predicate → List Predicate
add_if f none ps = ps
add_if f (some a) ps = f a ∷ ps

abbrev pub repository_predicates : Predicates → List Predicate → List Predicate
repository_predicates p rest = add_if has_valid_signatures p.has_valid_signatures (
    add_if has_valid_signatures_by p.has_valid_signatures_by (
      add_if has_valid_signatures_by_keys p.has_valid_signatures_by_keys (
        add_if custom_property_is_not_null p.custom_property_is_not_null (
          add_if custom_property_is_null p.custom_property_is_null (
            add_if custom_property_matches_any_of p.custom_property_matches_any_of
              (add_if custom_property_matches_none_of p.custom_property_matches_none_of rest))))))

abbrev pub check_predicates : Predicates → List Predicate → List Predicate
check_predicates p rest = add_if has_status p.has_status (
    add_if has_successful_status p.has_successful_status (
      add_if has_workflow_result p.has_workflow_result (
        add_if has_labels p.has_labels
          (add_if repository p.repository (add_if title p.title rest)))))

abbrev pub pull_predicates : Predicates → List Predicate → List Predicate
pull_predicates p rest = add_if has_author_in p.has_author_in (
    add_if has_contributor_in p.has_contributor_in (
      add_if only_has_contributors_in p.only_has_contributors_in (
        add_if author_is_only_contributor p.author_is_only_contributor (
          add_if targets_branch p.targets_branch
            (add_if from_branch p.from_branch (add_if modified_lines p.modified_lines rest))))))

abbrev pub file_predicates : Predicates → List Predicate → List Predicate
file_predicates p rest = add_if changed_files p.changed_files (
    add_if no_changed_files p.no_changed_files (
      add_if only_changed_files p.only_changed_files (
        add_if file_added p.file_added (
          add_if file_not_added p.file_not_added (
            add_if file_deleted p.file_deleted
              (add_if file_not_deleted p.file_not_deleted rest))))))

unfoldable pub predicates : Predicates → List Predicate
predicates p =
    file_predicates p (pull_predicates p (check_predicates p (repository_predicates p [])))
