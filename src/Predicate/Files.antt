-- ===== src/Predicate/Files.antt =====
-- policy/predicate/file.go: the predicates on the names of changed files.
use policy_bot.Prelude.{
  String, Bool, true, false, not, ◌||◌, List, [], ◌∷◌, ◌++◌, if◌then◌else◌, is_empty, Attempt, ok,
  ◌>>=◌, wrap, ◌<>◌,
}
use policy_bot.Pull.{FileStatus, file_modified, file_added, file_deleted, File, Context}
use policy_bot.Common.Patterns.{Regexp, Glob, any_matches, any_glob_matches, get_path_strings}
use policy_bot.Common.Result.{PredicateResult, no_predicate_result}

pub record ChangedFiles : Type 0 where
  pub paths : List Regexp
  pub globs : List Glob
  pub ignore_paths : List Regexp
  pub ignore_globs : List Glob

-- The two patterns that each of the other predicates has.
pub record PathPatterns : Type 0 where
  pub paths : List Regexp
  pub globs : List Glob

abbrev pub path_matches : List Regexp → List Glob → String → Bool
path_matches paths globs name = any_matches paths name || any_glob_matches globs name

-- `seen` is the slice of the names that the loop has passed.
changed_files_loop : ChangedFiles → PredicateResult → List String → List File → PredicateResult
changed_files_loop pred r seen [] = record r {
  values = seen;
  description = "No changed files match the required patterns";
  satisfied = false;
}
changed_files_loop pred r seen (f ∷ files) =
    let rest = changed_files_loop pred r (seen ++ f.filename ∷ []) files in
    if path_matches pred.ignore_paths pred.ignore_globs f.filename
    then rest
    else if path_matches pred.paths pred.globs f.filename
    then record r {
      values = f.filename ∷ [];
      description = f.filename <> " was changed";
      satisfied = true;
    }
    else rest

unfoldable pub changed_files : ChangedFiles → Context → Attempt PredicateResult
unfolding changed_files_loop
changed_files pred ctx = do
  files ← wrap "failed to list changed files" ctx.changed_files
  ok (
      changed_files_loop pred
        (record no_predicate_result {
          value_phrase = "changed files";
          condition_phrase = "match";
          conditions_map =
              ("path patterns", get_path_strings pred.paths pred.globs)
              ∷ ("while ignoring", get_path_strings pred.ignore_paths pred.ignore_globs)
              ∷ [];
        })
        [] files)

only_changed_files_loop : PathPatterns → PredicateResult → List String → List File → PredicateResult
only_changed_files_loop pred r seen [] = record r {
  values = seen;
  description = if is_empty seen then "No files changed" else "";
  satisfied = not (is_empty seen);
}
only_changed_files_loop pred r seen (f ∷ files) =
    let rest = only_changed_files_loop pred r (seen ++ f.filename ∷ []) files in
    if path_matches pred.paths pred.globs f.filename then rest else record r {
      values = f.filename ∷ [];
      description = "A changed file does not match the required pattern";
      satisfied = false;
    }

unfoldable pub only_changed_files : PathPatterns → Context → Attempt PredicateResult
unfolding only_changed_files_loop
only_changed_files pred ctx = do
  files ← wrap "failed to list changed files" ctx.changed_files
  ok (
      only_changed_files_loop pred
        (record no_predicate_result {
          value_phrase = "changed files";
          condition_phrase = "all match patterns";
          condition_values = get_path_strings pred.paths pred.globs;
        })
        [] files)

unfoldable pub no_changed_files : ChangedFiles → Context → Attempt PredicateResult
unfolding changed_files
no_changed_files pred ctx = do
  found ← changed_files pred ctx
  ok (record no_predicate_result {
    value_phrase = "changed files";
    condition_phrase = "match";
    reverse_skip_phrase = true;
    satisfied = not found.satisfied;
    values = found.values;
    conditions_map = found.conditions_map;
    description =
        if not found.satisfied
        then "No changed files match the specified patterns"
        else found.description;
  })

unfoldable pub file_status_eq : FileStatus → FileStatus → Bool
file_status_eq file_modified file_modified = true
file_status_eq file_added file_added = true
file_status_eq file_deleted file_deleted = true
file_status_eq _ _ = false

-- The loop of the four predicates on added and deleted files: `found` is the value of `Satisfied`
-- when a file of that status matches.
file_status_loop :
    FileStatus
    → PathPatterns
    → Bool
    → (String → String)
    → String
    → PredicateResult
    → List String
    → List File
    → PredicateResult
file_status_loop status pred found desc missing r seen [] = record r {
  values = seen;
  description = missing;
}
file_status_loop status pred found desc missing r seen (f ∷ files) =
    let skipped = file_status_loop status pred found desc missing r seen files in
    let passed =
      file_status_loop status pred found desc missing r (seen ++ f.filename ∷ []) files in
    if file_status_eq f.status status
    then if path_matches pred.paths pred.globs f.filename
      then record r { satisfied = found; values = f.filename ∷ []; description = desc f.filename }
      else passed
    else skipped

status_result : PathPatterns → Bool → String → Bool → PredicateResult
status_result pred satisfied phrase reverse = record no_predicate_result {
  satisfied = satisfied;
  value_phrase = phrase;
  condition_phrase = "match path patterns";
  condition_values = get_path_strings pred.paths pred.globs;
  reverse_skip_phrase = reverse;
}

unfoldable pub file_added_pred : PathPatterns → Context → Attempt PredicateResult
unfolding file_status_loop status_result file_status_eq
file_added_pred pred ctx = do
  files ← wrap "failed to list changed files" ctx.changed_files
  ok (
      file_status_loop file_added pred true (λ name. name <> " was added")
        "No added files match the specified patterns" (status_result pred false "added files" false)
        [] files)

unfoldable pub file_not_added_pred : PathPatterns → Context → Attempt PredicateResult
unfolding file_status_loop status_result file_status_eq
file_not_added_pred pred ctx = do
  files ← wrap "failed to list changed files" ctx.changed_files
  ok (
      file_status_loop file_added pred false (λ name. name <> " was added")
        "No added files match the specified patterns" (status_result pred true "added files" true)
        [] files)

unfoldable pub file_deleted_pred : PathPatterns → Context → Attempt PredicateResult
unfolding file_status_loop status_result file_status_eq
file_deleted_pred pred ctx = do
  files ← wrap "failed to list changed files" ctx.changed_files
  ok (
      file_status_loop file_deleted pred true (λ name. name <> " was deleted")
        "No deleted files match the specified patterns"
        (status_result pred false "deleted files" false) [] files)

unfoldable pub file_not_deleted_pred : PathPatterns → Context → Attempt PredicateResult
unfolding file_status_loop status_result file_status_eq
file_not_deleted_pred pred ctx = do
  files ← wrap "failed to list changed files" ctx.changed_files
  ok (
      file_status_loop file_deleted pred false (λ name. name <> " was deleted")
        "No deleted files match the specified patterns"
        (status_result pred true "deleted files" true) [] files)
