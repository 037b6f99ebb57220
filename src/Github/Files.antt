-- ===== src/Github/Files.antt =====
-- `ChangedFiles`: the files of a pull request, a renamed one as a deleted and an added one.
use policy_bot.Prelude.{
  ℕ, String, List, [], ◌∷◌, ◌++◌, ltb, str_eq, if◌then◌else◌, raised, Attempt, ok, err, ◌>>=◌, ◌<>◌,
  show,
}
use policy_bot.Pull.{File, FileStatus, file_modified, file_added, file_deleted}
use policy_bot.Github.{V4PullRequest, max_pull_request_files}
use policy_bot.Github.Pages.{Listing, list_pages}

-- `github.CommitFile`
pub record CommitFile : Type 0 where
  pub filename : String
  pub previous_filename : String
  pub status : String
  pub additions : ℕ
  pub deletions : ℕ

abbrev file_of : CommitFile → FileStatus → File
file_of f status = record {
  filename = f.filename;
  status = status;
  additions = f.additions;
  deletions = f.deletions;
}

unfoldable files_of : CommitFile → List File
files_of f =
    if str_eq f.status "added"
    then file_of f file_added ∷ []
    else if str_eq f.status "removed"
    then file_of f file_deleted ∷ []
    else if str_eq f.status "renamed"
    then record {
      filename = f.previous_filename;
      status = file_deleted;
      additions = 0;
      deletions = 0;
    }
      ∷ file_of f file_added
      ∷ []
    else file_of f file_modified ∷ []

unfoldable convert_files : List CommitFile → List File
unfolding files_of
convert_files [] = []
convert_files (f ∷ fs) = files_of f ++ convert_files fs

unfoldable pub changed_files : ℕ → Listing CommitFile → V4PullRequest → Attempt (List File)
unfolding list_pages convert_files
changed_files n list pr =
    if ltb max_pull_request_files pr.changed_files
    then err (
        raised (
          "number of changed files ("
          <> show pr.changed_files
          <> ") exceeds limit ("
          <> show max_pull_request_files
          <> ")"))
    else (list_pages (λ _. "failed to list pull request files") list n 0 [] >>= λ fs.
        ok (convert_files fs))
