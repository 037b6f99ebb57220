-- ===== src/Approval/Commits/Stability.antt =====
-- The counted commits depend on the commits and on memberships.
use policy_bot.Prelude.{String, ◌≡◌, refl, Bool, List, [], ◌∷◌}
use policy_bot.Pull.{Commit, users, Context}
use policy_bot.Common.Actors.{Actors}
use policy_bot.Common.Actors.Stability.{is_actor_same}
use policy_bot.Predicate.Stability.{SameStatic, SameCommits}
use policy_bot.Approval.Options.{Options}
use policy_bot.Approval.Commits.{ignored_users, is_ignored_commit, filter_commits, filtered_commits}

module _ {c d : Context} (static : SameStatic c d) where
  ignored_users_same :
      (actors : Actors) (b : Bool) (us : List String)
      → ignored_users c actors b us ≡ ignored_users d actors b us
  unfolding ignored_users
  ignored_users_same actors b [] = refl
  ignored_users_same actors b (u ∷ us) =
      simp (is_actor_same static.membership u actors, ignored_users_same actors b us)

  is_ignored_commit_same :
      (actors : Actors) (k : Commit) → is_ignored_commit c actors k ≡ is_ignored_commit d actors k
  unfolding is_ignored_commit
  is_ignored_commit_same actors k = ignored_users_same actors _ (users k)

  filter_commits_same :
      (opts : Options) (sorted commits : List Commit)
      → filter_commits c opts sorted commits ≡ filter_commits d opts sorted commits
  unfolding filter_commits
  filter_commits_same opts sorted [] = refl
  filter_commits_same opts sorted (k ∷ ks) =
      simp (is_ignored_commit_same, filter_commits_same opts sorted ks)

  pub filtered_commits_same :
      (opts : Options) → SameCommits c d → filtered_commits opts c ≡ filtered_commits opts d
  unfolding filtered_commits
  filtered_commits_same opts same = simp (same.commits, same.head_sha, filter_commits_same opts)
