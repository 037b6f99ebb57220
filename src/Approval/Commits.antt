-- ===== src/Approval/Commits.antt =====
-- policy/approval/approve.go: the commits that count for a rule.
pub mod History
pub mod Stability
use policy_bot.Prelude.{
  ℕ, zero, suc, String, Bool, false, not, ◌&&◌, Option, none, some, List, [], ◌∷◌, map,
  if◌then◌else◌, length, is_empty, contains, get, put, diverged, Attempt, ok, err, ◌>>=◌, wrap,
}
use policy_bot.Pull.{Commit, users, Context}
use policy_bot.Common.Actors.{Actors, is_zero, is_actor}
use policy_bot.Approval.Options.{Options, is_ignore_update_merges, get_ignore_commits_by}

-- `commitsBySHA[c.SHA] = c` for each commit.
unfoldable pub commits_by_sha : List (String × Commit) → List Commit → List (String × Commit)
commits_by_sha m [] = m
commits_by_sha m (c ∷ commits) = commits_by_sha (put c.sha c m) commits

abbrev pub prepend : Commit → Option (List Commit) → Option (List Commit)
prepend c none = none
prepend c (some cs) = some (c ∷ cs)

-- One round of the loop, `rest` being the later rounds.
abbrev pub after_commit :
    (String → Option (List Commit)) → Commit → List String → Option (List Commit)
after_commit rest c [] = some (c ∷ [])
after_commit rest c (parent ∷ others) = prepend c (rest parent)

abbrev pub follow : (String → Option (List Commit)) → Option Commit → Option (List Commit)
follow rest none = some []
follow rest (some c) = after_commit rest c c.parents

-- The loop follows first parents from `head`; `none` means that the fuel ran out.
unfoldable pub sort_from : ℕ → List (String × Commit) → String → Option (List Commit)
sort_from zero m head = none
sort_from (suc fuel) m head = follow (sort_from fuel m) (get head m)

-- One round for each commit and one that ends the loop.
unfoldable pub sort_commits : List Commit → String → Option (List Commit)
unfolding sort_from commits_by_sha
sort_commits commits head = sort_from (suc (length commits)) (commits_by_sha [] commits) head

abbrev shas : List Commit → List String
shas commits = map (λ c. c.sha) commits

abbrev merges_base : List Commit → List String → Bool
merges_base commits (first ∷ second ∷ []) =
    contains (shas commits) first && not (contains (shas commits) second)
merges_base commits _ = false

unfoldable pub is_update_merge : List Commit → Commit → Bool
is_update_merge commits c = c.committed_via_web && merges_base commits c.parents

-- The loop over a commit's users; `some_user` is the final test of their number.
ignored_users : Context → Actors → Bool → List String → Attempt Bool
ignored_users ctx actors some_user [] = ok some_user
ignored_users ctx actors some_user (u ∷ us) =
    let rest = ignored_users ctx actors some_user us in
    is_actor actors ctx u >>= λ ignored. if ignored then rest else ok false

unfoldable pub is_ignored_commit : Context → Actors → Commit → Attempt Bool
unfolding ignored_users
is_ignored_commit ctx actors c = ignored_users ctx actors (not (is_empty (users c))) (users c)

filter_commits : Context → Options → List Commit → List Commit → Attempt (List Commit)
filter_commits ctx opts sorted [] = ok []
filter_commits ctx opts sorted (c ∷ commits) =
    let rest = filter_commits ctx opts sorted commits in
    let actors = get_ignore_commits_by opts in
    if is_ignore_update_merges opts && is_update_merge sorted c
    then rest
    else (if not (is_zero actors) then is_ignored_commit ctx actors c else ok false) >>= λ ignore.
        if ignore then rest else (rest >>= λ kept. ok (c ∷ kept))

abbrev or_diverged : Option (List Commit) → Attempt (List Commit)
or_diverged none = err diverged
or_diverged (some cs) = ok cs

unfoldable pub filtered_commits : Options → Context → Attempt (List Commit)
unfolding filter_commits is_update_merge is_ignored_commit
filtered_commits opts ctx = do
  commits ← wrap "failed to list commits" ctx.commits
  sorted ← or_diverged (sort_commits commits ctx.head_sha)
  if not (is_ignore_update_merges opts) && is_zero (get_ignore_commits_by opts)
      then ok sorted
      else filter_commits ctx opts sorted sorted
