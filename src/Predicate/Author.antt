-- ===== src/Predicate/Author.antt =====
-- policy/predicate/author.go
use policy_bot.Prelude.{
  String, Bool, true, false, not, ◌&&◌, ◌||◌, List, [], ◌∷◌, str_eq, if◌then◌else◌, contains,
  Attempt, ok, ◌>>=◌, wrap, ◌<>◌, first_chars, quote, sort, str_lt,
}
use policy_bot.Pull.{Commit, users, Context}
use policy_bot.Common.Actors.{Actors, is_actor}
use policy_bot.Common.Result.{PredicateResult, no_predicate_result}

abbrev pub membership_map : Actors → List (String × List String)
membership_map a = ("Organizations", a.organizations) ∷ ("Teams", a.teams) ∷ ("Users", a.users) ∷ []

-- With an error the result is not used by any caller.
unfoldable pub has_author_in : Actors → Context → Attempt PredicateResult
has_author_in pred ctx = do
  satisfied ← is_actor pred ctx ctx.author
  ok (record no_predicate_result {
    satisfied = satisfied;
    description =
        if satisfied
        then ""
        else "The pull request author "
          <> quote ctx.author
          <> " does not meet the required membership conditions";
    value_phrase = "authors";
    values = ctx.author ∷ [];
    condition_phrase = "meet the required membership conditions";
    conditions_map = membership_map pred;
  })

-- `users[u] = struct{}{}`
unfoldable pub add_user : String → List String → List String
add_user u set = if contains set u then set else u ∷ set

unfoldable pub add_users : List String → List String → List String
unfolding add_user
add_users [] set = set
add_users (u ∷ us) set = add_users us (add_user u set)

commit_users : List Commit → List String → List String
unfolding add_users
commit_users [] set = set
commit_users (c ∷ cs) set = commit_users cs (add_users (users c) set)

-- The author and the users of all commits, sorted, so the order of the map does not show.
unfoldable pub contributors : Context → List Commit → List String
unfolding commit_users sort
contributors ctx commits = sort str_lt (commit_users commits (ctx.author ∷ []))

unfoldable pub only_members :
    Actors → Context → PredicateResult → List String → List String → Attempt PredicateResult
only_members pred ctx r user_list [] = ok (record r { values = user_list; satisfied = true })
only_members pred ctx r user_list (user ∷ rest) =
    let later = only_members pred ctx r user_list rest in
    is_actor pred ctx user >>= λ member.
    if member
    then later
    else ok (record r {
      description =
          "Contributor " <> quote user <> " does not meet the required membership conditions";
      values = user ∷ [];
      satisfied = false;
    })

unfoldable pub only_has_contributors_in : Actors → Context → Attempt PredicateResult
unfolding only_members
only_has_contributors_in pred ctx = do
  commits ← wrap "failed to get commits" ctx.commits
  only_members pred ctx
      (record no_predicate_result {
        value_phrase = "contributors";
        condition_phrase = "all meet the required membership conditions";
        conditions_map = membership_map pred;
      })
      (contributors ctx commits) (contributors ctx commits)

unfoldable pub some_member :
    Actors → Context → PredicateResult → List String → List String → Attempt PredicateResult
some_member pred ctx r user_list [] = ok (record r {
  description = "No contributors meet the required membership conditions";
  satisfied = false;
  values = user_list;
})
some_member pred ctx r user_list (user ∷ rest) =
    let later = some_member pred ctx r user_list rest in
    is_actor pred ctx user >>= λ member.
    if member then ok (record r { satisfied = true; values = user ∷ [] }) else later

unfoldable pub has_contributor_in : Actors → Context → Attempt PredicateResult
unfolding some_member
has_contributor_in pred ctx = do
  commits ← wrap "failed to get commits" ctx.commits
  some_member pred ctx
      (record no_predicate_result {
        value_phrase = "contributors";
        condition_phrase = "meet the required membership conditions ";
        conditions_map = membership_map pred;
      })
      (contributors ctx commits) (contributors ctx commits)

-- Authored, or committed other than by the web, by another user.
unfoldable pub by_other : String → Commit → Bool
by_other author c =
    not (str_eq c.author author) || (not c.committed_via_web && not (str_eq c.committer author))

only_contributor_loop : Bool → String → PredicateResult → List Commit → PredicateResult
only_contributor_loop pred author r [] = if pred then record r { satisfied = true } else record r {
  description = "All commits were authored and committed by " <> author;
  satisfied = false;
}
only_contributor_loop pred author r (c ∷ commits) =
    let rest = only_contributor_loop pred author r commits in
    if by_other author c
    then if pred
      then record r {
        description =
            "Commit " <> first_chars 10 c.sha <> " was authored or committed by a different user";
        satisfied = false;
      }
      else record r { satisfied = true }
    else rest

unfoldable pub author_is_only_contributor : Bool → Context → Attempt PredicateResult
unfolding only_contributor_loop by_other
author_is_only_contributor pred ctx = do
  commits ← wrap "failed to get commits" ctx.commits
  ok (
      only_contributor_loop pred ctx.author
        (record no_predicate_result {
          value_phrase = "authors";
          condition_phrase = "meet the condition";
          condition_values =
              (if pred
                then "they are the only contributors"
                else "they are not the only contributors")
              ∷ [];
          values = ctx.author ∷ [];
        })
        commits)
