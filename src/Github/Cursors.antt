-- ===== src/Github/Cursors.antt =====
-- The queries that go through several lists at once, each with a cursor among the query's variables. The
-- answer to a query is a parameter, a function of the variables.
use policy_bot.Prelude.{
  ℕ, zero, suc, String, Bool, true, false, ◌&&◌, ◌||◌, Option, none, some, List, [], ◌∷◌, ◌++◌, map,
  leb, str_eq, if◌then◌else◌, length, any, put, Error, raised, wrapped, diverged, Attempt, ok, err,
  ◌>>=◌, wrap, ◌<>◌, show, first_chars,
}
use policy_bot.Pull.{Commit, Comment, Review, Reviewer}
use policy_bot.Github.{max_pull_request_commits}
use policy_bot.Github.Nodes.{
  V4PullRequestReview, to_review, review_to_comment, V4IssueComment, to_comment, V4Commit,
  to_commit, V4RequestedReviewer, to_reviewer,
}

pub record V4PageInfo : Type 0 where
  pub end_cursor : Option String
  pub has_next_page : Bool

-- The cursors among the variables; nil is `none`.
abbrev pub Vars : Type 0
Vars = List (String × Option String)

abbrev pub put_cursor : String → Option String → Vars → Vars
put_cursor name none vars = vars
put_cursor name (some c) vars = put name (some c) vars

-- Whether there are more pages, and the variables with the cursor moved.
abbrev pub has_cursor : Option String → Bool
has_cursor none = false
has_cursor (some c) = true

unfoldable pub update_cursor : V4PageInfo → String → Vars → Bool × Vars
update_cursor pi name vars =
    (pi.has_next_page && has_cursor pi.end_cursor, put_cursor name pi.end_cursor vars)

pub record PagedData : Type 0 where
  pub commits : V4PageInfo × List V4Commit
  pub comments : V4PageInfo × List V4IssueComment
  pub reviews : V4PageInfo × List V4PullRequestReview

-- What the loop has collected.
pub record Loaded : Type 0 where
  pub raw_commits : List V4Commit
  pub comments : List Comment
  pub reviews : List Review

-- A review that only comments is a comment and a review.
unfoldable pub add_reviews : List V4PullRequestReview → Loaded → Loaded
unfolding to_review review_to_comment
add_reviews [] l = l
add_reviews (r ∷ rs) l = add_reviews rs (
    if str_eq r.state "COMMENTED"
    then record l {
      comments = l.comments ++ (review_to_comment r ∷ []);
      reviews = l.reviews ++ (to_review r ∷ []);
    }
    else if str_eq r.state "APPROVED" || str_eq r.state "CHANGES_REQUESTED"
    then record l { reviews = l.reviews ++ (to_review r ∷ []) }
    else l)

unfoldable add_page : PagedData → Loaded → Loaded
unfolding add_reviews to_comment
add_page q l = add_reviews q.reviews.1 (record l {
  raw_commits = l.raw_commits ++ q.commits.1;
  comments = l.comments ++ map to_comment q.comments.1;
})

-- The variables after the three calls of `UpdateCursor`, and whether one of them said that there is more.
unfoldable next_paged : PagedData → Vars → Bool × Vars
unfolding update_cursor
next_paged q vars =
    let a = update_cursor q.commits.0 "commitCursor" vars in
    let b = update_cursor q.comments.0 "commentCursor" a.1 in
    let c = update_cursor q.reviews.0 "reviewCursor" b.1 in (a.0 || b.0 || c.0, c.1)

unfoldable load_paged_loop : (Vars → Attempt PagedData) → ℕ → Vars → Loaded → Attempt Loaded
unfolding add_page next_paged
load_paged_loop query zero vars l = err diverged
load_paged_loop query (suc n) vars l = wrap "failed to load pull request data" (query vars) >>= λ q.
    let rest = load_paged_loop query n (next_paged q vars).1 (add_page q l) in
    if (next_paged q vars).0 then rest else ok (add_page q l)

abbrev pub first_vars : Vars
first_vars = ("commitCursor", none) ∷ ("commentCursor", none) ∷ ("reviewCursor", none) ∷ []

-- The head must be among the commits.
unfoldable process_commits : String → List V4Commit → Attempt (List Commit)
unfolding to_commit first_chars
process_commits head raw =
    if any (λ r. str_eq r.oid head) raw
    then ok (map to_commit raw)
    else err (
        raised
          ("head commit " <> first_chars 10 head <> " is missing, probably due to a force-push"))

-- The fields that `loadPagedData` fills, each nil until then.
pub record Cached : Type 0 where
  pub commits : Option (List Commit)
  pub comments : Option (List Comment)
  pub reviews : Option (List Review)

abbrev pub nothing_cached : Cached
nothing_cached = record { commits = none; comments = none; reviews = none }

-- Comments and reviews stay in the context even if the commits are refused.
unfoldable cache_commits : Loaded → Attempt (List Commit) → Option Error × Cached
cache_commits l (ok cs) =
    (none, record { commits = some cs; comments = some l.comments; reviews = some l.reviews })
cache_commits l (err e) = (
  some (wrapped "failed to process commits" e),
  record { commits = none; comments = some l.comments; reviews = some l.reviews },
)

unfoldable load_paged_data : Attempt Loaded → String → Cached → Option Error × Cached
unfolding process_commits cache_commits
load_paged_data (err e) head c = (some e, c)
load_paged_data (ok l) head c = cache_commits l (process_commits head l.raw_commits)

abbrev or_nil {ℓ} : {A : Type ℓ} → Option (List A) → List A
or_nil none = []
or_nil (some xs) = xs

-- A query on the context loads the data if its field is nil.
abbrev pub read_field {ℓ} :
    {A : Type ℓ} → (Cached → Option (List A)) → Option Error × Cached → Attempt (List A) × Cached
read_field field (some e, c) = (err e, c)
read_field field (none, c) = (ok (or_nil (field c)), c)

abbrev pub cached_or_load {ℓ} :
    {A : Type ℓ}
    → (Cached → Option (List A))
    → Option (List A)
    → Option Error × Cached
    → Cached
    → Attempt (List A) × Cached
cached_or_load field (some xs) loaded c = (ok xs, c)
cached_or_load field none loaded c = read_field field loaded

module _ (answer : Attempt Loaded) (head : String) where
  unfoldable pub get_comments : Cached → Attempt (List Comment) × Cached
  unfolding load_paged_data
  get_comments c = cached_or_load (λ x. x.comments) c.comments (load_paged_data answer head c) c

  unfoldable get_reviews : Cached → Attempt (List Review) × Cached
  unfolding load_paged_data
  get_reviews c = cached_or_load (λ x. x.reviews) c.reviews (load_paged_data answer head c) c

  -- 250 commits are the most that GitHub lists, so that many may not be all.
  abbrev limited : Attempt (List Commit) × Cached → Attempt (List Commit) × Cached
  limited (err e, c) = (err e, c)
  limited (ok cs, c) =
      if leb max_pull_request_commits (length cs)
      then (
        err (
            raised
              ("too many commits in pull request, maximum is " <> show max_pull_request_commits)),
        c,
      )
      else (ok cs, c)

  unfoldable get_commits : Cached → Attempt (List Commit) × Cached
  unfolding load_paged_data
  get_commits c =
      limited (cached_or_load (λ x. x.commits) c.commits (load_paged_data answer head c) c)

pub record ReviewersPage : Type 0 where
  pub requests : V4PageInfo × List V4RequestedReviewer
  pub removals : V4PageInfo × List V4RequestedReviewer

-- The query uses `requestCursor` and `timelineCursor`, and the first cursor is moved under another name.
-- The client declares every variable that it is given, so a query after that declares one that it does not
-- use; what GitHub answers to it is up to the parameter.
unfoldable pub next_reviewers : ReviewersPage → Vars → Bool × Vars
unfolding update_cursor
next_reviewers q vars =
    let a = update_cursor q.requests.0 "reviewCursor" vars in
    let b = update_cursor q.removals.0 "timelineCursor" a.1 in (a.0 || b.0, b.1)

unfoldable pub add_reviewers : ReviewersPage → List Reviewer → List Reviewer
unfolding to_reviewer
add_reviewers q rs =
    rs ++ map (to_reviewer false) q.requests.1 ++ map (to_reviewer true) q.removals.1

unfoldable pub load_requested_reviewers_loop :
    (Vars → Attempt ReviewersPage) → ℕ → Vars → List Reviewer → Attempt (List Reviewer)
unfolding add_reviewers next_reviewers
load_requested_reviewers_loop query zero vars rs = err diverged
load_requested_reviewers_loop query (suc n) vars rs =
    wrap "failed to load requested reviewers data" (query vars) >>= λ q.
    let rest =
      load_requested_reviewers_loop query n (next_reviewers q vars).1 (add_reviewers q rs) in
    if (next_reviewers q vars).0 then rest else ok (add_reviewers q rs)

abbrev pub reviewers_vars : Vars
reviewers_vars = ("requestCursor", none) ∷ ("timelineCursor", none) ∷ []
