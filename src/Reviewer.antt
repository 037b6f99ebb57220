-- ===== src/Reviewer.antt =====
-- policy/reviewer/reviewer.go: whom to ask for a review.
pub mod Named
pub mod Requests
pub mod Order
pub mod Eligibility
use policy_bot.Prelude.{
  ℕ, zero, suc, ℤ, pos, negsuc, ◌-◌, ◌%◌, String, Bool, true, false, not, ◌&&◌, ◌||◌, Option, none,
  some, List, [], ◌∷◌, ◌++◌, map, ltb, leb, ◌==◌, str_eq, if◌then◌else◌, length, is_empty, any,
  keep, take, contains, raised, diverged, Attempt, ok, err, ◌>>=◌, wrap, ◌<>◌, sort, str_lt,
  MapOrder,
}
use policy_bot.Pull.{
  Permission, permission_none, Reviewer, reviewer_user, reviewer_team, Collaborator, Context,
}
use policy_bot.Common.Methods.{Candidate, Orders}
use policy_bot.Common.Result.{
  Report, Result, result, Results, no_results, and_result, ReviewRequestRule, pending, status_eq,
  remaining_approvals, request_mode_all_users, request_mode_random_users, request_mode_teams,
}

pub record Selection : Type 0 where
  pub users : List String
  pub teams : List String

abbrev pub no_selection : Selection
no_selection = record { users = []; teams = [] }

-- The names of the reviewers of a type.
unfoldable pub reviewer_names : String → List Reviewer → List String
reviewer_names type reviewers = map (λ r. r.name) (keep (λ r. str_eq r.type type) reviewers)

abbrev pub without : List String → List String → List String
without gone xs = keep (λ x. not (contains gone x)) xs

unfoldable pub difference : Selection → List Reviewer → Selection
difference s reviewers = record {
  users = without (reviewer_names reviewer_user reviewers) s.users;
  teams = without (reviewer_names reviewer_team reviewers) s.teams;
}

unfoldable pub is_empty_selection : Selection → Bool
is_empty_selection s = is_empty s.users && is_empty s.teams

abbrev pub is_unset {ℓ} : {A : Type ℓ} → Option A → Bool
is_unset none = true
is_unset (some a) = false

abbrev pub has_no_children : Results → Bool
has_no_children no_results = true
has_no_children (and_result r rs) = false

-- The final test, for a pending result.
unfoldable pub requests_review : Report → Results → Bool
requests_review rep rs =
    has_no_children rs
    && not (is_unset rep.review_request_rule)
    && is_unset rep.error
    && ltb 0 (remaining_approvals rep)

unfoldable mutual
  unfolding requests_review

  pub find_requests : Result → List Report
  find_requests (result rep rs) =
      let below = find_each rs in
      if not (status_eq rep.status pending)
      then []
      else below ++ (if requests_review rep rs then rep ∷ [] else [])

  pub find_each : Results → List Report
  find_each no_results = []
  find_each (and_result r rs) = find_requests r ++ find_each rs

-- The numbers that the random generator gives; `Intn(n)` is the next one, below `n`.
abbrev pub Draws : Type 0
Draws = List ℕ

abbrev pub nth : List String → ℕ → String
nth [] i = ""
nth (x ∷ xs) zero = x
nth (x ∷ xs) (suc i) = nth xs i

abbrev pub is_selected : List ℕ → ℕ → Bool
is_selected selected i = any (λ j. j == i) selected

-- The loop; `missing` users are still to be ordered. It diverges if the draws end before.
unfoldable pub order_loop : List String → List ℕ → ℕ → Draws → Attempt (List String × Draws)
order_loop users selected zero draws = ok ([], draws)
order_loop users selected (suc missing) [] = err diverged
order_loop users selected (suc missing) (d ∷ draws) =
    let index = d % length users in
    let again = order_loop users selected (suc missing) draws in
    let next = order_loop users (index ∷ selected) missing draws in
    if is_selected selected index
    then again
    else next >>= λ rest. ok (nth users index ∷ rest.0, rest.1)

unfoldable pub randomly_order_users : List String → Draws → Attempt (List String × Draws)
unfolding order_loop
randomly_order_users users draws =
    if leb (length users) 1 then ok (users, draws) else order_loop users [] (length users) draws

unfoldable pub without_approvers : List String → List Candidate → List String
without_approvers users approvers = without (map (λ c. c.user) approvers) users

-- The members of several teams or organizations, together; the first error ends the loop.
unfoldable pub members_of : (String → Attempt (List String)) → List String → Attempt (List String)
members_of ask [] = ok []
members_of ask (name ∷ names) =
    ask name >>= λ members. members_of ask names >>= λ others. ok (members ++ others)

-- Names that cannot be listed are skipped.
abbrev pub or_nobody : Attempt (List String) → List String
or_nobody (ok us) = us
or_nobody (err e) = []

abbrev pub lower : ℕ → ℕ → ℕ
lower a b = if leb a b then a else b

unfoldable pub min_permission : List Permission → Permission
min_permission [] = permission_none
min_permission (p ∷ []) = p
min_permission (p ∷ q ∷ ps) = lower p (min_permission (q ∷ ps))

-- `requestsPermission`
unfoldable pub requests_permission : ReviewRequestRule → Permission → Bool
requests_permission rule p = any (λ q. q == p) rule.permissions

unfoldable pub has_requested_permission : ReviewRequestRule → Collaborator → Bool
has_requested_permission rule c =
    any (λ cp. cp.via_repo && requests_permission rule cp.permission) c.permissions

-- The set of users that the rule names, in any way.
unfoldable pub all_users : ReviewRequestRule → Context → List Collaborator → List String
unfolding members_of has_requested_permission
all_users rule ctx collaborators =
    rule.users
    ++ (or_nobody (members_of ctx.team_members rule.teams)
        ++ (or_nobody (members_of ctx.organization_members rule.organizations)
            ++ map (λ c. c.name) (keep (has_requested_permission rule) collaborators)))

unfoldable pub get_possible_reviewers : Context → List String → List Collaborator → List String
unfolding sort
get_possible_reviewers ctx users collaborators =
    sort str_lt
      (keep (λ n. not (str_eq n ctx.author) && contains users n) (map (λ c. c.name) collaborators))

-- How many users the random mode asks for. A request below zero is below what is required and below
-- what remains.
abbrev pub count_for : Report → ℤ → ℤ
count_for rep (pos n) =
    if leb rep.requires.count n
    then pos (n - length rep.requires.approvers)
    else pos (lower n (remaining_approvals rep))
count_for rep (negsuc n) = negsuc n

unfoldable pub request_count : Report → ReviewRequestRule → ℤ
request_count rep rule = count_for rep rule.requested_count

-- The slice up to a count, which panics if that is below zero.
abbrev pub first_users : ℤ → List String → Attempt (List String)
first_users (pos n) users = ok (take n users)
first_users (negsuc n) users = err diverged

unfoldable pub choose_users :
    Report → ReviewRequestRule → List String → Draws → Attempt (List String × Draws)
unfolding randomly_order_users without_approvers request_count
choose_users rep rule possible draws =
    if str_eq rule.mode request_mode_all_users
    then ok (without_approvers possible rep.requires.approvers, draws)
    else (do
      ordered ← randomly_order_users possible draws
      chosen ←
          first_users (request_count rep rule) (without_approvers ordered.0 rep.requires.approvers)
      ok (chosen, ordered.1))

unfoldable pub select_users :
    Report → ReviewRequestRule → Context → Draws → Attempt (List String × Draws)
unfolding all_users get_possible_reviewers choose_users min_permission
select_users rep rule ctx draws = do
  collaborators ←
      wrap "failed to list repository collaborators"
        (ctx.repository_collaborators (min_permission rule.permissions))
  let possible = get_possible_reviewers ctx (all_users rule ctx collaborators) collaborators
  if is_empty possible then ok ([], draws) else choose_users rep rule possible draws

unfoldable pub select_teams :
    MapOrder (String × Permission) → ReviewRequestRule → Context → Attempt (List String)
unfolding requests_permission
select_teams order rule ctx = do
  eligible ← ctx.teams
  ok (
      map (λ e. e.0)
        (keep
          (λ e.
            contains rule.teams (ctx.repository_owner <> "/" <> e.0)
            || requests_permission rule e.1)
          (order.arrange eligible)))

abbrev add_teams : Selection → List String → Selection
add_teams s ts = record s { teams = s.teams ++ ts }

abbrev add_reviewers : Selection → List String → Selection
add_reviewers s us = record s { users = s.users ++ us }

-- One result. A result without a request makes the code panic; `FindRequests` returns none.
unfoldable pub select_for :
    Orders → Context → Report → Selection → Draws → Attempt (Selection × Draws)
unfolding select_users select_teams
select_for orders ctx rep s draws = elim rep.review_request_rule [
  | none ↦ err diverged
  | some rule ↦
      if str_eq rule.mode request_mode_teams
      then (do teams ← select_teams orders.teams rule ctx; ok (add_teams s teams, draws))
      else if str_eq rule.mode request_mode_all_users || str_eq rule.mode request_mode_random_users
      then (do chosen ← select_users rep rule ctx draws; ok (add_reviewers s chosen.0, chosen.1))
      else err (raised ("unknown reviewer selection mode: " <> rule.mode))
]

unfoldable pub select_loop : Orders → Context → List Report → Selection → Draws → Attempt Selection
unfolding select_for
select_loop orders ctx [] s draws = ok s
select_loop orders ctx (r ∷ rs) s draws =
    select_for orders ctx r s draws >>= λ next. select_loop orders ctx rs next.0 next.1

unfoldable pub select_reviewers : Orders → Context → List Report → Draws → Attempt Selection
unfolding select_loop
select_reviewers orders ctx reports draws = select_loop orders ctx reports no_selection draws
