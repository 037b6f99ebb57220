-- ===== src/Github/Refused.antt =====
-- The loop over the requested reviewers, against a server that refuses unused variables. The client
-- declares every variable that it is given.
use policy_bot.Prelude.{
  ℕ, suc, String, ◌≡◌, refl, Bool, ◌&&◌, ◌||◌, Option, none, some, [], if◌then◌else◌, get, put,
  Error, wrapped, Attempt, ok, err,
}
use policy_bot.Github.Cursors.{
  V4PageInfo, Vars, put_cursor, has_cursor, update_cursor, add_reviewers, ReviewersPage,
  next_reviewers, load_requested_reviewers_loop, reviewers_vars,
}

-- The rule of GraphQL that all variables are used: no query of the loop uses `reviewCursor`, so one that
-- declares it is refused.
abbrev pub RefusesUnused : (Vars → Attempt ReviewersPage) → Error → Type 0
RefusesUnused query refusal =
    (vars : Vars) (c : Option String) → get "reviewCursor" vars ≡ some c → query vars ≡ err refusal

-- The answer of one page is all: neither list has a next page that a cursor leads to.
abbrev pub has_more : V4PageInfo → Bool
has_more pi = pi.has_next_page && has_cursor pi.end_cursor

module _ (query : Vars → Attempt ReviewersPage) (refusal : Error)
    (refuses : RefusesUnused query refusal) (page : ReviewersPage) where
  -- The timeline's cursor is another variable.
  moved_on :
      (c : String) (o : Option String)
      → get "reviewCursor"
          (put_cursor "timelineCursor" o (put "reviewCursor" (some c) reviewers_vars))
        ≡ some (some c)
  moved_on c none = refl
  moved_on c (some d) = refl

  next_reviewers-declares :
      (c : String)
      → page.requests.0.end_cursor ≡ some c
      → ((next_reviewers page reviewers_vars).0
          ≡ (has_more page.requests.0 || has_more page.removals.0))
        × (get "reviewCursor" (next_reviewers page reviewers_vars).1 ≡ some (some c))
  unfolding next_reviewers update_cursor
  next_reviewers-declares c there = (refl, rw there (moved_on c page.removals.0.end_cursor))

  -- If the first page of a pull request has a review request, so that its list has a cursor, then the load
  -- of its requested reviewers gives those of this page if neither the requests nor their removals have
  -- more pages, and fails if one has, where GitHub refuses queries with unused variables.
  pub load_requested_reviewers-refused :
      (c : String)
      → query reviewers_vars ≡ ok page
      → page.requests.0.end_cursor ≡ some c
      → (n : ℕ)
      → load_requested_reviewers_loop query (suc (suc n)) reviewers_vars [] ≡ (
          if has_more page.requests.0 || has_more page.removals.0
          then err (wrapped "failed to load requested reviewers data" refusal)
          else ok (add_reviewers page []))
  unfolding load_requested_reviewers_loop
  load_requested_reviewers-refused c answered there n =
      let (more, declared) = next_reviewers-declares c there in
      let refused : query (next_reviewers page reviewers_vars).1 ≡ err refusal =
        refuses (next_reviewers page reviewers_vars).1 (some c) declared in
      rw (answered, refused, more) refl
