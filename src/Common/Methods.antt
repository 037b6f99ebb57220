-- ===== src/Common/Methods.antt =====
-- policy/common/methods.go: the ways to comment on, review or describe a pull request that make its
-- user a candidate. A nil slice and an unset pointer are `none`; an empty slice is `some []`.
pub mod Resolution
mod Unique
pub mod Latest
pub mod Stability
use policy_bot.Prelude.{
  String, ◌≡◌, Bool, false, not, ◌&&◌, ◌||◌, Option, none, some, List, [], ◌∷◌, ◌++◌, map, ltb,
  str_eq, if◌then◌else◌, is_empty, any, all, keep, get, put, Attempt, ok, ◌>>=◌, >>=-eq-ok,
  ok-injective, contains_text, MapOrder, insertion_order,
}
use policy_bot.Pull.{Time, Permission, Comment, Review, Body, Context}
use policy_bot.Common.Patterns.{Regexp, regexp_matches, any_matches}

pub record MethodFields : Type 0 where
  pub comments : Option (List String)
  pub comment_patterns : Option (List Regexp)
  pub github_review : Option Bool
  pub github_review_comment_patterns : Option (List Regexp)
  pub body_patterns : Option (List Regexp)
  pub github_review_state : String

-- The two values of the field `Defaults`: nil, or the methods to fall back on.
pub data Methods : Type 0 where
  methods : MethodFields → Methods
  with_defaults : MethodFields → Methods → Methods

abbrev pub or_else {ℓ} : {A : Type ℓ} → Option A → A → A
or_else none d = d
or_else (some a) d = a

unfoldable pub get_comments : Methods → List String
get_comments (methods m) = or_else m.comments []
get_comments (with_defaults m d) = or_else m.comments (get_comments d)

unfoldable pub get_comment_patterns : Methods → List Regexp
get_comment_patterns (methods m) = or_else m.comment_patterns []
get_comment_patterns (with_defaults m d) = or_else m.comment_patterns (get_comment_patterns d)

unfoldable pub is_github_review : Methods → Bool
is_github_review (methods m) = or_else m.github_review false
is_github_review (with_defaults m d) = or_else m.github_review (is_github_review d)

unfoldable pub get_github_review_comment_patterns : Methods → List Regexp
get_github_review_comment_patterns (methods m) = or_else m.github_review_comment_patterns []
get_github_review_comment_patterns (with_defaults m d) =
    or_else m.github_review_comment_patterns (get_github_review_comment_patterns d)

unfoldable pub get_body_patterns : Methods → List Regexp
get_body_patterns (methods m) = or_else m.body_patterns []
get_body_patterns (with_defaults m d) = or_else m.body_patterns (get_body_patterns d)

-- The state is that of the methods themselves, not of their defaults.
abbrev pub github_review_state : Methods → String
github_review_state (methods m) = m.github_review_state
github_review_state (with_defaults m d) = m.github_review_state

abbrev pub review_candidate : String
review_candidate = "review"

abbrev pub comment_candidate : String
comment_candidate = "comment"

pub record Candidate : Type 0 where
  pub type : String
  pub review_id : String
  pub user : String
  pub created_at : Time
  pub last_edited_at : Time

-- `CandidatesByCreationTime.Less`
unfoldable pub created_before : Candidate → Candidate → Bool
created_before a b = ltb a.created_at b.created_at

unfoldable pub comment_matches : Methods → String → Bool
unfolding regexp_matches
comment_matches m body =
    any (λ comment. contains_text body comment) (get_comments m)
    || any (λ pattern. regexp_matches pattern body) (get_comment_patterns m)

unfoldable pub github_review_comment_matches : Methods → String → Bool
github_review_comment_matches m body = any_matches (get_github_review_comment_patterns m) body

unfoldable pub body_matches : Methods → String → Bool
body_matches m body = any_matches (get_body_patterns m) body

-- The map iterations whose order shows: over the candidates by user, the signers and keys of commits,
-- and the teams of a repository.
pub record Orders : Type 0 where
  pub candidates : MapOrder Candidate
  pub keys : MapOrder String
  pub teams : MapOrder (String × Permission)

abbrev pub insertion_orders : Orders
insertion_orders = record {
  candidates = insertion_order;
  keys = insertion_order;
  teams = insertion_order;
}

-- One round of the first loop of `deduplicateCandidates`.
add_candidate : List (String × Candidate) → Candidate → List (String × Candidate)
add_candidate users c = elim (get c.user users) [
  | none ↦ put c.user c users
  | some last ↦ if created_before last c then put c.user c users else users
]

pub add_candidates : List (String × Candidate) → List Candidate → List (String × Candidate)
unfolding add_candidate created_before
add_candidates users [] = users
add_candidates users (c ∷ all) = add_candidates (add_candidate users c) all

unfoldable pub deduplicate_candidates : MapOrder Candidate → List Candidate → List Candidate
unfolding add_candidates
deduplicate_candidates order all = order.arrange (map (λ e. e.1) (add_candidates [] all))

abbrev of_comment : Comment → Candidate
of_comment c = record {
  type = comment_candidate;
  review_id = "";
  user = c.author;
  created_at = c.created_at;
  last_edited_at = c.last_edited_at;
}

abbrev of_body : Body → Candidate
of_body b = record {
  type = "";
  review_id = "";
  user = b.author;
  created_at = b.created_at;
  last_edited_at = b.last_edited_at;
}

abbrev of_review : Review → Candidate
of_review r = record {
  type = review_candidate;
  review_id = r.id;
  user = r.author;
  created_at = r.created_at;
  last_edited_at = r.last_edited_at;
}

-- The three sources of candidates; each is asked only if a method needs it.
unfoldable pub uses_comments : Methods → Bool
uses_comments m = not (is_empty (get_comments m)) || not (is_empty (get_comment_patterns m))

unfoldable pub uses_body : Methods → Bool
uses_body m = not (is_empty (get_body_patterns m))

unfoldable pub uses_reviews : Methods → Bool
uses_reviews m = is_github_review m || not (is_empty (get_github_review_comment_patterns m))

unfoldable pub comment_candidates : Methods → Context → Attempt (List Candidate)
unfolding uses_comments
comment_candidates m ctx =
    if uses_comments m
    then (do
      comments ← ctx.comments
      ok (map of_comment (keep (λ c. comment_matches m c.body) comments)))
    else ok []

unfoldable pub body_candidates : Methods → Context → Attempt (List Candidate)
unfolding uses_body
body_candidates m ctx =
    if uses_body m
    then (do body ← ctx.body; ok (if body_matches m body.body then of_body body ∷ [] else []))
    else ok []

review_counts : Methods → Review → Bool
review_counts m r =
    str_eq r.state (github_review_state m)
    && (is_empty (get_github_review_comment_patterns m) || github_review_comment_matches m r.body)

unfoldable pub review_candidates : Methods → Context → Attempt (List Candidate)
unfolding uses_reviews review_counts
review_candidates m ctx =
    if uses_reviews m
    then (do reviews ← ctx.reviews; ok (map of_review (keep (review_counts m) reviews)))
    else ok []

unfoldable pub candidates : MapOrder Candidate → Methods → Context → Attempt (List Candidate)
unfolding comment_candidates body_candidates review_candidates deduplicate_candidates
candidates order m ctx = do
  from_comments ← comment_candidates m ctx
  from_body ← body_candidates m ctx
  from_reviews ← review_candidates m ctx
  ok (deduplicate_candidates order (from_comments ++ (from_body ++ from_reviews)))

pub candidates-deduplicated :
    (order : MapOrder Candidate) (m : Methods) (ctx : Context) (found : List Candidate)
    → candidates order m ctx ≡ ok found
    → (all_found : List Candidate) × (deduplicate_candidates order all_found ≡ found)
unfolding candidates
candidates-deduplicated order m ctx found h =
    let (x, asked_x, h1) = >>=-eq-ok (comment_candidates m ctx) from_comments h in
    let (y, asked_y, h2) = >>=-eq-ok (body_candidates m ctx) (from_body x) h1 in
    let (z, asked_z, h3) = >>=-eq-ok (review_candidates m ctx) (deduplicated x y) h2 in
    (x ++ (y ++ z), ok-injective h3)
  where
    deduplicated : List Candidate → List Candidate → List Candidate → Attempt (List Candidate)
    deduplicated x y z = ok (deduplicate_candidates order (x ++ (y ++ z)))

    from_body : List Candidate → List Candidate → Attempt (List Candidate)
    from_body x y = review_candidates m ctx >>= deduplicated x y

    from_comments : List Candidate → Attempt (List Candidate)
    from_comments x = body_candidates m ctx >>= from_body x
