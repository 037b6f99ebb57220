-- ===== src/Simulated.antt =====
-- policy/simulated: a context with comments and reviews taken away and added.
pub mod Effect
use policy_bot.Prelude.{
  ℕ, suc, length, String, Option, none, some, List, [], ◌∷◌, ◌++◌, str_eq, if◌then◌else◌, diverged,
  Attempt, ok, err, ◌>>=◌, ◌<>◌, show,
}
use policy_bot.Pull.{Time, Comment, Review, Context}
use policy_bot.Common.Actors.{Actors, is_actor}

-- A comment or a review that is added; a time may be missing until `setDefaults`.
pub record SimulatedComment : Type 0 where
  pub created_at : Option Time
  pub last_edited_at : Option Time
  pub author : String
  pub body : String

pub record SimulatedReview : Type 0 where
  pub id : String
  pub sha : String
  pub created_at : Option Time
  pub last_edited_at : Option Time
  pub author : String
  pub body : String
  pub state : String
  pub teams : List String

pub record Options : Type 0 where
  pub ignore_comments : Option Actors
  pub ignore_reviews : Option Actors
  pub add_comments : List SimulatedComment
  pub add_reviews : List SimulatedReview
  pub base_branch : String

abbrev pub or_time : Option Time → Time → Time
or_time (some t) d = t
or_time none d = d

unfoldable pub comment_defaults : Time → SimulatedComment → SimulatedComment
comment_defaults now c = record c {
  created_at = some (or_time c.created_at now);
  last_edited_at = some (or_time c.last_edited_at 0);
}

unfoldable pub review_defaults : Time → String → String → SimulatedReview → SimulatedReview
review_defaults now id sha r = record r {
  id = id;
  sha = sha;
  created_at = some (or_time r.created_at now);
  last_edited_at = some (or_time r.last_edited_at 0);
}

-- The loop over the reviews, from index `i`. The clock gives the answer to each call of `time.Now`.
unfoldable pub number_reviews : (ℕ → Time) → ℕ → List SimulatedReview → List SimulatedReview
unfolding review_defaults
number_reviews clock i [] = []
number_reviews clock i (r ∷ rs) =
    review_defaults (clock i) ("simulated-reviewID-" <> show i) ("simulated-reviewSHA-" <> show i) r
    ∷ number_reviews clock (suc i) rs

-- The loop over the comments, after `i` calls.
unfoldable pub date_comments : (ℕ → Time) → ℕ → List SimulatedComment → List SimulatedComment
unfolding comment_defaults
date_comments clock i [] = []
date_comments clock i (c ∷ cs) = comment_defaults (clock i) c ∷ date_comments clock (suc i) cs

unfoldable pub set_defaults : (ℕ → Time) → Options → Options
unfolding date_comments number_reviews
set_defaults clock o = record o {
  add_comments = date_comments clock (length o.add_reviews) o.add_comments;
  add_reviews = number_reviews clock 0 o.add_reviews;
}

-- A missing time is a nil pointer, which the code dereferences: the run panics.
abbrev pub time_of : Option Time → Attempt Time
time_of none = err diverged
time_of (some t) = ok t

unfoldable pub to_pull_comment : SimulatedComment → Attempt Comment
to_pull_comment c = do
  created_at ← time_of c.created_at
  last_edited_at ← time_of c.last_edited_at
  ok (record {
    created_at = created_at;
    last_edited_at = last_edited_at;
    author = c.author;
    body = c.body;
  })

unfoldable pub to_pull_review : SimulatedReview → Attempt Review
to_pull_review r = do
  created_at ← time_of r.created_at
  last_edited_at ← time_of r.last_edited_at
  ok (record {
    id = r.id;
    created_at = created_at;
    last_edited_at = last_edited_at;
    author = r.author;
    state = r.state;
    body = r.body;
    sha = r.sha;
    teams = r.teams;
  })

-- The loop that converts what is added.
unfoldable pub convert {ℓ} : {A B : Type ℓ} → (A → Attempt B) → List A → Attempt (List B)
convert f [] = ok []
convert f (x ∷ xs) = f x >>= λ y. convert f xs >>= λ ys. ok (y ∷ ys)

-- The loop of `filterIgnoredComments` and of `filterIgnoredReviews`.
unfoldable pub drop_by {ℓ} :
    {A : Type ℓ} → (A → String) → Actors → Context → List A → Attempt (List A)
drop_by author actors ctx [] = ok []
drop_by author actors ctx (x ∷ xs) =
    let rest = drop_by author actors ctx xs in
    is_actor actors ctx (author x) >>= λ ignored.
    if ignored then rest else (rest >>= λ others. ok (x ∷ others))

unfoldable pub filter_ignored {ℓ} :
    {A : Type ℓ} → (A → String) → Option Actors → Context → List A → Attempt (List A)
unfolding drop_by
filter_ignored author none ctx xs = ok xs
filter_ignored author (some actors) ctx xs = drop_by author actors ctx xs

unfoldable pub comments : Options → Context → Attempt (List Comment)
unfolding filter_ignored convert to_pull_comment
comments o ctx = do
  found ← ctx.comments
  kept ← filter_ignored (λ (c : Comment). c.author) o.ignore_comments ctx found
  added ← convert to_pull_comment o.add_comments
  ok (kept ++ added)

unfoldable pub reviews : Options → Context → Attempt (List Review)
unfolding filter_ignored convert to_pull_review
reviews o ctx = do
  found ← ctx.reviews
  kept ← filter_ignored (λ (r : Review). r.author) o.ignore_reviews ctx found
  added ← convert to_pull_review o.add_reviews
  ok (kept ++ added)

-- The simulated context answers these queries itself and passes the others on.
unfoldable pub simulate : Options → Context → Context
unfolding comments reviews
simulate o ctx = record ctx {
  comments = comments o ctx;
  reviews = reviews o ctx;
  base_branch = if str_eq o.base_branch "" then ctx.base_branch else o.base_branch;
}
