-- ===== src/Simulated/Effect.antt =====
-- What a simulation changes.
use policy_bot.Prelude.{ℕ, suc, length}
use policy_bot.Prelude.{
  String, ◌≡◌, refl, sym, ap, ◌∙◌, Bool, true, false, not, Option, none, some, List, [], ◌∷◌, ◌++◌,
  if◌then◌else◌, keep, Attempt, ok, err, ◌>>=◌, >>=-eq-ok, ok-injective,
}
use mathlib.Core.List.{append-nil}
use policy_bot.Pull.{Time, Comment, Context}
use policy_bot.Common.Actors.{Actors, is_actor}
use policy_bot.Simulated.{
  SimulatedComment, Options, or_time, comment_defaults, date_comments, number_reviews, set_defaults,
  to_pull_comment, convert, drop_by, filter_ignored, comments, reviews, simulate,
}

abbrev answers_yes : Attempt Bool → Bool
answers_yes (ok b) = b
answers_yes (err e) = false

-- The author is not ignored.
abbrev pub is_heard : Option Actors → Context → String → Bool
is_heard none ctx author = true
is_heard (some actors) ctx author = not (answers_yes (is_actor actors ctx author))

module _ {ℓ} {A : Type ℓ} (author : A → String) (ctx : Context) where
  drop_by-eq-keep :
      (actors : Actors) (xs ys : List A)
      → drop_by author actors ctx xs ≡ ok ys
      → ys ≡ keep (λ x. is_heard (some actors) ctx (author x)) xs
  unfolding drop_by
  drop_by-eq-keep actors [] ys h = sym (ok-injective h)
  drop_by-eq-keep actors (x ∷ xs) ys h =
      let (ignored, asked, e) = >>=-eq-ok (is_actor actors ctx (author x)) step h in
      by_answer ignored asked e (λ l. drop_by-eq-keep actors xs l)
    where
      heard : A → Bool
      heard y = is_heard (some actors) ctx (author y)

      with_first : List A → Attempt (List A)
      with_first others = ok (x ∷ others)

      step : Bool → Attempt (List A)
      step ignored =
          if ignored
          then drop_by author actors ctx xs
          else (drop_by author actors ctx xs >>= with_first)

      by_answer :
          (b : Bool)
          → is_actor actors ctx (author x) ≡ ok b
          → step b ≡ ok ys
          → ((l : List A)
              → drop_by author actors ctx xs ≡ ok l
              → l ≡ keep (λ y. is_heard (some actors) ctx (author y)) xs)
          → ys ≡ keep (λ y. is_heard (some actors) ctx (author y)) (x ∷ xs)
      by_answer true asked e hyp = rw asked (hyp ys e)
      by_answer false asked e hyp =
          let (others, rest, same) = >>=-eq-ok (drop_by author actors ctx xs) with_first e in
          rw asked (sym (ok-injective same) ∙ ap (◌∷◌ x) (hyp others rest))

  keep-everything : (xs : List A) → keep (λ x. true) xs ≡ xs
  keep-everything [] = refl
  keep-everything (x ∷ xs) = ap (◌∷◌ x) (keep-everything xs)

  filter_ignored-eq-keep :
      (o : Option Actors) (xs ys : List A)
      → filter_ignored author o ctx xs ≡ ok ys
      → ys ≡ keep (λ x. is_heard o ctx (author x)) xs
  unfolding filter_ignored
  filter_ignored-eq-keep none xs ys h = sym (ok-injective h) ∙ sym (keep-everything xs)
  filter_ignored-eq-keep (some actors) xs ys h = drop_by-eq-keep actors xs ys h

-- The comment that is added, with its defaults.
abbrev pub simulated_comment : Time → SimulatedComment → Comment
simulated_comment now c = record {
  created_at = or_time c.created_at now;
  last_edited_at = or_time c.last_edited_at 0;
  author = c.author;
  body = c.body;
}

-- The comments that are added, each at the time that the clock gives for it.
abbrev pub simulated_comments : (ℕ → Time) → ℕ → List SimulatedComment → List Comment
simulated_comments clock i [] = []
simulated_comments clock i (c ∷ cs) =
    simulated_comment (clock i) c ∷ simulated_comments clock (suc i) cs

convert-comments :
    (clock : ℕ → Time) (i : ℕ) (cs : List SimulatedComment)
    → convert to_pull_comment (date_comments clock i cs) ≡ ok (simulated_comments clock i cs)
unfolding convert to_pull_comment date_comments comment_defaults
convert-comments clock i [] = refl
convert-comments clock i (c ∷ cs) = rw (convert-comments clock (suc i) cs) refl

-- If the comments of a simulation with its defaults set are returned, then they are those of the pull request
-- whose authors are not ignored, in their order, and then the added ones, each created when the
-- clock is read for it, which is after the added reviews, and never edited, unless they say
-- otherwise; no missing time makes the run panic.
pub comments-simulated :
    (clock : ℕ → Time) (o : Options) (ctx : Context) (cs : List Comment)
    → comments (set_defaults clock o) ctx ≡ ok cs
    → (found : List Comment) × (ctx.comments ≡ ok found)
      × (cs
          ≡ keep (λ c. is_heard o.ignore_comments ctx c.author) found
            ++ simulated_comments clock (length o.add_reviews) o.add_comments)
unfolding comments set_defaults
comments-simulated clock o ctx cs h =
    let (found, asked, h1) = >>=-eq-ok ctx.comments filtered h in
    let (kept, done, h2) =
      >>=-eq-ok (filter_ignored (λ (c : Comment). c.author) o.ignore_comments ctx found) joined
        h1 in
    let same =
      filter_ignored-eq-keep (λ (c : Comment). c.author) ctx o.ignore_comments found kept done in
    (
      found,
      asked,
      sym (ok-injective (rw (convert-comments clock (length o.add_reviews) o.add_comments) at h2))
          ∙ ap (λ l. l ++ simulated_comments clock (length o.add_reviews) o.add_comments) same,
    )
  where
    joined : List Comment → Attempt (List Comment)
    joined kept =
        convert to_pull_comment (date_comments clock (length o.add_reviews) o.add_comments)
        >>= λ added. ok (kept ++ added)

    filtered : List Comment → Attempt (List Comment)
    filtered found =
        filter_ignored (λ (c : Comment). c.author) o.ignore_comments ctx found >>= joined

abbrev pub no_options : Options
no_options = record {
  ignore_comments = none;
  ignore_reviews = none;
  add_comments = [];
  add_reviews = [];
  base_branch = "";
}

-- A simulation that asks for nothing leaves the pull request as it is.
pub simulate-no_options :
    (clock : ℕ → Time) (ctx : Context) → simulate (set_defaults clock no_options) ctx ≡ ctx
unfolding simulate set_defaults comments reviews filter_ignored convert number_reviews date_comments
simulate-no_options clock ctx =
    λ i. record ctx { comments = unchanged ctx.comments i; reviews = unchanged ctx.reviews i }
  where
    unchanged : {A : Type 0} (m : Attempt (List A)) → (m >>= λ l. ok (l ++ [])) ≡ m
    unchanged (ok l) = ap ok (append-nil l)
    unchanged (err e) = refl
