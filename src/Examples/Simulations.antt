-- ===== src/Examples/Simulations.antt =====
-- A simulation of the pull request.
use policy_bot.Prelude.{◌≡◌, refl, none, some, List, [], ◌∷◌, ◌++◌, keep, ok}
use policy_bot.Prelude.{ℕ, ◌+◌}
use policy_bot.Pull.{Time, Comment}
use policy_bot.Common.Actors.{no_actors}
use policy_bot.Simulated.{Options, SimulatedComment, set_defaults, comments}
use policy_bot.Simulated.Effect.{
  is_heard, simulated_comment, simulated_comments, comments-simulated, no_options,
}
use policy_bot.Examples.{pull_request, approval_comment}

abbrev thumbs_up : SimulatedComment
thumbs_up = record { created_at = none; last_edited_at = none; author = "erin"; body = ":+1:" }

-- Without Dave's comment, and with one of Erin.
abbrev what_if : Options
what_if = record no_options {
  ignore_comments = some (record no_actors { users = "dave" ∷ [] });
  add_comments = thumbs_up ∷ [];
}

-- The clock reads 40, then 41 and so on.
abbrev clock : ℕ → Time
clock i = 40 + i

abbrev after : List Comment
after = approval_comment ∷ simulated_comment 40 thumbs_up ∷ []

simulated : comments (set_defaults clock what_if) pull_request ≡ ok after
unfolding comments set_defaults policy_bot.Common.Actors.is_actor
simulated = refl

comments-simulated_example :
    (found : List Comment) × (pull_request.comments ≡ ok found)
    × (after
        ≡ keep (λ c. is_heard what_if.ignore_comments pull_request c.author) found
          ++ simulated_comments clock 0 what_if.add_comments)
comments-simulated_example = comments-simulated clock what_if pull_request after simulated
