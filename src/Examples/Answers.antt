-- ===== src/Examples/Answers.antt =====
-- Answers of GitHub and of the environment.
use policy_bot.Prelude.{◌||◌, wrapped, Error}
use policy_bot.Prelude.{
  String, ◌≡◌, refl, true, false, Option, none, some, List, [], ◌∷◌, str_eq, if◌then◌else◌, get,
  put, raised, Attempt, ok, err,
}
use policy_bot.Pull.{Time, Commit}
use policy_bot.Settings.{PullEvaluationOptions, fill_defaults}
use policy_bot.Settings.Environment.{set_values_from_env}
use policy_bot.Settings.Filled.{IsFilled}
use policy_bot.Settings.Overrides.{set_values_from_env-IsFilled}
use policy_bot.Common.Patterns.{CompiledRegexp}
use policy_bot.Github.Runs.{WorkflowRun}
use policy_bot.Github.Cursors.{
  add_reviewers, Vars, ReviewersPage, load_requested_reviewers_loop, reviewers_vars,
}
use policy_bot.Github.Refused.{RefusesUnused, has_more, load_requested_reviewers-refused}
use policy_bot.Github.Pushed.{GlobalCache, PushedState, pushed_at}
use policy_bot.Github.Memory.{Later, unchanged, searched, shared, pushed_at-stays}
use policy_bot.Examples.{first_commit, second_commit}

-- The environment turns the shared policy off.
abbrev no_shared : String → Option String
no_shared name = if str_eq name "BOT_SHARED_REPOSITORY" then some "" else none

abbrev no_regexp : String → Attempt CompiledRegexp
no_regexp s = err (raised "regexp")

abbrev unset : PullEvaluationOptions
unset = record {
  policy_path = "";
  shared_repository = none;
  shared_policy_path = none;
  force_shared_policy = false;
  status_check_context = "";
  expand_required_reviewers = false;
  strict_review_dismissal = false;
  post_insecure_status_checks = false;
  ignore_edited_comments = none;
  approval_defaults = none;
}

set_values_from_env-IsFilled_example :
    IsFilled (set_values_from_env no_shared no_regexp "BOT_" unset)
    × (fill_defaults (set_values_from_env no_shared no_regexp "BOT_" unset)
        ≡ set_values_from_env no_shared no_regexp "BOT_" unset)
set_values_from_env-IsFilled_example = set_values_from_env-IsFilled no_shared no_regexp "BOT_" unset

-- A run that failed, and its second attempt.
abbrev failed_run : WorkflowRun
failed_run = record {
  id = 9;
  workflow_id = 4;
  path = "ci.yml";
  event = "push";
  head_sha = "a2";
  run_number = 1;
  run_attempt = 1;
  updated_at = 20;
  status = "completed";
  conclusion = "failure";
}

abbrev second_attempt : WorkflowRun
second_attempt = record failed_run { run_attempt = 2; updated_at = 30; status = "queued" }

-- Requests on two pages, of a server that refuses unused variables.
abbrev first_page : ReviewersPage
first_page = record {
  requests = (record { end_cursor = some "Y3Vyc29yMQ"; has_next_page = true }, []);
  removals = (record { end_cursor = none; has_next_page = false }, []);
}

abbrev unused : Error
unused = raised "Variable $reviewCursor is declared by anonymous query but not used"

abbrev unless_unused : Option (Option String) → Attempt ReviewersPage
unless_unused (some c) = err unused
unless_unused none = ok first_page

abbrev validated : Vars → Attempt ReviewersPage
validated vars = unless_unused (get "reviewCursor" vars)

refuses : RefusesUnused validated unused
refuses vars c declared = rw declared refl

load_requested_reviewers-refused_example :
    load_requested_reviewers_loop validated 2 reviewers_vars [] ≡ (
      if has_more first_page.requests.0 || has_more first_page.removals.0
      then err (wrapped "failed to load requested reviewers data" unused)
      else ok (add_reviewers first_page []))
load_requested_reviewers-refused_example =
    load_requested_reviewers-refused validated unused refuses first_page "Y3Vyc29yMQ" refl refl 0

-- A global cache that is a list, and two commits pushed together.
abbrev times : GlobalCache (List (String × Time))
times = record {
  get_pushed_at = λ s repo_id sha. get sha s;
  set_pushed_at = λ repo_id sha t s. put sha t s;
}

abbrev checked_at : String → Attempt Time
checked_at sha = ok (if str_eq sha "a2" then 10 else 0)

abbrev no_times : PushedState times
no_times = record { local = []; global = some [] }

abbrev both : Attempt (List Commit)
both = ok (first_commit ∷ second_commit ∷ [])

abbrev ten : List (String × Time)
ten = ("a1", 10) ∷ ("a2", 10) ∷ []

abbrev found : PushedState times
found = record { local = ten; global = some ten }

first_search : pushed_at times checked_at 1 "a2" both 50 2 "a1" no_times ≡ (ok 10, found)
unfolding pushed_at policy_bot.Github.Pushed.search_pushed_at policy_bot.Github.Pushed.try_pushed_at
    policy_bot.Github.Pushed.finish_pushed_at policy_bot.Github.Pushed.store_pushed_at
    policy_bot.Github.Pushed.next_child_commit policy_bot.Github.Pushed.child_of
first_search = refl

-- A search for the other commit comes in between, and the global cache is emptied.
abbrev failing : String → Attempt Time
failing sha = err (raised "bad gateway")

in_between :
    Later times 1 "a2" 50 found
      (record (pushed_at times failing 1 "a2" both 50 1 "a2" found).1 { global = some [] })
in_between = shared (searched unchanged failing both 1 "a2") (some [])

pushed_at-stays_example :
    (pushed_at times failing 1 "a2" both 50 1 "a1"
      (record (pushed_at times failing 1 "a2" both 50 1 "a2" found).1 { global = some [] })).0
    ≡ ok 10
pushed_at-stays_example =
    pushed_at-stays times 1 "a2" 50 checked_at failing both both 2 0 "a1" no_times found
      (record (pushed_at times failing 1 "a2" both 50 1 "a2" found).1 { global = some [] }) 10 refl
      first_search in_between
