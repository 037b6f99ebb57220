-- ===== src/Examples.antt =====
-- A pull request and its policy, for the theorems' concrete uses.
mod Rules
mod Policies
mod Inputs
mod Reviews
mod Simulations
mod Dismissals
mod Loads
mod Events
mod Answers
use policy_bot.Prelude.{◌≡◌, refl, true, false, none, some, [], ◌∷◌, ok}
use policy_bot.Pull.{permission_none, Commit, Comment, Review, Context}
use policy_bot.Common.Actors.{no_actors}
use policy_bot.Common.Trigger.{Trigger, matches, trigger_label}
use policy_bot.Predicate.{no_predicates}
use policy_bot.Predicate.Stability.{Agree}
use policy_bot.Approval.Options.{OptionFields, no_option_fields, options, default_methods}
use policy_bot.Approval.Rule.{Rule}
use policy_bot.Approval.Requirements.{rule_requirement, and_requirement, no_requirements, and_also}
use policy_bot.Disapproval.{Disapproval}
use policy_bot.Policy.{Evaluator}

abbrev pub first_commit : Commit
first_commit = record {
  sha = "a1";
  parents = "a0" ∷ [];
  committed_via_web = false;
  author = "alice";
  committer = "";
  signature = none;
}

abbrev pub second_commit : Commit
second_commit = record first_commit { sha = "a2"; parents = "a1" ∷ [] }

abbrev pub approval_comment : Comment
approval_comment = record {
  created_at = 20;
  last_edited_at = 0;
  author = "bob";
  body = "ship it :+1:";
}

abbrev pub early_comment : Comment
early_comment = record { created_at = 5; last_edited_at = 0; author = "dave"; body = ":+1:" }

-- Alice's pull request of two commits, pushed at 10; Dave commented before the push and Bob after it.
abbrev pub pull_request : Context
pull_request = record {
  is_team_member = λ t u. ok false;
  is_org_member = λ o u. ok false;
  team_members = λ t. ok [];
  organization_members = λ o. ok [];
  repository_owner = "acme";
  repository_name = "rockets";
  repository_custom_properties = ok [];
  title = "Add fins";
  body = ok (record { body = ""; created_at = 1; author = "alice"; last_edited_at = 0 });
  author = "alice";
  head_sha = "a2";
  base_branch = "develop";
  head_branch = "fins";
  changed_files = ok [];
  commits = ok (first_commit ∷ second_commit ∷ []);
  pushed_at = λ sha. ok 10;
  comments = ok (early_comment ∷ approval_comment ∷ []);
  reviews = ok [];
  is_draft = false;
  repository_collaborators = λ p. ok [];
  collaborator_permission = λ u. ok permission_none;
  teams = ok [];
  requested_reviewers = ok [];
  latest_statuses = ok [];
  latest_workflow_runs = ok [];
  labels = ok [];
}

abbrev pub rule_options : OptionFields
rule_options = record no_option_fields {
  methods = some default_methods;
  invalidate_on_push = some true;
}

-- One of Bob and Dave approves, after the last push.
abbrev pub one_approval : Rule
one_approval = record {
  name = "one approval";
  description = "";
  predicates = no_predicates;
  options = options rule_options;
  requires = record {
    count = 1;
    actors = record no_actors { users = "bob" ∷ "dave" ∷ [] };
    conditions = no_predicates;
  };
}

-- Carol can disapprove.
abbrev pub by_carol : Disapproval
by_carol = record {
  predicates = no_predicates;
  methods = record { disapprove = none; revoke = none };
  requires = record no_actors { users = "carol" ∷ [] };
}

abbrev pub policy : Evaluator
policy = record {
  approval = some (and_requirement (and_also (rule_requirement one_approval) no_requirements));
  disapproval = by_carol;
}

abbrev pub rejection : Review
rejection = record {
  id = "r1";
  created_at = 30;
  last_edited_at = 0;
  author = "carol";
  state = "changes_requested";
  body = "";
  sha = "a2";
  teams = [];
}

-- The same pull request, after Carol asked for changes.
abbrev pub disapproved_request : Context
disapproved_request = record pull_request { reviews = ok (rejection ∷ []) }

-- The same pull request with another label.
abbrev pub relabelled : Context
relabelled = record pull_request { labels = ok ("urgent" ∷ []) }

pub relabelled-Agree :
    (t : Trigger) → matches t trigger_label ≡ false → Agree t pull_request relabelled
relabelled-Agree t h = record {
  static = record {
    membership = record { team = λ t u. refl; organization = λ o u. refl; permission = λ u. refl };
    author = refl;
    owner = refl;
    name = refl;
    properties = refl;
    head_branch = refl;
  };
  on_commit = λ m. record {
    changed_files = refl;
    commits = refl;
    head_sha = refl;
    pushed_at = λ sha. refl;
  };
  on_comment = λ m. refl;
  on_review = λ m. refl;
  on_label = λ m. cc (h, m);
  on_status = λ m. record { statuses = refl; workflow_runs = refl };
  on_pull_request = λ m. record { title = refl; body = refl; base_branch = refl };
}
