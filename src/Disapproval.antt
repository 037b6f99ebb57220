-- ===== src/Disapproval.antt =====
-- policy/disapproval/disapprove.go: the disapproval of a pull request, and its revocation.
pub mod LastActor
pub mod Verdict
pub mod Coverage
use policy_bot.Prelude.{
  String, Bool, true, false, not, Option, none, some, List, [], ◌∷◌, ltb, str_eq, if◌then◌else◌,
  last?, get, Error, wrapped, Attempt, ok, err, ◌>>=◌, wrap, ◌<>◌, sort, MapOrder,
}
use policy_bot.Pull.{Context, review_approved, review_changes_requested}
use policy_bot.Common.Actors.{Actors, no_actors, is_actor, is_zero}
use policy_bot.Common.Trigger.{
  Trigger, trigger_commit, trigger_comment, trigger_review, or_if, or_all,
}
use policy_bot.Common.Methods.{
  Methods, methods, with_defaults, Candidate, Orders, candidates, created_before, uses_comments,
  uses_reviews,
}
use policy_bot.Common.Result.{
  Report, no_report, Result, leaf, PredicateResult, no_requires_result, skipped, disapproved,
}
use policy_bot.Predicate.{
  Predicate, Predicates, predicates, no_predicates, evaluate as evaluate_predicate,
  trigger as predicate_trigger,
}

pub record DisapprovalMethods : Type 0 where
  pub disapprove : Option Methods
  pub revoke : Option Methods

pub record Disapproval : Type 0 where
  pub predicates : Predicates
  pub methods : DisapprovalMethods
  pub requires : Actors

abbrev thumbs : String → String → Methods
thumbs text emoji = methods (record {
  comments = some (text ∷ emoji ∷ []);
  comment_patterns = none;
  github_review = some true;
  github_review_comment_patterns = none;
  body_patterns = none;
  github_review_state = "";
})

abbrev with_state : String → Methods → Methods
with_state s (methods m) = methods (record m { github_review_state = s })
with_state s (with_defaults m d) = with_defaults (record m { github_review_state = s }) d

abbrev or_default : Option Methods → Methods → Methods
or_default none d = d
or_default (some m) d = m

unfoldable pub get_disapprove_methods : Disapproval → Methods
get_disapprove_methods p =
    with_state review_changes_requested (or_default p.methods.disapprove (thumbs ":-1:" "👎"))

unfoldable pub get_revoke_methods : Disapproval → Methods
get_revoke_methods p = with_state review_approved (or_default p.methods.revoke (thumbs ":+1:" "👍"))

-- The comment and review parts of `Trigger`, for one set of methods.
abbrev pub methods_trigger : Methods → Trigger → Trigger
methods_trigger m t =
    or_if (uses_reviews m) trigger_review (or_if (uses_comments m) trigger_comment t)

unfoldable pub trigger : Disapproval → Trigger
unfolding get_disapprove_methods get_revoke_methods
trigger p = or_all predicate_trigger (predicates p.predicates) (
    if not (is_zero p.requires)
    then methods_trigger (get_revoke_methods p)
        (methods_trigger (get_disapprove_methods p) trigger_commit)
    else trigger_commit)

unfoldable pub filter : Actors → Context → List Candidate → Attempt (List Candidate)
filter actors ctx [] = ok []
filter actors ctx (c ∷ cs) =
    let rest = filter actors ctx cs in
    wrap "failed to check candidate status" (is_actor actors ctx c.user) >>= λ member.
    if not member then rest else (rest >>= λ others. ok (c ∷ others))

unfoldable pub last_actor : Orders → Disapproval → Context → Methods → Attempt (Option Candidate)
unfolding filter sort
last_actor orders p ctx m = do
  found ← candidates orders.candidates m ctx
  actors ← filter p.requires ctx found
  ok (last? (sort created_before actors))

-- Whether the pull request is disapproved, and the message.
abbrev pub Verdict : Type 0
Verdict = Bool × String

unfoldable pub revocation : Candidate → Option Candidate → Verdict
revocation d none = (true, "Disapproved by " <> d.user)
revocation d (some r) =
    if ltb r.created_at d.created_at
    then (true, "Disapproved by " <> d.user)
    else (false, "Disapproval revoked by " <> r.user)

unfoldable pub disapproval_verdict :
    Orders → Disapproval → Context → Option Candidate → Attempt Verdict
unfolding last_actor revocation
disapproval_verdict orders p ctx none = ok (false, "No disapprovals")
disapproval_verdict orders p ctx (some d) =
    wrap "failed to get last revoker" (last_actor orders p ctx (get_revoke_methods p)) >>= λ r.
    ok (revocation d r)

unfoldable pub is_disapproved : Orders → Disapproval → Context → Attempt Verdict
unfolding disapproval_verdict
is_disapproved orders p ctx =
    wrap "failed to get last disapprover" (last_actor orders p ctx (get_disapprove_methods p))
    >>= disapproval_verdict orders p ctx

unfoldable pub base_report : Disapproval → Report
base_report p = record no_report {
  name = "disapproval";
  requires = record no_requires_result { count = 1; actors = p.requires };
  methods = some (get_revoke_methods p);
}

-- How the loop over the predicates ends.
pub data Preconditions : Type 0 where
  failed : Error → Preconditions
  satisfied : PredicateResult → Preconditions
  unsatisfied : List PredicateResult → Preconditions

abbrev pub add_result : PredicateResult → Preconditions → Preconditions
add_result r (unsatisfied rs) = unsatisfied (r ∷ rs)
add_result r other = other

abbrev pub after_predicate : Preconditions → Attempt PredicateResult → Preconditions
after_predicate rest (err e) = failed (wrapped "failed to evaluate predicate" e)
after_predicate rest (ok r) = if r.satisfied then satisfied r else add_result r rest

unfoldable pub preconditions : MapOrder String → Context → List Predicate → Preconditions
preconditions order ctx [] = unsatisfied []
preconditions order ctx (p ∷ ps) =
    after_predicate (preconditions order ctx ps) (evaluate_predicate order p ctx)

unfoldable pub verdict_report : Report → Attempt Verdict → Report
verdict_report rep (err e) = record rep {
  error = some (wrapped "failed to compute disapproval status" e);
}
verdict_report rep (ok (is_disapproved, msg)) = record rep {
  status_description = msg;
  status = if is_disapproved then disapproved else skipped;
}

unfoldable pub disapproval_report : Orders → Disapproval → Context → Preconditions → Report
unfolding base_report verdict_report is_disapproved
disapproval_report orders p ctx (failed e) = record (base_report p) { error = some e }
disapproval_report orders p ctx (satisfied r) = record (base_report p) {
  status = disapproved;
  status_description =
      if str_eq r.description ""
      then "A precondition of this rule was satisfied"
      else r.description;
  predicate_results = r ∷ [];
}
disapproval_report orders p ctx (unsatisfied rs) =
    let rep = record (base_report p) { predicate_results = rs } in
    if is_zero p.requires
    then record rep {
      status_description = "No disapproval policy is specified or the policy is empty";
    }
    else verdict_report rep (is_disapproved orders p ctx)

unfoldable pub evaluate : Orders → Disapproval → Context → Result
unfolding disapproval_report
evaluate orders p ctx =
    leaf (disapproval_report orders p ctx (preconditions orders.keys ctx (predicates p.predicates)))

-- The policy of a configuration that has none.
abbrev pub no_disapproval : Disapproval
no_disapproval = record {
  predicates = no_predicates;
  methods = record { disapprove = none; revoke = none };
  requires = no_actors;
}
