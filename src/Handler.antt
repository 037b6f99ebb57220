-- ===== src/Handler.antt =====
-- server/handler/eval_context_dismissal.go: the dismissal of stale reviews after an evaluation.
pub mod Leaves
pub mod Once
use policy_bot.Prelude.{
  String, Bool, true, false, not, ◌&&◌, ◌||◌, Option, none, some, List, [], ◌∷◌, ◌++◌, map, str_eq,
  if◌then◌else◌, contains, Error, wrapped, ◌<>◌,
}
use policy_bot.Common.Methods.{review_candidate}
use policy_bot.Common.Result.{Result, result, Results, no_results, and_result, Dismissal}

abbrev pub is_unset {ℓ} : {A : Type ℓ} → Option A → Bool
is_unset none = true
is_unset (some a) = false

abbrev pub has_no_children : Results → Bool
has_no_children no_results = true
has_no_children (and_result r rs) = false

unfoldable mutual
  pub find_all_dismissals : Result → List Dismissal
  find_all_dismissals (result rep rs) =
      (if has_no_children rs && is_unset rep.error then rep.dismissals else [])
      ++ find_each_dismissals rs

  pub find_each_dismissals : Results → List Dismissal
  find_each_dismissals no_results = []
  find_each_dismissals (and_result r rs) = find_all_dismissals r ++ find_each_dismissals rs

-- The set of users, as a list.
unfoldable mutual
  pub find_all_approvers : Result → List String
  find_all_approvers (result rep rs) =
      (if has_no_children rs && is_unset rep.error
        then map (λ c. c.user) rep.requires.approvers
        else [])
      ++ find_each_approvers rs

  pub find_each_approvers : Results → List String
  find_each_approvers no_results = []
  find_each_approvers (and_result r rs) = find_all_approvers r ++ find_each_approvers rs

-- The requests that are sent to GitHub, each a review and a reason, and the error that ends the loop.
pub record Dismissed : Type 0 where
  pub sent : List (String × String)
  pub error : Option Error

abbrev pub nothing_sent : Dismissed
nothing_sent = record { sent = []; error = none }

-- One request, and what follows if GitHub accepts it.
abbrev pub send_one : String → String → Option Error → Dismissed → Dismissed
send_one id reason (some e) later = record {
  sent = (id, reason) ∷ [];
  error = some (wrapped ("failed to dismiss pull request review " <> id) e);
}
send_one id reason none later = record later { sent = (id, reason) ∷ later.sent }

-- A review that is stale, and whose user is not an approver unless dismissals are strict.
unfoldable pub is_dismissible : Bool → List String → Dismissal → Bool
is_dismissible strict approvers d =
    str_eq d.candidate.type review_candidate
    && (strict || not (contains approvers d.candidate.user))

-- The loop; `done` are the reviews dismissed so far, and `answer` is GitHub's.
unfoldable pub dismiss_loop :
    (String → String → Option Error) → Bool → List String → List String → List Dismissal → Dismissed
unfolding is_dismissible
dismiss_loop answer strict approvers done [] = nothing_sent
dismiss_loop answer strict approvers done (d ∷ ds) =
    let skip = dismiss_loop answer strict approvers done ds in
    let id = d.candidate.review_id in
    let next = dismiss_loop answer strict approvers (id ∷ done) ds in
    if not (is_dismissible strict approvers d) || contains done id
    then skip
    else send_one id d.reason (answer id d.reason) next

unfoldable pub dismiss_stale_reviews_for_result :
    (String → String → Option Error) → Bool → Result → Dismissed
unfolding dismiss_loop find_all_approvers find_all_dismissals
dismiss_stale_reviews_for_result answer strict r =
    dismiss_loop answer strict (find_all_approvers r) [] (find_all_dismissals r)
