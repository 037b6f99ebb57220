-- ===== src/Reviewer/Requests.antt =====
-- Which results want reviews, and which reviewers are new.
use policy_bot.Prelude.{
  In, In-concat, In-concat_left, In-concat_right, Bool-cases, Option, some, none, ◌⊎◌, inl, inr,
  ◌↔◌, Error,
}
use mathlib.Core.Path.{subst}
use policy_bot.Common.Result.{ReviewRequestRule}
use policy_bot.Prelude.{
  ◌-◌, ◌<◌, String, ◌≡◌, refl, ap, ◌∙◌, Bool, true, false, not, ◌&&◌, ◌||◌, List, [], ◌∷◌, ◌++◌,
  arith, eq_iff, ltb, str_eq, if◌then◌else◌, ltb→lt, length, keep, sym, contains,
}
use policy_bot.Pull.{Reviewer, reviewer_user, reviewer_team}
use policy_bot.Common.Result.{
  Report, Result, result, Results, no_results, and_result, EvaluationStatus, skipped, pending,
  approved, disapproved, status_eq, remaining_approvals,
}
use policy_bot.Reviewer.{
  Selection, reviewer_names, without, difference, is_unset, requests_review, find_requests,
  find_each,
}

-- The result is in the tree, has no children, has a request and no error, and has fewer approvers than it
-- requires; it and all results above it are pending.
mutual
  pub data WantsReview (rep : Report) : Result → Type 0 where
    wants :
        rep.status ≡ pending
        → (rule : ReviewRequestRule) → rep.review_request_rule ≡ some rule
        → rep.error ≡ none
        → length rep.requires.approvers < rep.requires.count
        → WantsReview rep (result rep no_results)
    inside :
        {parent : Report} {rs : Results}
        → parent.status ≡ pending
        → WantsWithin rep rs
        → WantsReview rep (result parent rs)

  pub data WantsWithin (rep : Report) : Results → Type 0 where
    first : {r : Result} {rs : Results} → WantsReview rep r → WantsWithin rep (and_result r rs)
    later : {r : Result} {rs : Results} → WantsWithin rep rs → WantsWithin rep (and_result r rs)

is_pending : (s : EvaluationStatus) → not (status_eq s pending) ≡ false → s ≡ pending
unfolding status_eq
is_pending pending h = refl
is_pending skipped h = cc
is_pending approved h = cc
is_pending disapproved h = cc

pending_status : (s : EvaluationStatus) → s ≡ pending → not (status_eq s pending) ≡ false
unfolding status_eq
pending_status pending h = refl
pending_status skipped h = absurd cc
pending_status approved h = absurd cc
pending_status disapproved h = absurd cc

abbrev own_request : Report → Results → List Report
own_request rep rs = if requests_review rep rs then rep ∷ [] else []

-- What the test of a single result decides.
own-wants :
    (leaf rep : Report) (rs : Results)
    → rep.status ≡ pending
    → In leaf (own_request rep rs)
    → WantsReview leaf (result rep rs)
unfolding requests_review remaining_approvals
own-wants leaf rep (and_result r rs) waits among = absurd among
own-wants leaf rep no_results waits among =
    by_fields rep.review_request_rule refl rep.error refl
      (Bool-cases (ltb 0 (rep.requires.count - length rep.requires.approvers))) among
  where
    by_fields :
        (o : Option ReviewRequestRule)
        → rep.review_request_rule ≡ o
        → (e : Option Error) → rep.error ≡ e
        → (ltb 0 (rep.requires.count - length rep.requires.approvers) ≡ true)
          ⊎ (ltb 0 (rep.requires.count - length rep.requires.approvers) ≡ false)
        → In leaf (
            if true
              && not (is_unset o)
              && is_unset e
              && ltb 0 (rep.requires.count - length rep.requires.approvers)
            then rep ∷ []
            else [])
        → WantsReview leaf (result rep no_results)
    by_fields none p e q few m = absurd m
    by_fields (some rule) p (some e) q few m = absurd m
    by_fields (some rule) p none q (inr enough) m = absurd (rw enough at m)
    by_fields (some rule) p none q (inl few) m = elim (rw few at m) [
      | inr nothing ↦ absurd nothing
      | inl same ↦
          let gap = ltb→lt 0 (rep.requires.count - length rep.requires.approvers) few in
          subst (λ x. WantsReview x (result rep no_results)) same
            (wants waits rule p q (omega (arith, gap)))
    ]

wants-own :
    (leaf : Report) (rule : ReviewRequestRule)
    → leaf.review_request_rule ≡ some rule
    → leaf.error ≡ none
    → length leaf.requires.approvers < leaf.requires.count
    → requests_review leaf no_results ≡ true
unfolding requests_review remaining_approvals
wants-own leaf rule p q few =
    by_fields leaf.review_request_rule p leaf.error q
      (ltb 0 (leaf.requires.count - length leaf.requires.approvers)) (ground (arith, few))
  where
    by_fields :
        (o : Option ReviewRequestRule)
        → o ≡ some rule
        → (e : Option Error) → e ≡ none
        → (b : Bool) → b ≡ true
        → (true && not (is_unset o) && is_unset e && b) ≡ true
    by_fields none p e q b h = absurd cc
    by_fields (some x) p (some e) q b h = absurd cc
    by_fields (some x) p none q b h = h

by_part :
    (leaf rep : Report) (rs : Results)
    → (In leaf (find_each rs) → WantsWithin leaf rs)
    → rep.status ≡ pending
    → In leaf (find_each rs) ⊎ In leaf (own_request rep rs)
    → WantsReview leaf (result rep rs)
by_part leaf rep rs hyp waits (inl below) = inside waits (hyp below)
by_part leaf rep rs hyp waits (inr here) = own-wants leaf rep rs waits here

by_status :
    (leaf rep : Report) (rs : Results)
    → (In leaf (find_each rs) → WantsWithin leaf rs)
    → (b : Bool) → not (status_eq rep.status pending) ≡ b
    → In leaf (if b then [] else find_each rs ++ own_request rep rs)
    → WantsReview leaf (result rep rs)
by_status leaf rep rs hyp true e m = absurd m
by_status leaf rep rs hyp false e m =
    by_part leaf rep rs hyp (is_pending rep.status e)
      (In-concat (find_each rs) (own_request rep rs) leaf m)

mutual
  unfolding find_requests

  find_requests-wants :
      (leaf : Report) (r : Result) → In leaf (find_requests r) → WantsReview leaf r
  find_requests-wants leaf (result rep rs) among =
      by_status leaf rep rs (find_each-wants leaf rs) (not (status_eq rep.status pending)) refl
        among

  find_each-wants : (leaf : Report) (rs : Results) → In leaf (find_each rs) → WantsWithin leaf rs
  find_each-wants leaf no_results among = absurd among
  find_each-wants leaf (and_result r rs) among =
      elim (In-concat (find_requests r) (find_each rs) leaf among) [
        | inl l ↦ first (find_requests-wants leaf r l)
        | inr m ↦ later (find_each-wants leaf rs m)
      ]

mutual
  unfolding find_requests

  wants-find_requests :
      (leaf : Report) (r : Result) → WantsReview leaf r → In leaf (find_requests r)
  wants-find_requests leaf (result _ no_results) (wants waits rule p q few) =
      rw (pending_status leaf.status waits, wants-own leaf rule p q few) (inl refl)
  wants-find_requests leaf (result rep rs) (inside waits below) =
      rw (pending_status rep.status waits)
        (In-concat_left leaf (find_each rs) (own_request rep rs) (wants-find_each leaf rs below))

  wants-find_each : (leaf : Report) (rs : Results) → WantsWithin leaf rs → In leaf (find_each rs)
  wants-find_each leaf no_results below = elim below [ ]
  wants-find_each leaf (and_result r rs) (first below) =
      In-concat_left leaf (find_requests r) (find_each rs) (wants-find_requests leaf r below)
  wants-find_each leaf (and_result r rs) (later below) =
      In-concat_right leaf (find_requests r) (find_each rs) (wants-find_each leaf rs below)

-- `FindRequests` returns exactly the results without children that have a request and no error and lack
-- approvals, where they and all results above them are pending.
pub find_requests-iff_WantsReview :
    (r : Result) (leaf : Report) → In leaf (find_requests r) ↔ WantsReview leaf r
find_requests-iff_WantsReview r leaf = (find_requests-wants leaf r, wants-find_requests leaf r)

kept_step :
    (e g out rest w : Bool)
    → (e ≡ true → g ≡ out)
    → w ≡ (rest && not out)
    → (if not g then e || w else w) ≡ ((e || rest) && not out)
kept_step true true true rest w same ih = ih ∙ nothing rest
  where
    nothing : (r : Bool) → (r && false) ≡ false
    nothing r = ground arith
kept_step true true false rest w same ih = cc (same refl)
kept_step true false true rest w same ih = cc (same refl)
kept_step true false false rest w same ih = refl
kept_step false true out rest w same ih = ih
kept_step false false out rest w same ih = ih

pub contains-keep :
    (p : String → Bool) (xs : List String) (x : String)
    → contains (keep p xs) x ≡ (contains xs x && p x)
contains-keep p [] x = refl
contains-keep p (y ∷ ys) x =
    by_test (p y) refl
    ∙ kept_step (str_eq y x) (not (p y)) (not (p x)) (contains ys x) (contains (keep p ys) x)
        (λ e. ap (λ z. not (p z)) ((eq_iff y x).0 e))
        (contains-keep p ys x ∙ ap (λ b. contains ys x && b) (sym (twice (p x))))
    ∙ ap (λ b. (str_eq y x || contains ys x) && b) (twice (p x))
  where
    twice : (b : Bool) → not (not b) ≡ b
    twice b = ground arith

    by_test :
        (b : Bool)
        → p y ≡ b
        → contains (if b then y ∷ keep p ys else keep p ys) x
          ≡ (if not (not b) then str_eq y x || contains (keep p ys) x else contains (keep p ys) x)
    by_test true e = refl
    by_test false e = refl

contains-without :
    (gone xs : List String) (x : String)
    → contains (without gone xs) x ≡ (contains xs x && not (contains gone x))
contains-without gone xs x = contains-keep (λ y. not (contains gone y)) xs x

-- `Difference` keeps exactly the selected users that are no reviewers of the pull request yet, removed
-- ones included, and exactly the selected teams that are not.
pub difference-contains :
    (s : Selection) (reviewers : List Reviewer) (x : String)
    → (contains (difference s reviewers).users x
        ≡ (contains s.users x && not (contains (reviewer_names reviewer_user reviewers) x)))
      × (contains (difference s reviewers).teams x
          ≡ (contains s.teams x && not (contains (reviewer_names reviewer_team reviewers) x)))
unfolding difference
difference-contains s reviewers x = (
  contains-without (reviewer_names reviewer_user reviewers) s.users x,
  contains-without (reviewer_names reviewer_team reviewers) s.teams x,
)
