-- ===== src/Predicate/Text.antt =====
-- policy/predicate/branch.go, title.go, repository.go and label.go: predicates on the texts of a pull
-- request.
use policy_bot.Prelude.{
  String, true, false, not, ◌&&◌, List, [], ◌∷◌, map, if◌then◌else◌, is_empty, contains, Attempt,
  ok, ◌>>=◌, wrap, ◌<>◌, to_lower, quote,
}
use policy_bot.Pull.{Context}
use policy_bot.Common.Patterns.{Regexp, regexp_matches, regexp_string, any_matches}
use policy_bot.Common.Result.{PredicateResult, no_predicate_result}

unfoldable pub targets_branch : Regexp → Context → Attempt PredicateResult
unfolding regexp_matches
targets_branch pattern ctx =
    let matches = regexp_matches pattern ctx.base_branch in
    ok (record no_predicate_result {
      satisfied = matches;
      description =
          if matches
          then ""
          else "Target branch "
            <> quote ctx.base_branch
            <> " does not match required pattern "
            <> quote (regexp_string pattern);
      values = ctx.base_branch ∷ [];
      value_phrase = "target branches";
      condition_phrase = "match the required pattern";
      condition_values = regexp_string pattern ∷ [];
    })

unfoldable pub from_branch : Regexp → Context → Attempt PredicateResult
unfolding regexp_matches
from_branch pattern ctx =
    let matches = regexp_matches pattern ctx.head_branch in
    ok (record no_predicate_result {
      satisfied = matches;
      description =
          if matches
          then ""
          else "Source branch "
            <> quote ctx.head_branch
            <> " does not match specified from_branch pattern "
            <> quote (regexp_string pattern);
      values = ctx.head_branch ∷ [];
      value_phrase = "source branches";
      condition_phrase = "match the required pattern";
      condition_values = regexp_string pattern ∷ [];
    })

-- `Title` and `Repository` have these fields.
pub record MatchPatterns : Type 0 where
  pub matches : List Regexp
  pub not_matches : List Regexp

-- The common body of the two predicates, over the text that they look at.
match_text : MatchPatterns → String → (values matched unmatched : String) → PredicateResult
match_text pred text value_phrase matched unmatched =
    let base = record no_predicate_result {
      value_phrase = value_phrase;
      values = text ∷ [];
      condition_phrase = "meet the pattern requirement";
    } in
    let match_patterns = map regexp_string pred.matches in
    let not_match_patterns = map regexp_string pred.not_matches in
    if not (is_empty pred.matches) && any_matches pred.matches text
    then record base {
      conditions_map = ("match", match_patterns) ∷ [];
      description = matched;
      satisfied = true;
    }
    else if not (is_empty pred.not_matches) && not (any_matches pred.not_matches text)
    then record base {
      conditions_map = ("not match", not_match_patterns) ∷ [];
      description = unmatched;
      satisfied = true;
    }
    else record base {
      satisfied = false;
      conditions_map = ("match", match_patterns) ∷ ("not match", not_match_patterns) ∷ [];
    }

unfoldable pub title : MatchPatterns → Context → Attempt PredicateResult
unfolding match_text
title pred ctx = ok (
    match_text pred ctx.title "titles" "PR Title matches a Match pattern"
      "PR Title doesn't match a NotMatch pattern")

unfoldable pub repository : MatchPatterns → Context → Attempt PredicateResult
unfolding match_text
repository pred ctx = ok (
    match_text pred (ctx.repository_owner <> "/" <> ctx.repository_name) "repositories"
      "PR Repository matches a Match pattern" "PR Repository doesn't match a NotMatch pattern")

has_labels_loop : List String → List String → PredicateResult → List String → PredicateResult
has_labels_loop pred labels r [] = record r { condition_values = pred; satisfied = true }
has_labels_loop pred labels r (required ∷ rest) =
    let later = has_labels_loop pred labels r rest in
    if contains labels (to_lower required) then later else record r {
      condition_values = required ∷ [];
      description = "Missing label: " <> required;
      satisfied = false;
    }

abbrev labels_result : PredicateResult
labels_result = record no_predicate_result {
  value_phrase = "labels";
  condition_phrase = "contain the labels";
}

-- With no required label the labels are not asked for.
unfoldable pub has_labels : List String → Context → Attempt PredicateResult
unfolding has_labels_loop
has_labels [] ctx = ok (record labels_result { condition_values = []; satisfied = true })
has_labels (l ∷ ls) ctx = do
  labels ← wrap "failed to list pull request labels" ctx.labels
  ok (has_labels_loop (l ∷ ls) labels (record labels_result { values = labels }) (l ∷ ls))
