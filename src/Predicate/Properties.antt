-- ===== src/Predicate/Properties.antt =====
-- policy/predicate/custom_properties.go. The patterns of a map-valued predicate are an association
-- list; which entry ends the loop does not show in the result.
use policy_bot.Prelude.{
  String, Bool, true, false, not, Option, none, some, List, map, all, get, Attempt, ok, ◌>>=◌, wrap,
  ◌<>◌, join, sort, str_lt,
}
use policy_bot.Pull.{CustomProperty, Context}
use policy_bot.Common.Patterns.{Regexp, regexp_string, any_matches}
use policy_bot.Common.Result.{PredicateResult, no_predicate_result}

abbrev Properties : Type 0
Properties = List (String × CustomProperty)

-- An array replaces the text of a string.
format_property : CustomProperty → String
format_property v = elim v.array [
  | none ↦ elim v.string [ none ↦ "(null)" | some s ↦ s ]
  | some a ↦ "[" <> join ", " a <> "]"
]

abbrev key_before : String × CustomProperty → String × CustomProperty → Bool
key_before e f = str_lt e.0 f.0

unfoldable pub format_custom_properties : List (String × CustomProperty) → List String
unfolding format_property sort
format_custom_properties properties =
    map (λ e. e.0 <> ": " <> format_property e.1) (sort key_before properties)

abbrev pub has_property : List (String × CustomProperty) → String → Bool
has_property properties p = elim (get p properties) [ none ↦ false | some _ ↦ true ]

unfoldable pub custom_property_is_not_null : List String → Context → Attempt PredicateResult
custom_property_is_not_null pred ctx = do
  properties ← wrap "failed to get repository custom properties" ctx.repository_custom_properties
  ok (record no_predicate_result {
    value_phrase = "custom properties";
    values = format_custom_properties properties;
    condition_phrase = "contain";
    condition_values = pred;
    satisfied = all (has_property properties) pred;
  })

unfoldable pub custom_property_is_null : List String → Context → Attempt PredicateResult
custom_property_is_null pred ctx = do
  properties ← wrap "failed to get repository custom properties" ctx.repository_custom_properties
  ok (record no_predicate_result {
    value_phrase = "custom properties";
    values = format_custom_properties properties;
    reverse_skip_phrase = true;
    condition_phrase = "contain";
    condition_values = pred;
    satisfied = all (λ p. not (has_property properties p)) pred;
  })

abbrev pub PropertyPatterns : Type 0
PropertyPatterns = List (String × List Regexp)

abbrev patterns_map : PropertyPatterns → List (String × List String)
patterns_map pred = map (λ e. (e.0, map regexp_string e.1)) pred

-- A property that is not set, or is no string, matches no pattern.
abbrev pub property_matches : Option CustomProperty → List Regexp → Bool
property_matches none patterns = false
property_matches (some v) patterns = elim v.string [
  | none ↦ false
  | some s ↦ any_matches patterns s
]

unfoldable pub custom_property_matches_any_of : PropertyPatterns → Context → Attempt PredicateResult
custom_property_matches_any_of pred ctx = do
  properties ← wrap "failed to get repository custom properties" ctx.repository_custom_properties
  ok (record no_predicate_result {
    value_phrase = "custom properties";
    values = format_custom_properties properties;
    condition_phrase = "match one or more of the patterns";
    conditions_map = patterns_map pred;
    satisfied = all (λ e. property_matches (get e.0 properties) e.1) pred;
  })

unfoldable pub custom_property_matches_none_of :
    PropertyPatterns → Context → Attempt PredicateResult
custom_property_matches_none_of pred ctx = do
  properties ← wrap "failed to get repository custom properties" ctx.repository_custom_properties
  ok (record no_predicate_result {
    value_phrase = "custom properties";
    values = format_custom_properties properties;
    reverse_skip_phrase = true;
    condition_phrase = "match one or more of the patterns";
    conditions_map = patterns_map pred;
    satisfied = all (λ e. not (property_matches (get e.0 properties) e.1)) pred;
  })
