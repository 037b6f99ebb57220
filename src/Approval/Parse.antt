-- ===== src/Approval/Parse.antt =====
-- policy/approval/parse.go: from a list of rule names and conjunctions to a requirement.
pub mod Outcome
use policy_bot.Prelude.{
  ℕ, suc, String, not, Option, none, some, List, [], ◌∷◌, map, ltb, str_eq, if◌then◌else◌, get,
  Error, raised, Attempt, ok, err, ◌>>=◌, wrap, ◌<>◌, join, MapOrder,
}
use policy_bot.Approval.Rule.{Rule}
use policy_bot.Approval.Requirements.{
  Requirement, Requirements, rule_requirement, or_requirement, and_requirement, no_requirements,
  and_also, Approval,
}

-- A decoded YAML value: a text, a map with texts as keys, a list, or a value of another type, with
-- the type's name. A map holds each key once.
mutual
  pub data Value : Type 0 where
    text : String → Value
    mapping : Entries → Value
    sequence : Values → Value
    other : String → Value

  pub data Values : Type 0 where
    no_values : Values
    and_value : Value → Values → Values

  pub data Entries : Type 0 where
    no_entries : Entries
    and_entry : String → Value → Entries → Entries

abbrev pub Rules : Type 0
Rules = List (String × Rule)

-- `%T`
type_name : Value → String
type_name (text s) = "string"
type_name (mapping es) = "map[interface {}]interface {}"
type_name (sequence vs) = "[]interface {}"
type_name (other t) = t

-- `%v` of a list of texts.
words : List String → String
words xs = "[" <> join " " xs <> "]"

abbrev pub entry_keys : Entries → List String
entry_keys no_entries = []
entry_keys (and_entry k v es) = k ∷ entry_keys es

unfoldable pub undefined_rule : MapOrder String → Rules → String → Error
unfolding words
undefined_rule order rules name = raised (
    "policy references undefined rule '"
    <> name
    <> "', allowed values: "
    <> words (order.arrange (map (λ e. e.0) rules)))

abbrev pub rule_or : Error → Option Rule → Attempt Requirement
rule_or e (some rule) = ok (rule_requirement rule)
rule_or e none = err e

unfoldable pub parse_rule : MapOrder String → Rules → String → Attempt Requirement
unfolding undefined_rule
parse_rule order rules name = rule_or (undefined_rule order rules name) (get name rules)

-- The final switch.
unfoldable pub conjoin : String → Requirements → Attempt Requirement
conjoin op reqs =
    if str_eq op "or"
    then ok (or_requirement reqs)
    else if str_eq op "and"
    then ok (and_requirement reqs)
    else err (raised ("invalid conjunction '" <> op <> "', allowed values: [or, and]"))

-- The depth is at most 10.
abbrev pub max_depth : ℕ
max_depth = 10

abbrev pub too_deep : Error
too_deep = raised "reached maximum recursive depth while processing policy"

malformed : Value → Error
unfolding type_name
malformed v = raised ("malformed policy, expected string or map, but encountered " <> type_name v)

not_a_list : Value → Error
unfolding type_name
not_a_list v = raised ("expected list of subconditions, but got " <> type_name v)

unfoldable mutual
  unfolding parse_rule conjoin malformed not_a_list words

  pub parse_value : MapOrder String → Rules → ℕ → Value → Attempt Requirement
  parse_value order rules depth (text name) =
      if ltb max_depth depth then err too_deep else parse_rule order rules name
  parse_value order rules depth (mapping es) =
      let parsed = parse_entries order rules depth es in
      if ltb max_depth depth then err too_deep else parsed
  parse_value order rules depth (sequence vs) =
      if ltb max_depth depth then err too_deep else err (malformed (sequence vs))
  parse_value order rules depth (other t) =
      if ltb max_depth depth then err too_deep else err (malformed (other t))

  -- The map of a conjunction has one key.
  pub parse_entries : MapOrder String → Rules → ℕ → Entries → Attempt Requirement
  parse_entries order rules depth no_entries =
      err (raised ("multiple keys found when one was expected: " <> words []))
  parse_entries order rules depth (and_entry op v no_entries) =
      parse_conjunction order rules depth op v
  parse_entries order rules depth (and_entry op v (and_entry k w es)) = err (
      raised (
        "multiple keys found when one was expected: "
        <> words (order.arrange (op ∷ k ∷ entry_keys es))))

  pub parse_conjunction : MapOrder String → Rules → ℕ → String → Value → Attempt Requirement
  parse_conjunction order rules depth op (sequence no_values) =
      err (raised "empty list of subconditions is not allowed")
  parse_conjunction order rules depth op (sequence (and_value v vs)) =
      parse_values order rules (suc depth) op (and_value v vs) >>= conjoin op
  parse_conjunction order rules depth op (text s) = err (not_a_list (text s))
  parse_conjunction order rules depth op (mapping es) = err (not_a_list (mapping es))
  parse_conjunction order rules depth op (other t) = err (not_a_list (other t))

  pub parse_values : MapOrder String → Rules → ℕ → String → Values → Attempt Requirements
  parse_values order rules depth op no_values = ok no_requirements
  parse_values order rules depth op (and_value v vs) =
      let rest = parse_values order rules depth op vs in
      wrap ("failed to parse subpolicies for '" <> op <> "'") (parse_value order rules depth v)
      >>= λ req. rest >>= λ reqs. ok (and_also req reqs)

-- The policy is a list; the list is the conjunction of its entries.
unfoldable pub parse : MapOrder String → Rules → Values → Attempt Approval
parse order rules no_values = ok none
parse order rules (and_value v vs) =
    parse_value order rules 0 (mapping (and_entry "and" (sequence (and_value v vs)) no_entries))
    >>= λ root. ok (some root)
