-- ===== src/Common/Patterns.antt =====
-- policy/common/regexp.go and glob.go. A compiled regular expression is its source and the test that
-- the `regexp` package makes of it; a glob carries what the third-party matcher answers for its
-- pattern, `none` for an error of that matcher.
use policy_bot.Prelude.{
  String, Bool, true, false, Option, none, some, List, ◌++◌, map, any, Attempt, ok, ◌>>=◌,
}

pub record CompiledRegexp : Type 0 where
  pub source : String
  pub match_string : String → Bool

-- The zero value of `Regexp` holds no compiled expression.
pub record Regexp : Type 0 where
  pub compiled : Option CompiledRegexp

pub record Glob : Type 0 where
  pub pattern : String
  pub doublestar_match : String → Option Bool

unfoldable pub regexp_is_zero : Regexp → Bool
regexp_is_zero r = elim r.compiled [ none ↦ true | some _ ↦ false ]

-- `compile` is `regexp.Compile`.
unfoldable pub new_regexp : (String → Attempt CompiledRegexp) → String → Attempt Regexp
new_regexp compile pattern = do r ← compile pattern; ok (record { compiled = some r })

unfoldable pub regexp_matches : Regexp → String → Bool
regexp_matches r s = elim r.compiled [ none ↦ false | some c ↦ c.match_string s ]

unfoldable pub regexp_string : Regexp → String
regexp_string r = elim r.compiled [ none ↦ "" | some c ↦ c.source ]

unfoldable pub glob_matches : Glob → String → Bool
glob_matches g s = elim (g.doublestar_match s) [ none ↦ false | some b ↦ b ]

-- policy/predicate/matches.go
unfoldable pub any_matches : List Regexp → String → Bool
unfolding regexp_matches
any_matches re s = any (λ r. regexp_matches r s) re

unfoldable pub any_glob_matches : List Glob → String → Bool
unfolding glob_matches
any_glob_matches patterns s = any (λ p. glob_matches p s) patterns

-- policy/predicate/file.go
unfoldable pub get_path_strings : List Regexp → List Glob → List String
unfolding regexp_string
get_path_strings re globs = map regexp_string re ++ map (λ g. g.pattern) globs
