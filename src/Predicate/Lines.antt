-- ===== src/Predicate/Lines.antt =====
-- policy/predicate/file.go: the predicate on the numbers of changed lines, and its comparisons.
-- An `int64` is an integer; sums wrap at 64 bits.
use policy_bot.Prelude.{
  ◌>>=◌, ℕ, suc, ℤ, pos, negsuc, ◌+◌, ◌-◌, ◌%◌, String, Bool, true, false, not, ◌&&◌, ◌||◌, List,
  [], ◌∷◌, ◌++◌, ltb, ◌==◌, if◌then◌else◌, is_empty, Attempt, ok, wrap, ◌<>◌, show,
}
use Prim.Native.Nat.{◌^◌}
use policy_bot.Pull.{File, Context}
use policy_bot.Common.Patterns.{Regexp, Glob, get_path_strings}
use policy_bot.Common.Result.{PredicateResult, no_predicate_result}
use policy_bot.Predicate.Files.{path_matches}

-- The integer of a 64-bit pattern.
unfoldable pub int64 : ℕ → ℤ
int64 n =
    let bits = n % 2 ^ 64 in if ltb bits (2 ^ 63) then pos bits else negsuc (2 ^ 64 - 1 - bits)

abbrev pub ltb_ℤ : ℤ → ℤ → Bool
ltb_ℤ (pos a) (pos b) = ltb a b
ltb_ℤ (pos a) (negsuc b) = false
ltb_ℤ (negsuc a) (pos b) = true
ltb_ℤ (negsuc a) (negsuc b) = ltb b a

abbrev pub eq_ℤ : ℤ → ℤ → Bool
eq_ℤ (pos a) (pos b) = a == b
eq_ℤ (pos a) (negsuc b) = false
eq_ℤ (negsuc a) (pos b) = false
eq_ℤ (negsuc a) (negsuc b) = a == b

unfoldable pub show_ℤ : ℤ → String
unfolding show
show_ℤ (pos n) = show n
show_ℤ (negsuc n) = "-" <> show (suc n)

pub data CompareOp : Type 0 where
  op_none op_less_than op_greater_than op_equals : CompareOp

pub record ComparisonExpr : Type 0 where
  pub op : CompareOp
  pub value : ℤ

abbrev op_is_none : CompareOp → Bool
op_is_none op_none = true
op_is_none _ = false

unfoldable pub expr_is_empty : ComparisonExpr → Bool
expr_is_empty e = op_is_none e.op && eq_ℤ e.value (pos 0)

abbrev compare_op : CompareOp → ℤ → ℤ → Bool
compare_op op_none n v = false
compare_op op_less_than n v = ltb_ℤ n v
compare_op op_greater_than n v = ltb_ℤ v n
compare_op op_equals n v = eq_ℤ n v

unfoldable pub expr_evaluate : ComparisonExpr → ℤ → Bool
expr_evaluate e n = compare_op e.op n e.value

abbrev op_text : CompareOp → ℤ → String
op_text op_none v = ""
op_text op_less_than v = "< " <> show_ℤ v
op_text op_greater_than v = "> " <> show_ℤ v
op_text op_equals v = "= " <> show_ℤ v

-- `MarshalText`; an unknown operation, its error, is no value of the type.
unfoldable pub expr_string : ComparisonExpr → String
unfolding show_ℤ
expr_string e = op_text e.op e.value

pub record ModifiedLinesFileFilter : Type 0 where
  pub include : List Regexp
  pub include_globs : List Glob
  pub exclude : List Regexp
  pub exclude_globs : List Glob

unfoldable pub filter_is_zero : ModifiedLinesFileFilter → Bool
filter_is_zero ff =
    is_empty ff.include
    && is_empty ff.include_globs
    && is_empty ff.exclude
    && is_empty ff.exclude_globs

unfoldable pub matches_file : ModifiedLinesFileFilter → String → Bool
matches_file ff name =
    if (not (is_empty ff.exclude) || not (is_empty ff.exclude_globs))
      && path_matches ff.exclude ff.exclude_globs name
    then false
    else if (not (is_empty ff.include) || not (is_empty ff.include_globs))
        && not (path_matches ff.include ff.include_globs name)
    then false
    else true

pub record ModifiedLines : Type 0 where
  pub additions : ComparisonExpr
  pub deletions : ComparisonExpr
  pub total : ComparisonExpr
  pub files : ModifiedLinesFileFilter

-- The 64-bit patterns of the two sums.
unfoldable pub sum_lines : ModifiedLinesFileFilter → (File → ℕ) → ℕ → List File → ℕ
unfolding matches_file
sum_lines ff lines sum [] = sum
sum_lines ff lines sum (f ∷ files) =
    sum_lines ff lines (if matches_file ff f.filename then (sum + lines f) % 2 ^ 64 else sum) files

abbrev condition_key : String
condition_key = "the modification conditions"

filter_map : ModifiedLinesFileFilter → List (String × List String)
filter_map ff =
    (if not (is_empty ff.include) || not (is_empty ff.include_globs)
      then ("in files matching", get_path_strings ff.include ff.include_globs) ∷ []
      else [])
    ++ (if not (is_empty ff.exclude) || not (is_empty ff.exclude_globs)
        then ("excluding files matching", get_path_strings ff.exclude ff.exclude_globs) ∷ []
        else [])

-- The values and conditions that did not hold so far, and whether one held.
pub record Progress : Type 0 where
  pub values : List String
  pub conditions : List String
  pub satisfied : Bool

-- One of the three blocks: nothing if one before it held or the expression is empty.
comparison : ComparisonExpr → ℤ → String → String → Progress → Progress
unfolding expr_is_empty expr_evaluate expr_string
comparison e n value_prefix cond_prefix p =
    let value = value_prefix <> show_ℤ n in
    let cond = cond_prefix <> expr_string e in
    if p.satisfied
    then p
    else if expr_is_empty e
    then p
    else if expr_evaluate e n
    then record { values = value ∷ []; conditions = cond ∷ []; satisfied = true }
    else record {
      values = p.values ++ value ∷ [];
      conditions = p.conditions ++ cond ∷ [];
      satisfied = false;
    }

conditions_entry : Progress → List (String × List String)
conditions_entry p = if is_empty p.conditions then [] else (condition_key, p.conditions) ∷ []

modified_lines_result : ModifiedLines → List File → PredicateResult
unfolding comparison conditions_entry filter_map sum_lines int64
modified_lines_result pred files =
    let additions = sum_lines pred.files (λ f. f.additions) 0 files in
    let deletions = sum_lines pred.files (λ f. f.deletions) 0 files in
    let p0 : Progress = record { values = []; conditions = []; satisfied = false } in
    let p1 = comparison pred.additions (int64 additions) "+" "added lines " p0 in
    let p2 = comparison pred.deletions (int64 deletions) "-" "deleted lines " p1 in
    let p3 =
      comparison pred.total (int64 (additions + deletions)) "total " "total modifications " p2 in
    record no_predicate_result {
      value_phrase = "file modifications";
      condition_phrase = "meet";
      conditions_map = filter_map pred.files ++ conditions_entry p3;
      values = p3.values;
      satisfied = p3.satisfied;
    }

unfoldable pub modified_lines : ModifiedLines → Context → Attempt PredicateResult
unfolding modified_lines_result
modified_lines pred ctx = do
  files ← wrap "failed to list changed files" ctx.changed_files
  ok (modified_lines_result pred files)
