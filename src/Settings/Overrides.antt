-- ===== src/Settings/Overrides.antt =====
-- The environment over the configured options, and the defaults over both.
use policy_bot.Prelude.{String, ◌≡◌, refl, inl, inr, false, Option, str_eq, Attempt, ◌<>◌}
use policy_bot.Common.Patterns.{CompiledRegexp}
use policy_bot.Settings.{
  PullEvaluationOptions, fill_defaults, or_if_empty, or_if_unset, shared_options,
  default_policy_path, default_shared_repository, default_shared_policy_path,
  default_status_check_context,
}
use policy_bot.Settings.Filled.{IsFilled, fill_defaults-IsFilled}
use policy_bot.Settings.Environment.{
  set_values_from_env, set_own_values_from_env, set_approval_defaults_from_env,
}

-- Options with nothing missing stay as they are.
full_same : (s d : String) → str_eq s "" ≡ false → or_if_empty s d ≡ s
full_same s d h = rw h refl

shared_same :
    (p : PullEvaluationOptions)
    → IsFilled p
    → shared_options
        (or_if_unset p.shared_repository default_shared_repository)
        (or_if_unset p.shared_policy_path default_shared_policy_path)
      ≡ (p.shared_repository, p.shared_policy_path)
shared_same p h = elim h.shared [
  | inl (a, b) ↦ rw (a, b) refl
  | inr (r, s, a, b, c, d) ↦ rw (a, b, c, d) refl
]

fill_defaults-filled : (p : PullEvaluationOptions) → IsFilled p → fill_defaults p ≡ p
unfolding fill_defaults
fill_defaults-filled p h =
    rw
      (
        full_same p.policy_path default_policy_path h.policy_path,
        full_same p.status_check_context default_status_check_context h.status_check_context,
        shared_same p h,
      )
      refl

module _ (lookup_env : String → Option String) (compile : String → Attempt CompiledRegexp) where
  -- Whatever the environment sets, after `SetValuesFromEnv` the policy path and the status context are
  -- not empty, the shared policy is either named by a repository and a path that are not empty or off,
  -- and filling in the defaults once more changes nothing.
  pub set_values_from_env-IsFilled :
      (prefix : String) (p : PullEvaluationOptions)
      → IsFilled (set_values_from_env lookup_env compile prefix p)
        × (fill_defaults (set_values_from_env lookup_env compile prefix p)
            ≡ set_values_from_env lookup_env compile prefix p)
  unfolding set_values_from_env
  set_values_from_env-IsFilled prefix p =
      let own =
        set_approval_defaults_from_env lookup_env compile (prefix <> "APPROVAL_DEFAULTS_")
          (set_own_values_from_env lookup_env compile prefix p) in
      let filled = fill_defaults-IsFilled own in
      (filled, fill_defaults-filled (fill_defaults own) filled)
