-- ===== src/Settings/Filled.antt =====
-- `fillDefaults`: the options after the defaults.
use policy_bot.Prelude.{
  String, ◌≡◌, refl, ◌⊎◌, inl, inr, false, ◌||◌, none, some, arith, str_eq, Bool-cases,
}
use policy_bot.Settings.{
  PullEvaluationOptions, fill_defaults, or_if_empty, or_if_unset, shared_options,
  default_policy_path, default_shared_repository, default_shared_policy_path,
  default_status_check_context,
}

-- The paths and the context are texts that are not empty, and the shared policy is either named by
-- two such texts or off.
pub record IsFilled (p : PullEvaluationOptions) : Type 0 where
  pub policy_path : str_eq p.policy_path "" ≡ false
  pub status_check_context : str_eq p.status_check_context "" ≡ false
  pub shared :
      ((p.shared_repository ≡ some "") × (p.shared_policy_path ≡ none))
      ⊎ ((r : String) × (s : String) × (p.shared_repository ≡ some r)
          × (p.shared_policy_path ≡ some s)
          × (str_eq r "" ≡ false)
          × (str_eq s "" ≡ false))

or_if_empty-filled : (s d : String) → str_eq d "" ≡ false → str_eq (or_if_empty s d) "" ≡ false
or_if_empty-filled s d h = elim (Bool-cases (str_eq s "")) [
  | inl empty ↦ rw empty h
  | inr full ↦ rw full full
]

shared_options-filled :
    (r s : String)
    → (((shared_options r s).0 ≡ some "") × ((shared_options r s).1 ≡ none))
      ⊎ (((shared_options r s).0 ≡ some r)
          × ((shared_options r s).1 ≡ some s)
          × (str_eq r "" ≡ false)
          × (str_eq s "" ≡ false))
shared_options-filled r s = elim (Bool-cases (str_eq r "" || str_eq s "")) [
  | inl off ↦ rw off (inl (refl, refl))
  | inr on ↦ rw on (inr (refl, refl, ground (arith, on), ground (arith, on)))
]

-- After `fillDefaults`, the policy path and the status context are not empty, and the shared policy is
-- either named by a repository and a path that are not empty, or off.
pub fill_defaults-IsFilled : (p : PullEvaluationOptions) → IsFilled (fill_defaults p)
unfolding fill_defaults
fill_defaults-IsFilled p =
    let r = or_if_unset p.shared_repository default_shared_repository in
    let s = or_if_unset p.shared_policy_path default_shared_policy_path in
    record {
      policy_path = or_if_empty-filled p.policy_path default_policy_path refl;
      status_check_context =
          or_if_empty-filled p.status_check_context default_status_check_context refl;
      shared = elim (shared_options-filled r s) [
        | inl off ↦ inl off
        | inr (a, b, c, d) ↦ inr (r, s, a, b, c, d)
      ];
    }
