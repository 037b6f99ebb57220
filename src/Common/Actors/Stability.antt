-- ===== src/Common/Actors/Stability.antt =====
-- What the membership test depends on.
use policy_bot.Prelude.{String, ◌≡◌, refl, List, [], ◌∷◌}
use policy_bot.Pull.{Permission, Context}
use policy_bot.Common.Actors.{Actors, in_teams, in_organizations, has_permission, is_actor}

-- Two contexts that answer membership queries alike.
pub record SameMembership (c d : Context) : Type 0 where
  pub team : (t u : String) → c.is_team_member t u ≡ d.is_team_member t u
  pub organization : (o u : String) → c.is_org_member o u ≡ d.is_org_member o u
  pub permission : (u : String) → c.collaborator_permission u ≡ d.collaborator_permission u

module _ {c d : Context} (same : SameMembership c d) (user : String) where
  in_teams_same : (ts : List String) → in_teams c ts user ≡ in_teams d ts user
  unfolding in_teams
  in_teams_same [] = refl
  in_teams_same (t ∷ ts) = simp (same.team, in_teams_same ts)

  in_organizations_same :
      (os : List String) → in_organizations c os user ≡ in_organizations d os user
  unfolding in_organizations
  in_organizations_same [] = refl
  in_organizations_same (o ∷ os) = simp (same.organization, in_organizations_same os)

  has_permission_same : (ps : List Permission) → has_permission c ps user ≡ has_permission d ps user
  unfolding has_permission
  has_permission_same [] = refl
  has_permission_same (p ∷ ps) = simp same.permission

  pub is_actor_same : (a : Actors) → is_actor a c user ≡ is_actor a d user
  unfolding is_actor
  is_actor_same a =
      simp (in_teams_same a.teams, in_organizations_same a.organizations, has_permission_same)
