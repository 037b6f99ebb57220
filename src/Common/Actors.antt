-- ===== src/Common/Actors.antt =====
-- policy/common/actor.go
pub mod Permissions
pub mod Membership
pub mod Stability
use policy_bot.Prelude.{
  ℕ, zero, suc, ◌+◌, ◌-◌, ◌*◌, ◌/◌, ◌%◌, ◌≤◌, ◌<◌, String, ◌≡◌, refl, sym, ap, ◌∙◌, ◌≢◌, ◌↔◌, ◌⊎◌,
  inl, inr, Bool, true, false, not, ◌&&◌, ◌||◌, Option, none, some, List, [], ◌∷◌, ◌++◌, map, Mem,
  Nodup, arith, eq_iff, eq_refl, ltb, leb, ◌==◌, str_eq, if◌then◌else◌, ==_iff, ltb→lt, leb→le,
  Bool-cases, Option-cases, length, is_empty, any, all, keep, last?, take, length-append, All,
  contains, get, put, Error, raised, wrapped, diverged, Attempt, ok, err, ◌>>=◌, wrap, >>=-eq-ok,
  wrap-eq-ok, ◌<>◌, show, first_chars, join, contains_text, to_lower, quote, insert_sorted, sort,
  str_lt,
}
use policy_bot.Pull.{Permission, permission_none, permission_write, permission_admin, Context}

pub record Actors : Type 0 where
  pub users : List String
  pub teams : List String
  pub organizations : List String
  pub admins : Bool
  pub write_collaborators : Bool
  pub permissions : List Permission

abbrev pub no_actors : Actors
no_actors = record {
  users = [];
  teams = [];
  organizations = [];
  admins = false;
  write_collaborators = false;
  permissions = [];
}

-- A nil `*Actors` is not used by the callers that are modelled.
unfoldable pub is_zero : Actors → Bool
is_zero a =
    is_empty a.users
    && is_empty a.teams
    && is_empty a.organizations
    && is_empty a.permissions
    && not a.admins
    && not a.write_collaborators

-- A set of permissions: `permSet[p] = struct{}{}`.
unfoldable pub add_permission : Permission → List Permission → List Permission
add_permission p set = if any (λ q. q == p) set then set else p ∷ set

add_permissions : List Permission → List Permission → List Permission
unfolding add_permission
add_permissions [] set = set
add_permissions (p ∷ ps) set = add_permissions ps (add_permission p set)

permission_set : Actors → List Permission
unfolding add_permissions
permission_set a =
    let listed = add_permissions a.permissions [] in
    let with_admins = if a.admins then add_permission permission_admin listed else listed in
    if a.write_collaborators then add_permission permission_write with_admins else with_admins

abbrev more_privileged : Permission → Permission → Bool
more_privileged p q = ltb q p

-- Sorted by decreasing privilege, so the order of the map's iteration does not show.
unfoldable pub get_permissions : Actors → List Permission
unfolding permission_set sort
get_permissions a = sort more_privileged (permission_set a)

-- The first group that holds the user ends the search; an error of a query ends it too.
in_teams : Context → List String → String → Attempt Bool
in_teams ctx [] user = ok false
in_teams ctx (t ∷ ts) user =
    let rest = in_teams ctx ts user in
    wrap "failed to get team membership" (ctx.is_team_member t user) >>= λ member.
    if member then ok true else rest

in_organizations : Context → List String → String → Attempt Bool
in_organizations ctx [] user = ok false
in_organizations ctx (o ∷ os) user =
    let rest = in_organizations ctx os user in
    wrap "failed to get org membership" (ctx.is_org_member o user) >>= λ member.
    if member then ok true else rest

has_permission : Context → List Permission → String → Attempt Bool
has_permission ctx [] user = ok false
has_permission ctx (q ∷ qs) user = do
  user_perm ← ctx.collaborator_permission user
  if user_perm == permission_none then ok false else ok (any (λ p. leb p user_perm) (q ∷ qs))

unfoldable pub is_actor : Actors → Context → String → Attempt Bool
unfolding get_permissions in_teams in_organizations has_permission
is_actor a ctx user =
    if contains a.users user
    then ok true
    else in_teams ctx a.teams user >>= λ in_team.
        if in_team
        then ok true
        else in_organizations ctx a.organizations user >>= λ in_org.
            if in_org then ok true else has_permission ctx (get_permissions a) user
