-- ===== src/Github/Collaborators.antt =====
-- `RepositoryCollaborators` and `CollaboratorPermission`: who may do what, and by which way.
use policy_bot.Prelude.{
  ℕ, zero, suc, String, Bool, true, false, Option, none, some, List, [], ◌∷◌, ◌++◌, map, ltb, leb,
  str_eq, if◌then◌else◌, keep, get, put, diverged, Attempt, ok, err, ◌>>=◌, wrap, ◌<>◌, MapOrder,
}
use policy_bot.Pull.{Permission, permission_none, CollaboratorPermission, Collaborator}
use policy_bot.Pull.Permission.{parse_repository_permissions, parse_permission}
use policy_bot.Github.{V4Actor, get_v3_login}
use policy_bot.Github.Pages.{Listing, list_pages}
use policy_bot.Github.Cursors.{V4PageInfo, Vars, update_cursor}

-- `github.User` in a list of collaborators.
pub record User : Type 0 where
  pub login : String
  pub admin : Bool
  pub maintain : Bool
  pub push : Bool
  pub triage : Bool
  pub pull : Bool

abbrev permission_of : User → Permission
permission_of u = parse_repository_permissions u.admin u.maintain u.push u.triage u.pull

unfoldable direct_permissions : List User → List (String × Permission) → List (String × Permission)
direct_permissions [] m = m
direct_permissions (u ∷ us) m = direct_permissions us (put u.login (permission_of u) m)

-- The teams of a member, once for each time that a team lists it.
unfoldable team_membership : List (String × List String) → String → List String
team_membership [] member = []
team_membership ((team, members) ∷ ts) member =
    map (λ _. team) (keep (λ m. str_eq m member) members) ++ team_membership ts member

-- One more way to a permission: as good as the overall one, it makes that one come from the repository, and
-- else it is listed beside it.
unfoldable add_source :
    Permission
    → Permission
    → Bool × List CollaboratorPermission
    → Bool × List CollaboratorPermission
add_source overall p (via_repo, more) =
    if leb overall p
    then (true, more)
    else if ltb permission_none p
    then (via_repo, more ++ (record { permission = p; via_repo = true } ∷ []))
    else (via_repo, more)

abbrev add_direct :
    Permission
    → Option Permission
    → Bool × List CollaboratorPermission
    → Bool × List CollaboratorPermission
add_direct overall none acc = acc
add_direct overall (some p) acc = add_source overall p acc

-- A missing key reads as no permission.
abbrev or_none : Option Permission → Permission
or_none none = permission_none
or_none (some p) = p

unfoldable pub add_teams :
    Permission
    → List (String × Permission)
    → List String
    → Bool × List CollaboratorPermission
    → Bool × List CollaboratorPermission
unfolding add_source
add_teams overall team_permissions [] acc = acc
add_teams overall team_permissions (t ∷ ts) acc =
    add_teams overall team_permissions ts
      (add_source overall (or_none (get t team_permissions)) acc)

unfoldable fill_permissions :
    List (String × Permission)
    → List (String × Permission)
    → List (String × List String)
    → User
    → Collaborator
unfolding add_teams team_membership
fill_permissions direct team_permissions members u =
    let overall = permission_of u in
    let own = add_direct overall (get u.login direct) (false, []) in
    let filled = add_teams overall team_permissions (team_membership members u.login) own in
    record {
      name = u.login;
      permissions = record { permission = overall; via_repo = filled.0 } ∷ filled.1;
    }

-- The members of each team, in the order in which the map of teams is ranged over.
unfoldable list_members :
    (String → Attempt (List String))
    → String
    → List (String × Permission)
    → Attempt (List (String × List String))
list_members team_members owner [] = ok []
list_members team_members owner ((team, p) ∷ ts) =
    let rest = list_members team_members owner ts in
    team_members (owner <> "/" <> team) >>= λ ms. rest >>= λ more. ok ((team, ms) ∷ more)

unfoldable pub repository_collaborators :
    MapOrder (String × Permission)
    → ℕ
    → Listing User
    → Listing User
    → Attempt (List (String × Permission))
    → (String → Attempt (List String))
    → String
    → Attempt (List Collaborator)
unfolding list_pages direct_permissions list_members fill_permissions
repository_collaborators order n direct every teams team_members owner =
    list_pages (λ _. "failed to load direct repository collaborators") direct n 0 [] >>= λ ds.
    list_pages (λ _. "failed to load all repository collaborators") every n 0 [] >>= λ us.
    teams >>= λ ts. list_members team_members owner (order.arrange ts) >>= λ members.
    ok (map (fill_permissions (direct_permissions ds []) ts members) us)

-- A page of the search for a user, whose edges and nodes are parallel lists.
pub record CollaboratorsPage : Type 0 where
  pub page_info : V4PageInfo
  pub edges : List String
  pub nodes : List V4Actor

-- The index of the user, from a first index on; the source says -1 for none.
unfoldable find_user_index : String → ℕ → List V4Actor → Option ℕ
unfolding get_v3_login
find_user_index user i [] = none
find_user_index user i (u ∷ us) =
    let rest = find_user_index user (suc i) us in
    if str_eq (get_v3_login (some u)) user then some i else rest

-- An index out of range panics.
unfoldable edge_at : ℕ → List String → Attempt String
edge_at i [] = err diverged
edge_at zero (e ∷ es) = ok e
edge_at (suc i) (e ∷ es) = edge_at i es

unfoldable permission_at : Attempt Permission → CollaboratorsPage → Option ℕ → Attempt Permission
unfolding edge_at
permission_at later q none = later
permission_at later q (some i) = edge_at i q.edges >>= parse_permission

unfoldable collaborator_permission_loop :
    (Vars → Attempt CollaboratorsPage) → String → ℕ → Vars → Attempt Permission
unfolding permission_at update_cursor find_user_index
collaborator_permission_loop query user zero vars = err diverged
collaborator_permission_loop query user (suc n) vars =
    wrap "failed to get collaborator permission" (query vars) >>= λ q.
    let more =
      collaborator_permission_loop query user n (update_cursor q.page_info "cursor" vars).1 in
    permission_at (if (update_cursor q.page_info "cursor" vars).0 then more else ok permission_none)
      q (find_user_index user 0 q.nodes)
