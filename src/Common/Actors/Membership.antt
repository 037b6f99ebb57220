-- ===== src/Common/Actors/Membership.antt =====
-- `IsActor` decides the union of the configured conditions.
use policy_bot.Prelude.{
  String, ◌≡◌, refl, ap, ◌∙◌, ◌≢◌, ◌↔◌, inl, inr, Bool, true, false, List, [], ◌∷◌, arith, eq_iff,
  eq_refl, leb, ◌==◌, if◌then◌else◌, Bool-cases, any, contains, ok, wrap, >>=-eq-ok, wrap-eq-ok,
}
use policy_bot.Pull.{Permission, permission_none, Context}
use policy_bot.Common.Actors.{
  Actors, get_permissions, in_teams, in_organizations, has_permission, is_actor,
}
use policy_bot.Common.Actors.Permissions.{any_granted, any-get_permissions}

-- The conditions, one constructor each, without an order between them.
pub data IsAllowed (a : Actors) (ctx : Context) (user : String) : Type 0 where
  listed : contains a.users user ≡ true → IsAllowed a ctx user
  by_team :
      (t : String)
      → contains a.teams t ≡ true
      → ctx.is_team_member t user ≡ ok true
      → IsAllowed a ctx user
  by_organization :
      (o : String)
      → contains a.organizations o ≡ true
      → ctx.is_org_member o user ≡ ok true
      → IsAllowed a ctx user
  by_permission :
      (p : Permission)
      → ctx.collaborator_permission user ≡ ok p
      → p ≢ permission_none
      → any_granted (λ q. leb q p) a ≡ true
      → IsAllowed a ctx user

-- No query about the user fails.
pub record Answers (ctx : Context) (user : String) : Type 0 where
  pub team : (t : String) → (b : Bool) × (ctx.is_team_member t user ≡ ok b)
  pub organization : (o : String) → (b : Bool) × (ctx.is_org_member o user ≡ ok b)
  pub permission : (p : Permission) × (ctx.collaborator_permission user ≡ ok p)

module _ (ctx : Context) (user : String) where
  in_teams_sound :
      (ts : List String)
      → in_teams ctx ts user ≡ ok true
      → (t : String) × (contains ts t ≡ true) × (ctx.is_team_member t user ≡ ok true)
  unfolding in_teams
  in_teams_sound [] h = cc
  in_teams_sound (t ∷ ts) h =
      let step = λ (member : Bool). if member then ok true else in_teams ctx ts user in
      let (member, asked, rest) =
        >>=-eq-ok (wrap "failed to get team membership" (ctx.is_team_member t user)) step h in
      elim (Bool-cases member) [
        | inl e ↦
            (t, rw (eq_refl t) refl, wrap-eq-ok _ (ctx.is_team_member t user) (asked ∙ ap ok e))
        | inr e ↦
            let (t', among, yes_member) = in_teams_sound ts (rw e at rest) in
            (t', rw among (ground arith), yes_member)
      ]

  in_organizations_sound :
      (os : List String)
      → in_organizations ctx os user ≡ ok true
      → (o : String) × (contains os o ≡ true) × (ctx.is_org_member o user ≡ ok true)
  unfolding in_organizations
  in_organizations_sound [] h = cc
  in_organizations_sound (o ∷ os) h =
      let step = λ (member : Bool). if member then ok true else in_organizations ctx os user in
      let (member, asked, rest) =
        >>=-eq-ok (wrap "failed to get org membership" (ctx.is_org_member o user)) step h in
      elim (Bool-cases member) [
        | inl e ↦
            (o, rw (eq_refl o) refl, wrap-eq-ok _ (ctx.is_org_member o user) (asked ∙ ap ok e))
        | inr e ↦
            let (o', among, yes_member) = in_organizations_sound os (rw e at rest) in
            (o', rw among (ground arith), yes_member)
      ]

  has_permission_lem :
      (ps : List Permission) (p : Permission)
      → ctx.collaborator_permission user ≡ ok p
      → has_permission ctx ps user
        ≡ ok (if p == permission_none then false else any (λ q. leb q p) ps)
  unfolding has_permission
  has_permission_lem [] p h = ground arith
  has_permission_lem (q ∷ qs) p h = rw h (ground arith)

  has_permission_sound :
      (ps : List Permission)
      → has_permission ctx ps user ≡ ok true
      → (p : Permission) × (ctx.collaborator_permission user ≡ ok p)
        × (p ≢ permission_none)
        × (any (λ q. leb q p) ps ≡ true)
  unfolding has_permission
  has_permission_sound [] h = cc
  has_permission_sound (q ∷ qs) h =
      let (p, asked, rest) = >>=-eq-ok _ _ h in (p, asked, ground arith, ground arith)

  -- An accepted user meets one of the conditions.
  pub is_actor_sound : (a : Actors) → is_actor a ctx user ≡ ok true → IsAllowed a ctx user
  unfolding is_actor
  is_actor_sound a h = elim (Bool-cases (contains a.users user)) [
    | inl e ↦ listed e
    | inr e ↦
        let (in_team, teams_asked, h1) = >>=-eq-ok (in_teams ctx a.teams user) _ (rw e at h) in
        elim (Bool-cases in_team) [
          | inl team ↦
              let (t, among, member) = in_teams_sound a.teams (teams_asked ∙ ap ok team) in
              by_team t among member
          | inr no_team ↦
              let (in_org, orgs_asked, h2) =
                >>=-eq-ok (in_organizations ctx a.organizations user) _ (rw no_team at h1) in
              elim (Bool-cases in_org) [
                | inl org ↦
                    let (o, among, member) =
                      in_organizations_sound a.organizations (orgs_asked ∙ ap ok org) in
                    by_organization o among member
                | inr no_org ↦
                    let (p, asked, some_perm, enough) =
                      has_permission_sound (get_permissions a) (rw no_org at h2) in
                    by_permission p asked some_perm
                      (rw (any-get_permissions (λ q. leb q p) a) at enough)
              ]
        ]
  ]

  module _ (answers : Answers ctx user) where
    -- Under `answers` each loop returns a Boolean.
    in_teams_complete :
        (ts : List String)
        → (b : Bool) × (in_teams ctx ts user ≡ ok b)
          × ((t : String) → contains ts t ≡ true → ctx.is_team_member t user ≡ ok true → b ≡ true)
    unfolding in_teams
    in_teams_complete [] = (false, refl, λ t among _. cc)
    in_teams_complete (t ∷ ts) =
        let (member, asked) = answers.team t in
        let (b, found, complete) = in_teams_complete ts in
        elim (Bool-cases member) [
          | inl e ↦ (true, rw (asked, e) refl, λ _ _ _. refl)
          | inr e ↦ (
            b,
            rw (asked, e) found,
            λ t' among yes_member. ground (arith, eq_iff t t', complete t'),
          )
        ]

    in_organizations_complete :
        (os : List String)
        → (b : Bool) × (in_organizations ctx os user ≡ ok b)
          × ((o : String) → contains os o ≡ true → ctx.is_org_member o user ≡ ok true → b ≡ true)
    unfolding in_organizations
    in_organizations_complete [] = (false, refl, λ o among _. cc)
    in_organizations_complete (o ∷ os) =
        let (member, asked) = answers.organization o in
        let (b, found, complete) = in_organizations_complete os in
        elim (Bool-cases member) [
          | inl e ↦ (true, rw (asked, e) refl, λ _ _ _. refl)
          | inr e ↦ (
            b,
            rw (asked, e) found,
            λ o' among yes_member. ground (arith, eq_iff o o', complete o'),
          )
        ]

    -- The value that `is_actor` returns when no query fails.
    is_actor_value :
        (a : Actors) → (b : Bool) × (is_actor a ctx user ≡ ok b) × (IsAllowed a ctx user → b ≡ true)
    unfolding is_actor
    is_actor_value a =
        let (t, teams, teams_complete) = in_teams_complete a.teams in
        let (o, orgs, orgs_complete) = in_organizations_complete a.organizations in
        let (p, asked) = answers.permission in
        let perms = has_permission_lem (get_permissions a) p asked in
        let same = any-get_permissions (λ q. leb q p) a in
        elim (Bool-cases (contains a.users user)) [
          | inl e ↦ (true, rw e refl, λ _. refl)
          | inr e ↦ elim (Bool-cases t) [
            | inl team ↦ (true, rw (e, teams, team) refl, λ _. refl)
            | inr no_team ↦ elim (Bool-cases o) [
              | inl org ↦ (true, rw (e, teams, no_team, orgs, org) refl, λ _. refl)
              | inr no_org ↦ (
                if p == permission_none then false else any_granted (λ q. leb q p) a,
                rw (e, teams, no_team, orgs, no_org, ← same) perms,
                elim [
                  | listed yes_user ↦ cc
                  | by_team t' among member ↦ cc (teams_complete t' among member)
                  | by_organization o' among member ↦ cc (orgs_complete o' among member)
                  | by_permission p' found some_perm enough ↦ ground arith
                ],
              )
            ]
          ]
        ]

-- When no query about the user fails, `IsActor` returns without an error, and it accepts exactly the
-- users who meet at least one of the configured conditions: a listed name, a team, an organization,
-- or a collaborator permission other than none that reaches some granted one.
pub is_actor-iff_IsAllowed :
    (a : Actors) (ctx : Context) (user : String)
    → Answers ctx user
    → (b : Bool) × (is_actor a ctx user ≡ ok b) × ((b ≡ true) ↔ IsAllowed a ctx user)
is_actor-iff_IsAllowed a ctx user answers =
    let (b, value, complete) = is_actor_value ctx user answers a in
    (b, value, ((λ e. is_actor_sound ctx user a (value ∙ ap ok e)), complete))
