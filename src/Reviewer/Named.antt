-- ===== src/Reviewer/Named.antt =====
-- Whom a review request names, in the ways that `selectUserReviewers` collects them.
use policy_bot.Prelude.{
  In, In-concat, In-concat_left, In-concat_right, In-keep, keep-In, In-map, map-In, contains→In,
  In→contains, String, ℕ, ◌≡◌, refl, sym, ap, ◌∙◌, inl, inr, ◌↔◌, Bool, true, ◌&&◌, ◌==◌, List, [],
  ◌∷◌, ◌++◌, arith, any, All, keep, map, contains, Attempt, ok, err, ◌>>=◌, ok-injective, >>=-eq-ok,
  Bool-cases,
}
use mathlib.Core.Path.{subst}
use policy_bot.Pull.{CollaboratorPermission, Collaborator, Context}
use policy_bot.Common.Result.{ReviewRequestRule}
use policy_bot.Reviewer.{
  members_of, or_nobody, requests_permission, has_requested_permission, all_users,
}

-- All the teams or organizations could be listed, and one of them has the user.
abbrev pub IsMember : (String → Attempt (List String)) → List String → String → Type 0
IsMember ask names user =
    All (λ n. (members : List String) × (ask n ≡ ok members)) names
    × ((n : String) × In n names
        × ((members : List String) × (ask n ≡ ok members) × In user members))

-- The collaborator has a permission through the repository that the rule names.
abbrev pub HasPermission : ReviewRequestRule → Collaborator → Type 0
HasPermission rule c =
    (cp : CollaboratorPermission) × In cp c.permissions
    × (cp.via_repo ≡ true)
    × In cp.permission rule.permissions

-- The rule names the user, a team or an organization of theirs, or a permission that they have as a
-- collaborator through the repository.
pub data IsNamed (rule : ReviewRequestRule) (ctx : Context) (collaborators : List Collaborator)
    (user : String) : Type 0 where
  by_name : In user rule.users → IsNamed rule ctx collaborators user
  by_team : IsMember ctx.team_members rule.teams user → IsNamed rule ctx collaborators user
  by_organization :
      IsMember ctx.organization_members rule.organizations user
      → IsNamed rule ctx collaborators user
  by_permission :
      (c : Collaborator)
      → In c collaborators
      → c.name ≡ user
      → HasPermission rule c
      → IsNamed rule ctx collaborators user

module _ {A : Type 0} (p : A → Bool) where
  any-In : (xs : List A) → any p xs ≡ true → (x : A) × In x xs × (p x ≡ true)
  any-In [] h = absurd cc
  any-In (x ∷ xs) h = elim (Bool-cases (p x)) [
    | inl met ↦ (x, inl refl, met)
    | inr missed ↦ let (y, m, e) = any-In xs (rw missed at h) in (y, inr m, e)
  ]

  In-any : (xs : List A) (x : A) → In x xs → p x ≡ true → any p xs ≡ true
  In-any [] x among h = absurd among
  In-any (y ∷ xs) x (inl same) h = rw (same, h) refl
  In-any (y ∷ xs) x (inr among) h = elim (Bool-cases (p y)) [
    | inl met ↦ rw met refl
    | inr missed ↦ rw missed (In-any xs x among h)
  ]

requests_permission-iff_In :
    (rule : ReviewRequestRule) (p : ℕ) → (requests_permission rule p ≡ true) ↔ In p rule.permissions
unfolding requests_permission
requests_permission-iff_In rule p = (
  (λ h.
      let (q, among, same) = any-In (λ q. q == p) rule.permissions h in
      let one : q ≡ p = ground arith in subst (λ x. In x rule.permissions) one among),
  λ among. In-any (λ q. q == p) rule.permissions p among (itself p),
)
  where
    itself : (n : ℕ) → (n == n) ≡ true
    itself n = ground arith

both : (a b : Bool) → (a && b) ≡ true → (a ≡ true) × (b ≡ true)
both a b h = ground arith

has_requested_permission-iff_HasPermission :
    (rule : ReviewRequestRule) (c : Collaborator)
    → (has_requested_permission rule c ≡ true) ↔ HasPermission rule c
unfolding has_requested_permission
has_requested_permission-iff_HasPermission rule c = (
  (λ h.
      let (cp, among, e) = any-In test c.permissions h in
      let (via, asked) = both cp.via_repo (requests_permission rule cp.permission) e in
      (cp, among, via, (requests_permission-iff_In rule cp.permission).0 asked)),
  λ (cp, among, via, asked).
      In-any test c.permissions cp among
        (rw (via, (requests_permission-iff_In rule cp.permission).1 asked) refl),
)
  where
    test : CollaboratorPermission → Bool
    test cp = cp.via_repo && requests_permission rule cp.permission

module _ (ask : String → Attempt (List String)) (user : String) where
  -- One of the teams or organizations has the user.
  abbrev Somewhere : List String → Type 0
  Somewhere names =
      (n : String) × In n names × ((members : List String) × (ask n ≡ ok members) × In user members)

  abbrev Listed : List String → Type 0
  Listed = All (λ n. (members : List String) × (ask n ≡ ok members))

  further : (name : String) (names : List String) → Somewhere names → Somewhere (name ∷ names)
  further name names (n, among, has) = (n, inr among, has)

  members_of-members :
      (names us : List String)
      → members_of ask names ≡ ok us
      → Listed names × (In user us → Somewhere names)
  unfolding members_of
  members_of-members [] us h = (tt, λ among. absurd (subst (In user) (sym (ok-injective h)) among))
  members_of-members (name ∷ names) us h =
      let (members, first, rest) =
        >>=-eq-ok (ask name) (λ ms. members_of ask names >>= λ others. ok (ms ++ others)) h in
      let (others, later, same) =
        >>=-eq-ok (members_of ask names) (λ others. ok (members ++ others)) rest in
      let (listed, found) = members_of-members names others later in
      (
        ((members, first), listed),
        λ among.
            elim (In-concat members others user (subst (In user) (sym (ok-injective same)) among)) [
              | inl l ↦ (name, inl refl, (members, first, l))
              | inr r ↦ further name names (found r)
            ],
      )

  members-members_of :
      (names : List String)
      → Listed names
      → (us : List String) × (members_of ask names ≡ ok us) × (Somewhere names → In user us)
  unfolding members_of
  members-members_of [] h = ([], refl, λ (n, among, has). absurd among)
  members-members_of (name ∷ names) ((members, first), h) =
      let (others, later, found) = members-members_of names h in
      (members ++ others, rw (first, later) refl, place others found)
    where
      place :
          (others : List String)
          → (Somewhere names → In user others)
          → Somewhere (name ∷ names)
          → In user (members ++ others)
      place others found (n, inl same, (ms, asked, has)) =
          let one : ms ≡ members = ok-injective (sym asked ∙ ap ask (sym same) ∙ first) in
          In-concat_left user members others (subst (In user) one has)
      place others found (n, inr among, has) =
          In-concat_right user members others (found (n, among, has))

  members_of-iff_IsMember :
      (names : List String) → In user (or_nobody (members_of ask names)) ↔ IsMember ask names user
  members_of-iff_IsMember names = (
    by_answer (members_of ask names) refl,
    λ (listed, has).
        let (us, answer, found) = members-members_of names listed in rw answer (found has),
  )
    where
      by_answer :
          (a : Attempt (List String))
          → members_of ask names ≡ a
          → In user (or_nobody a)
          → IsMember ask names user
      by_answer (ok us) e among =
          let (listed, found) = members_of-members names us e in (listed, found among)
      by_answer (err x) e among = absurd among

module _ (rule : ReviewRequestRule) (ctx : Context) (collaborators : List Collaborator)
    (user : String) where
  abbrev from_teams : List String
  from_teams = or_nobody (members_of ctx.team_members rule.teams)

  abbrev from_organizations : List String
  from_organizations = or_nobody (members_of ctx.organization_members rule.organizations)

  abbrev from_permissions : List String
  from_permissions = map (λ c. c.name) (keep (has_requested_permission rule) collaborators)

  all_users-IsNamed :
      contains (all_users rule ctx collaborators) user ≡ true → IsNamed rule ctx collaborators user
  unfolding all_users
  all_users-IsNamed h = elim (In-concat rule.users _ user (contains→In _ user h)) [
    | inl l ↦ by_name l
    | inr m ↦ elim (In-concat from_teams _ user m) [
      | inl l ↦ by_team ((members_of-iff_IsMember ctx.team_members user rule.teams).0 l)
      | inr o ↦ elim (In-concat from_organizations from_permissions user o) [
        | inl l ↦
            by_organization
              ((members_of-iff_IsMember ctx.organization_members user rule.organizations).0 l)
        | inr p ↦
            let (c, kept, same) =
              In-map (λ c. c.name) user (keep (has_requested_permission rule) collaborators) p in
            let (may, among) = keep-In (has_requested_permission rule) c collaborators kept in
            by_permission c among same ((has_requested_permission-iff_HasPermission rule c).0 may)
      ]
    ]
  ]

  IsNamed-all_users :
      IsNamed rule ctx collaborators user → contains (all_users rule ctx collaborators) user ≡ true
  unfolding all_users
  IsNamed-all_users named = In→contains _ user (place named)
    where
      after_users :
          In user (from_teams ++ (from_organizations ++ from_permissions))
          → In user (rule.users ++ (from_teams ++ (from_organizations ++ from_permissions)))
      after_users = In-concat_right user rule.users _

      after_teams :
          In user (from_organizations ++ from_permissions)
          → In user (rule.users ++ (from_teams ++ (from_organizations ++ from_permissions)))
      after_teams m = after_users (In-concat_right user from_teams _ m)

      place :
          IsNamed rule ctx collaborators user
          → In user (rule.users ++ (from_teams ++ (from_organizations ++ from_permissions)))
      place (by_name m) = In-concat_left user rule.users _ m
      place (by_team m) = after_users (
          In-concat_left user from_teams _
            ((members_of-iff_IsMember ctx.team_members user rule.teams).1 m))
      place (by_organization m) = after_teams (
          In-concat_left user from_organizations from_permissions
            ((members_of-iff_IsMember ctx.organization_members user rule.organizations).1 m))
      place (by_permission c among same may) = after_teams (
          In-concat_right user from_organizations from_permissions (
            subst (λ n. In n from_permissions) same
              (map-In (λ c. c.name) c (keep (has_requested_permission rule) collaborators)
                (In-keep (has_requested_permission rule) c collaborators
                  ((has_requested_permission-iff_HasPermission rule c).1 may) among))))

  -- The users that are collected are exactly those whom the rule names.
  pub all_users-iff_IsNamed :
      (contains (all_users rule ctx collaborators) user ≡ true)
      ↔ IsNamed rule ctx collaborators user
  all_users-iff_IsNamed = (all_users-IsNamed, IsNamed-all_users)
