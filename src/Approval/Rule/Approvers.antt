-- ===== src/Approval/Rule/Approvers.antt =====
-- The approvers among the candidates.
use policy_bot.Prelude.{
  ◌≤◌, ◌<◌, String, ◌≡◌, refl, sym, ap, ◌∙◌, ◌≢◌, ◌⊎◌, inl, inr, Bool, true, false, not, ◌&&◌, ◌||◌,
  List, [], ◌∷◌, ◌++◌, Mem, arith, eq_iff, leb, str_eq, if◌then◌else◌, leb→le, Bool-cases, length,
  keep, any-append, contains, Attempt, ok, err, ◌>>=◌, wrap, >>=-eq-ok, wrap-eq-ok, ok-injective,
}
use mathlib.Core.Logic.Or
use mathlib.Core.List.{mem-cons, not-mem-nil, append-nil}
use policy_bot.Pull.{Commit, users, Context}
use policy_bot.Common.Actors.{Actors, is_actor}
use policy_bot.Common.Actors.Membership.{IsAllowed, is_actor_sound}
use policy_bot.Common.Methods.{Candidate}
use policy_bot.Approval.Options.{
  is_allow_author, is_allow_contributor, is_allow_non_author_contributor,
}
use policy_bot.Approval.Commits.{filtered_commits}
use policy_bot.Approval.Rule.{
  Rule, banned_author, commit_contributors, banned_users, real_approvers, is_approved_by_actors,
}

abbrev pub accepted : Attempt Bool → Bool
accepted (ok b) = b
accepted (err e) = false

-- Not banned, and an actor.
abbrev pub accepts : Actors → Context → List String → Candidate → Bool
accepts actors ctx banned c = not (contains banned c.user) && accepted (is_actor actors ctx c.user)

-- The loop keeps exactly the candidates that are accepted, in their order.
pub real_approvers-eq-keep :
    (actors : Actors) (ctx : Context) (banned : List String) (cs found : List Candidate)
    → real_approvers actors ctx banned cs ≡ ok found
    → found ≡ keep (accepts actors ctx banned) cs
unfolding real_approvers
real_approvers-eq-keep actors ctx banned [] found h = cc
real_approvers-eq-keep actors ctx banned (c ∷ cs) found h =
    elim (Bool-cases (contains banned c.user)) [
      | inl out ↦ rw out (real_approvers-eq-keep actors ctx banned cs found (rw out at h))
      | inr unbanned ↦
          let (b, asked, h1) =
            >>=-eq-ok (wrap "failed to check candidate status" (is_actor actors ctx c.user)) step
              (rw unbanned at h) in
          let actor = wrap-eq-ok _ (is_actor actors ctx c.user) asked in
          elim (Bool-cases b) [
            | inl member ↦
                let (others, rest_found, e) =
                  >>=-eq-ok (real_approvers actors ctx banned cs) (λ os. ok (c ∷ os))
                    (rw member at h1) in
                rw (unbanned, actor, member, ← ok-injective e)
                  (ap (◌∷◌ c) (real_approvers-eq-keep actors ctx banned cs others rest_found))
            | inr stranger ↦
                rw (unbanned, actor, stranger)
                  (real_approvers-eq-keep actors ctx banned cs found (rw stranger at h1))
          ]
    ]
  where
    step : Bool → Attempt (List Candidate)
    step is_approver =
        if is_approver
        then (real_approvers actors ctx banned cs >>= λ others. ok (c ∷ others))
        else real_approvers actors ctx banned cs

pub accepts_sound :
    (actors : Actors) (ctx : Context) (banned : List String) (c : Candidate)
    → accepts actors ctx banned c ≡ true
    → (contains banned c.user ≡ false) × IsAllowed actors ctx c.user
accepts_sound actors ctx banned c h = elim (Bool-cases (contains banned c.user)) [
  | inl out ↦ cc (rw out at h)
  | inr unbanned ↦ (unbanned, is_actor_sound ctx c.user actors (of_accepted _ (rw unbanned at h)))
]
  where
    of_accepted : (m : Attempt Bool) → accepted m ≡ true → m ≡ ok true
    of_accepted (ok true) h = refl
    of_accepted (ok false) h = cc
    of_accepted (err e) h = cc

or_false : (a b : Bool) → (a || b) ≡ false → (a ≡ false) × (b ≡ false)
or_false a b h = ground arith

module _ (r : Rule) (ctx : Context) where
  -- What makes the actor loop say yes.
  pub record Counted (cs approvers : List Candidate) : Type 0 where
    pub banned : List String
    pub asked : banned_users r ctx ≡ ok banned
    pub kept : approvers ≡ keep (accepts r.requires.actors ctx banned) cs
    pub enough : r.requires.count ≤ length approvers

  pub is_approved_by_actors-Counted :
      (cs approvers : List Candidate)
      → 0 < r.requires.count
      → is_approved_by_actors r ctx cs ≡ ok (true, approvers)
      → Counted cs approvers
  unfolding is_approved_by_actors
  is_approved_by_actors-Counted cs approvers some_count h =
      let counts : leb r.requires.count 0 ≡ false = ground arith in
      let (banned, asked, h1) = >>=-eq-ok (banned_users r ctx) loop (rw counts at h) in
      let (found, looped, h2) =
        >>=-eq-ok (real_approvers r.requires.actors ctx banned cs) verdict h1 in
      let same = ap (λ v. v.1) (ok-injective h2) in
      record {
        banned = banned;
        asked = asked;
        kept = sym same ∙ real_approvers-eq-keep r.requires.actors ctx banned cs found looped;
        enough = rw (← same) (leb→le _ _ (ap (λ v. v.0) (ok-injective h2)));
      }
    where
      verdict : List Candidate → Attempt (Bool × List Candidate)
      verdict found = ok (leb r.requires.count (length found), found)

      loop : List String → Attempt (Bool × List Candidate)
      loop banned = real_approvers r.requires.actors ctx banned cs >>= verdict

  pub is_approved_by_actors-none_required :
      (cs : List Candidate)
      → leb r.requires.count 0 ≡ true
      → is_approved_by_actors r ctx cs ≡ ok (true, [])
  unfolding is_approved_by_actors
  is_approved_by_actors-none_required cs h = rw h refl

  -- Whom the rule's options exclude from its approvers.
  pub record MayApprove (user : String) : Type 0 where
    pub not_author :
        is_allow_author r.options ≡ false
        → is_allow_contributor r.options ≡ false
        → user ≢ ctx.author
    pub not_contributor :
        is_allow_contributor r.options ≡ false
        → is_allow_non_author_contributor r.options ≡ false
        → (commits : List Commit) (c : Commit) → filtered_commits r.options ctx ≡ ok commits
        → Mem c commits
        → contains (users c) user ≡ true
        → user ≡ ctx.author

  not_first : (a user : String) (rest : List String) → contains (a ∷ rest) user ≡ false → user ≢ a
  not_first a user rest h same =
      let hit : str_eq a user ≡ true = (eq_iff a user).1 (sym same) in cc (rw hit at h)

  not_in_left :
      (xs ys : List String) (user : String)
      → contains (xs ++ ys) user ≡ false
      → (contains xs user ≡ false) × (contains ys user ≡ false)
  not_in_left xs ys user h = or_false _ _ (sym (any-append (λ x. str_eq x user) xs ys) ∙ h)

  not_kept :
      (author user : String) (us : List String)
      → str_eq user author ≡ false
      → contains (keep (λ u. not (str_eq u author)) us) user ≡ false
      → ¬ (contains us user ≡ true)
  not_kept author user [] other gone there = cc
  not_kept author user (u ∷ us) other gone there = elim (Bool-cases (str_eq u user)) [
    | inl same ↦
        let kept : str_eq u author ≡ false = rw ((eq_iff u user).0 same) other in
        cc (rw (kept, same) at gone)
    | inr differs ↦
        not_kept author user us other (after (Bool-cases (str_eq u author))) (rw differs at there)
  ]
    where
      after :
          (str_eq u author ≡ true) ⊎ (str_eq u author ≡ false)
          → contains (keep (λ v. not (str_eq v author)) us) user ≡ false
      after (inl e) = rw e at gone
      after (inr e) = (or_false _ _ (rw e at gone)).1

  contributors :
      (author user : String) (commits : List Commit) (c : Commit)
      → str_eq user author ≡ false
      → contains (commit_contributors author commits) user ≡ false
      → Mem c commits
      → ¬ (contains (users c) user ≡ true)
  contributors author user [] c other gone among there = not-mem-nil among
  contributors author user (k ∷ commits) c other gone among there =
      let (first, rest) =
        not_in_left (keep (λ u. not (str_eq u author)) (users k))
          (commit_contributors author commits) user gone in
      Or.elim (λ x y. absurd x) (mem-cons.0 among)
        (λ same. not_kept author user (users k) other first (rw (← same) there))
        (λ m. contributors author user commits c other rest m there)

  -- The banned users are the author, if banned, and the contributors, if banned.
  banned_parts :
      (banned : List String)
      → banned_users r ctx ≡ ok banned
      → (others : List String) × (banned ≡ banned_author r ctx ++ others)
        × (is_allow_contributor r.options ≡ false
            → is_allow_non_author_contributor r.options ≡ false
            → (commits : List Commit) → filtered_commits r.options ctx ≡ ok commits
            → others ≡ commit_contributors ctx.author commits)
  unfolding banned_users
  banned_parts banned h =
      by_options (is_allow_contributor r.options) (is_allow_non_author_contributor r.options) h
    where
      with_commits : List Commit → Attempt (List String)
      with_commits commits = ok (banned_author r ctx ++ commit_contributors ctx.author commits)

      by_options :
          (contributor others : Bool)
          → (if not contributor && not others
              then filtered_commits r.options ctx >>= with_commits
              else ok (banned_author r ctx))
            ≡ ok banned
          → (l : List String) × (banned ≡ banned_author r ctx ++ l)
            × (contributor ≡ false
                → others ≡ false
                → (commits : List Commit) → filtered_commits r.options ctx ≡ ok commits
                → l ≡ commit_contributors ctx.author commits)
      by_options true others h =
          ([], sym (ok-injective h) ∙ sym (append-nil (banned_author r ctx)), λ e _ commits _. cc)
      by_options false true h =
          ([], sym (ok-injective h) ∙ sym (append-nil (banned_author r ctx)), λ _ e commits _. cc)
      by_options false false h =
          let (found, asked, e) = >>=-eq-ok (filtered_commits r.options ctx) with_commits h in
          (
            commit_contributors ctx.author found,
            sym (ok-injective e),
            λ _ _ commits counted.
                ap (commit_contributors ctx.author) (ok-injective (sym asked ∙ counted)),
          )

  pub banned_users-MayApprove :
      (banned : List String) (user : String)
      → banned_users r ctx ≡ ok banned
      → contains banned user ≡ false
      → MayApprove user
  banned_users-MayApprove banned user asked gone =
      let (others, same, known) = banned_parts banned asked in
      let (first, rest) = not_in_left (banned_author r ctx) others user (rw (← same) gone) in
      record {
        not_author = λ a c. not_first ctx.author user [] (rw (a, c) at first);
        not_contributor = λ a c commits k counted among there.
            by_test (str_eq user ctx.author) refl (λ differs.
              contributors ctx.author user commits k differs
                (rw (known a c commits counted) at rest) among there);
      }
    where
      by_test :
          (b : Bool)
          → str_eq user ctx.author ≡ b
          → (str_eq user ctx.author ≡ false → ⊥)
          → user ≡ ctx.author
      by_test true e refute = (eq_iff user ctx.author).0 e
      by_test false e refute = absurd (refute e)
