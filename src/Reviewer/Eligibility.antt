-- ===== src/Reviewer/Eligibility.antt =====
-- The users who are asked may review, and have not approved yet.
use policy_bot.Prelude.{ℤ, pos, negsuc, ◌-◌, ◌+◌, sym, refl, ◌∙◌, any-sort, ◌>>=◌}
use policy_bot.Reviewer.{count_for, first_users, lower}
use policy_bot.Common.Result.{remaining_approvals}
use policy_bot.Reviewer.Requests.{contains-keep}
use policy_bot.Reviewer.Named.{IsNamed, all_users-iff_IsNamed}
use policy_bot.Prelude.{
  ℕ, zero, suc, ◌≤◌, ◌<◌, String, ◌≡◌, ap, ◌⊎◌, inl, inr, Bool, true, false, not, ◌&&◌, List, [],
  ◌∷◌, map, arith, leb, str_eq, if◌then◌else◌, Bool-cases, length, is_empty, keep, take, All,
  All-zip, All-keep, All-kept, All-sort, contains, Attempt, ok, wrap, >>=-eq-ok, wrap-eq-ok,
  ok-injective, str_lt,
}
use mathlib.Core.Path.{subst}
use policy_bot.Pull.{Collaborator, Context}
use policy_bot.Common.Result.{Report, ReviewRequestRule, request_mode_all_users}
use policy_bot.Reviewer.{
  Draws, nth, randomly_order_users, without_approvers, all_users, get_possible_reviewers,
  min_permission, request_count, choose_users, select_users,
}
use policy_bot.Reviewer.Order.{IsFreshOrder, randomly_order_users-IsOrder}

All-take : (P : String → Type 0) (n : ℕ) (xs : List String) → All P xs → All P (take n xs)
All-take P zero xs h = tt
All-take P (suc n) [] h = tt
All-take P (suc n) (x ∷ xs) (px, h) = (px, All-take P n xs h)

length-take : (n : ℕ) (xs : List String) → length (take n xs) ≤ n
length-take zero xs = omega arith
length-take (suc n) [] = omega arith
length-take (suc n) (x ∷ xs) = omega (arith, length-take n xs)

All-nth : (P : String → Type 0) (xs : List String) (i : ℕ) → i < length xs → All P xs → P (nth xs i)
All-nth P [] i lower h = absurd (impossible i lower)
  where
    impossible : (i : ℕ) → i < 0 → ⊥
    impossible i l = omega arith
All-nth P (x ∷ xs) zero lower (px, h) = px
All-nth P (x ∷ xs) (suc i) lower (px, h) = All-nth P xs i (omega arith) h

All-indices :
    (P : String → Type 0) (xs : List String) (selected is : List ℕ)
    → All P xs
    → IsFreshOrder (length xs) selected is
    → All P (map (nth xs) is)
All-indices P xs selected [] h fresh = tt
All-indices P xs selected (i ∷ is) h (lower, _, fresh) =
    (All-nth P xs i lower h, All-indices P xs (i ∷ selected) is h fresh)

-- The random order keeps what holds of all users.
randomly_order_users-All :
    (P : String → Type 0) (users : List String) (draws : Draws) (out : List String) (left : Draws)
    → All P users
    → randomly_order_users users draws ≡ ok (out, left)
    → All P out
unfolding randomly_order_users
randomly_order_users-All P users draws out left h e = elim (Bool-cases (leb (length users) 1)) [
  | inl few ↦ subst (All P) (ap (λ r. r.0) (ok-injective (rw few at e))) h
  | inr several ↦
      let many : 1 < length users = ground arith in
      let i = randomly_order_users-IsOrder users draws out left many e in
      rw i.entries (All-indices P users [] i.indices h i.fresh)
]

abbrev pub larger : ℕ → ℕ → ℕ
larger a b = if leb a b then b else a

lower-le : (l a b : ℕ) → l ≤ lower a b → (l ≤ a) × (l ≤ b)
lower-le l a b h = ground (arith, h)

empty-contains : (xs : List String) (s : String) → is_empty xs ≡ true → contains xs s ≡ true → ⊥
empty-contains [] s e h = cc
empty-contains (x ∷ xs) s e h = cc

module _ (rep : Report) (rule : ReviewRequestRule) (ctx : Context) where
  -- The user is named by the rule, is not the author, and is not among the approvers.
  pub record MayBeAsked (collaborators : List Collaborator) (user : String) : Type 0 where
    pub named : IsNamed rule ctx collaborators user
    pub not_author : str_eq user ctx.author ≡ false
    pub not_approver : contains (map (λ c. c.user) rep.requires.approvers) user ≡ false

  abbrev IsPossible : List Collaborator → String → Type 0
  IsPossible collaborators user =
      (str_eq user ctx.author ≡ false) × (contains (all_users rule ctx collaborators) user ≡ true)

  possible : (a b : Bool) → (not a && b) ≡ true → (a ≡ false) × (b ≡ true)
  possible a b h = ground arith

  unset : (b : Bool) → not b ≡ true → b ≡ false
  unset b h = ground arith

  get_possible_reviewers-IsPossible :
      (collaborators : List Collaborator)
      → All
          (IsPossible collaborators)
          (get_possible_reviewers ctx (all_users rule ctx collaborators) collaborators)
  unfolding get_possible_reviewers
  get_possible_reviewers-IsPossible collaborators = All-sort str_lt (IsPossible collaborators) _ (
      All-kept (IsPossible collaborators) _
        (λ n h. possible (str_eq n ctx.author) (contains (all_users rule ctx collaborators) n) h)
        (map (λ c. c.name) collaborators))

  without_approvers-MayBeAsked :
      (collaborators : List Collaborator) (users : List String)
      → All (IsPossible collaborators) users
      → All (MayBeAsked collaborators) (without_approvers users rep.requires.approvers)
  unfolding without_approvers
  without_approvers-MayBeAsked collaborators users h =
      All-zip
        (λ u (a, n) e. record {
          named = (all_users-iff_IsNamed rule ctx collaborators u).0 n;
          not_author = a;
          not_approver = unset _ e;
        })
        (keep test users) (All-keep (IsPossible collaborators) test users h)
        (All-kept (λ u. test u ≡ true) test (λ u e. e) users)
    where
      test : String → Bool
      test u = not (contains (map (λ c. c.user) rep.requires.approvers) u)

  -- Nobody, or no more than are requested, and with the approvers no more than are requested or required.
  abbrev pub IsFew : List String → Type 0
  IsFew chosen =
      (length chosen ≡ 0)
      ⊎ ((n : ℕ) × (rule.requested_count ≡ pos n)
          × (length chosen ≤ n)
          × (length chosen + length rep.requires.approvers ≤ larger rep.requires.count n))

  pub record IsSelected (chosen : List String) : Type 0 where
    pub collaborators : List Collaborator
    pub asked : ctx.repository_collaborators (min_permission rule.permissions) ≡ ok collaborators
    pub each : All (MayBeAsked collaborators) chosen
    pub few : str_eq rule.mode request_mode_all_users ≡ false → IsFew chosen
    pub everyone :
        str_eq rule.mode request_mode_all_users ≡ true
        → (user : String) → contains (map (λ c. c.name) collaborators) user ≡ true
        → MayBeAsked collaborators user
        → contains chosen user ≡ true

  nobody_or : (l n a : ℕ) → l ≤ n - a → (l ≡ 0) ⊎ (l + a ≤ n)
  nobody_or zero n a h = inl refl
  nobody_or (suc l) n a h = inr (omega (arith, h))

  -- The count of the random mode, where the request is at least what is required and where it is less.
  few_requested :
      (l n : ℕ)
      → rule.requested_count ≡ pos n
      → leb rep.requires.count n ≡ true
      → l ≤ n - length rep.requires.approvers
      → (l ≡ 0)
        ⊎ ((m : ℕ) × (rule.requested_count ≡ pos m)
            × (l ≤ m)
            × (l + length rep.requires.approvers ≤ larger rep.requires.count m))
  few_requested l n e enough h = elim (nobody_or l n (length rep.requires.approvers) h) [
    | inl nobody ↦ inl nobody
    | inr some_users ↦ inr (n, e, omega (arith, h), rw enough some_users)
  ]

  few_remaining :
      (l n : ℕ)
      → rule.requested_count ≡ pos n
      → leb rep.requires.count n ≡ false
      → l ≤ lower n (remaining_approvals rep)
      → (l ≡ 0)
        ⊎ ((m : ℕ) × (rule.requested_count ≡ pos m)
            × (l ≤ m)
            × (l + length rep.requires.approvers ≤ larger rep.requires.count m))
  unfolding remaining_approvals
  few_remaining l n e less h =
      let (a, b) = lower-le l n (rep.requires.count - length rep.requires.approvers) h in
      elim (nobody_or l rep.requires.count (length rep.requires.approvers) b) [
        | inl nobody ↦ inl nobody
        | inr some_users ↦ inr (n, e, a, rw less some_users)
      ]

  first_users-IsFew :
      (q : ℤ) (users chosen : List String)
      → rule.requested_count ≡ q
      → first_users (count_for rep q) users ≡ ok chosen
      → IsFew chosen
  first_users-IsFew (negsuc n) users chosen e done = absurd cc
  first_users-IsFew (pos n) users chosen e done = elim (Bool-cases (leb rep.requires.count n)) [
    | inl enough ↦ few_requested (length chosen) n e enough (
        subst (λ c. length c ≤ n - length rep.requires.approvers) (ok-injective (rw enough at done))
          (length-take (n - length rep.requires.approvers) users))
    | inr less ↦ few_remaining (length chosen) n e less (
        subst (λ c. length c ≤ lower n (remaining_approvals rep)) (ok-injective (rw less at done))
          (length-take (lower n (remaining_approvals rep)) users))
  ]

  first_users-All :
      (P : String → Type 0) (q : ℤ) (users chosen : List String)
      → All P users
      → first_users q users ≡ ok chosen
      → All P chosen
  first_users-All P (pos n) users chosen h done =
      subst (All P) (ok-injective done) (All-take P n users h)
  first_users-All P (negsuc n) users chosen h done = absurd cc

  -- Every possible user who has not approved is chosen, unless the choice is random.
  abbrev ChoosesAll : List Collaborator → List String → List String → Type 0
  ChoosesAll collaborators users chosen =
      (user : String)
      → contains users user ≡ true
      → MayBeAsked collaborators user
      → contains chosen user ≡ true

  without_approvers-ChoosesAll :
      (collaborators : List Collaborator) (users : List String)
      → ChoosesAll collaborators users (without_approvers users rep.requires.approvers)
  unfolding without_approvers
  without_approvers-ChoosesAll collaborators users user there may =
      contains-keep (λ x. not (contains (map (λ c. c.user) rep.requires.approvers) x)) users user
      ∙ rw (there, may.not_approver) refl

  get_possible_reviewers-contains :
      (collaborators : List Collaborator) (user : String)
      → contains (map (λ c. c.name) collaborators) user ≡ true
      → MayBeAsked collaborators user
      → contains (get_possible_reviewers ctx (all_users rule ctx collaborators) collaborators) user
        ≡ true
  unfolding get_possible_reviewers
  get_possible_reviewers-contains collaborators user there may =
      any-sort str_lt (λ x. str_eq x user) _
      ∙ contains-keep
          (λ n. not (str_eq n ctx.author) && contains (all_users rule ctx collaborators) n)
          (map (λ c. c.name) collaborators) user
      ∙ rw (there, may.not_author, (all_users-iff_IsNamed rule ctx collaborators user).1 may.named)
          refl

  choose_users-All :
      (collaborators : List Collaborator) (users : List String) (draws : Draws)
      (chosen : List String) (left : Draws)
      → All (IsPossible collaborators) users
      → choose_users rep rule users draws ≡ ok (chosen, left)
      → All (MayBeAsked collaborators) chosen
        × (str_eq rule.mode request_mode_all_users ≡ false → IsFew chosen)
        × (str_eq rule.mode request_mode_all_users ≡ true → ChoosesAll collaborators users chosen)
  unfolding choose_users request_count
  choose_users-All collaborators users draws chosen left h e =
      elim (Bool-cases (str_eq rule.mode request_mode_all_users)) [
        | inl everyone ↦
            let same = ap (λ r. r.0) (ok-injective (rw everyone at e)) in
            (
              subst (All (MayBeAsked collaborators)) same
                  (without_approvers-MayBeAsked collaborators users h),
              λ some_users. cc (everyone, some_users),
              λ _.
                  subst (ChoosesAll collaborators users) same
                    (without_approvers-ChoosesAll collaborators users),
            )
        | inr random ↦
            let (ordered, done, rest) =
              >>=-eq-ok (randomly_order_users users draws) taken (rw random at e) in
            let all_ordered =
              randomly_order_users-All (IsPossible collaborators) users draws ordered.0 ordered.1 h
                done in
            let (first, cut, same) =
              >>=-eq-ok
                (first_users (count_for rep rule.requested_count)
                  (without_approvers ordered.0 rep.requires.approvers))
                (paired ordered.1) rest in
            let one : first ≡ chosen = ap (λ r. r.0) (ok-injective same) in
            (
              subst (All (MayBeAsked collaborators)) one (
                  first_users-All (MayBeAsked collaborators) (count_for rep rule.requested_count) _
                    first (without_approvers-MayBeAsked collaborators ordered.0 all_ordered) cut),
              λ _. subst IsFew one (
                  first_users-IsFew rule.requested_count
                    (without_approvers ordered.0 rep.requires.approvers) first refl cut),
              λ all_mode. cc (all_mode, random),
            )
      ]
    where
      paired : Draws → List String → Attempt (List String × Draws)
      paired rest users = ok (users, rest)

      taken : List String × Draws → Attempt (List String × Draws)
      taken ordered =
          first_users (count_for rep rule.requested_count)
            (without_approvers ordered.0 rep.requires.approvers)
          >>= paired ordered.1

  -- If users are selected for a result, then the collaborators were listed, and each user is named by the
  -- rule, directly or as a member of a team or an organization or by a permission, is not the author
  -- and is not an approver already. If the mode asks for all users, then every such collaborator is
  -- selected. Otherwise nobody is, or no more than the rule requests, and together with the approvers
  -- no more than the larger of what it requests and what it requires.
  pub select_users-IsSelected :
      (draws : Draws) (chosen : List String) (left : Draws)
      → select_users rep rule ctx draws ≡ ok (chosen, left)
      → IsSelected chosen
  unfolding select_users
  select_users-IsSelected draws chosen left h =
      let (collaborators, listed, e) =
        >>=-eq-ok
          (wrap "failed to list repository collaborators"
            (ctx.repository_collaborators (min_permission rule.permissions)))
          chosen_from h in
      by_possible collaborators (wrap-eq-ok _ (ctx.repository_collaborators _) listed)
        (Bool-cases (is_empty (possible_of collaborators))) e
    where
      possible_of : List Collaborator → List String
      possible_of collaborators =
          get_possible_reviewers ctx (all_users rule ctx collaborators) collaborators

      chosen_from : List Collaborator → Attempt (List String × Draws)
      chosen_from collaborators =
          if is_empty (possible_of collaborators)
          then ok ([], draws)
          else choose_users rep rule (possible_of collaborators) draws

      by_possible :
          (collaborators : List Collaborator)
          → ctx.repository_collaborators (min_permission rule.permissions) ≡ ok collaborators
          → (is_empty (possible_of collaborators) ≡ true)
            ⊎ (is_empty (possible_of collaborators) ≡ false)
          → chosen_from collaborators ≡ ok (chosen, left)
          → IsSelected chosen
      by_possible collaborators listed (inl nobody) e =
          let none_chosen = ap (λ r. r.0) (ok-injective (rw nobody at e)) in
          record {
            collaborators = collaborators;
            asked = listed;
            each = subst (All (MayBeAsked collaborators)) none_chosen tt;
            few = λ _. inl (ap length (sym none_chosen));
            everyone = λ all_mode user there may. absurd (
                empty-contains (possible_of collaborators) user nobody
                  (get_possible_reviewers-contains collaborators user there may));
          }
      by_possible collaborators listed (inr somebody) e =
          let (each, few, everyone) =
            choose_users-All collaborators (possible_of collaborators) draws chosen left
              (get_possible_reviewers-IsPossible collaborators) (rw somebody at e) in
          record {
            collaborators = collaborators;
            asked = listed;
            each = each;
            few = few;
            everyone = λ all_mode user there may.
                everyone all_mode user
                  (get_possible_reviewers-contains collaborators user there may) may;
          }
