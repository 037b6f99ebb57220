-- ===== src/Disapproval/LastActor.antt =====
-- `lastActor` returns the latest action of an actor.
use policy_bot.Prelude.{
  ◌≤◌, ◌≡◌, Bool, true, false, not, Option, none, some, List, [], ◌∷◌, Mem, if◌then◌else◌, last?,
  All, All-sort, All-of_sort, All-of_mem, last?-sort-greatest, Attempt, ok, ◌>>=◌, wrap, >>=-eq-ok,
  wrap-eq-ok, ok-injective, sort,
}
use policy_bot.Pull.{Context}
use policy_bot.Common.Actors.{Actors, is_actor}
use policy_bot.Common.Actors.Membership.{IsAllowed, is_actor_sound}
use policy_bot.Common.Methods.{Methods, Candidate, Orders, candidates, created_before}
use policy_bot.Disapproval.{Disapproval, filter, last_actor}

module _ (actors : Actors) (ctx : Context) where
  -- The kept candidates are actors, and a candidate that is not kept is none.
  record IsFiltered (found kept : List Candidate) : Type 1 where
    sound : All (λ c. is_actor actors ctx c.user ≡ ok true) kept
    subset : (Q : Candidate → Type 0) → All Q found → All Q kept
    complete :
        (P : Candidate → Type 0)
        → All P kept
        → All (λ c. is_actor actors ctx c.user ≡ ok true → P c) found

  filter-IsFiltered :
      (found kept : List Candidate) → filter actors ctx found ≡ ok kept → IsFiltered found kept
  unfolding filter
  filter-IsFiltered [] kept h =
      rw (← ok-injective h) (record { sound = tt; subset = λ Q a. tt; complete = λ P a. tt })
  filter-IsFiltered (c ∷ cs) kept h =
      let (member, asked, e) =
        >>=-eq-ok (wrap "failed to check candidate status" (is_actor actors ctx c.user)) step h in
      by_member member (wrap-eq-ok _ (is_actor actors ctx c.user) asked) e
        (λ l. filter-IsFiltered cs l)
    where
      with_first : List Candidate → Attempt (List Candidate)
      with_first others = ok (c ∷ others)

      step : Bool → Attempt (List Candidate)
      step member =
          if not member then filter actors ctx cs else (filter actors ctx cs >>= with_first)

      by_member :
          (b : Bool)
          → is_actor actors ctx c.user ≡ ok b
          → step b ≡ ok kept
          → ((l : List Candidate) → filter actors ctx cs ≡ ok l → IsFiltered cs l)
          → IsFiltered (c ∷ cs) kept
      by_member true asked e hyp =
          let (others, rest, same) = >>=-eq-ok (filter actors ctx cs) with_first e in
          let f = hyp others rest in
          rw (← ok-injective same) (record {
            sound = (asked, f.sound);
            subset = λ Q (q, qs). (q, f.subset Q qs);
            complete = λ P (p, ps). ((λ _. p), f.complete P ps);
          })
      by_member false asked e hyp =
          let f = hyp kept e in
          record {
            sound = f.sound;
            subset = λ Q (q, qs). f.subset Q qs;
            complete = λ P ps. ((λ yes. cc (asked, yes)), f.complete P ps);
          }

module _ (p : Disapproval) (ctx : Context) where
  -- The candidate is found, is one of the required actors, and no found candidate that is an actor
  -- is later.
  pub record IsLastActor (found : List Candidate) (c : Candidate) : Type 0 where
    pub among : Mem c found
    pub allowed : IsAllowed p.requires ctx c.user
    pub latest :
        All (λ d. is_actor p.requires ctx d.user ≡ ok true → d.created_at ≤ c.created_at) found

  -- No found candidate is an actor.
  abbrev pub HasNoActor : List Candidate → Type 0
  HasNoActor found = All (λ d. ¬ (is_actor p.requires ctx d.user ≡ ok true)) found

  abbrev pub IsLastOf : List Candidate → Option Candidate → Type 0
  IsLastOf found none = HasNoActor found
  IsLastOf found (some c) = IsLastActor found c

  no_last : (P : Candidate → Type 0) (xs : List Candidate) → last? xs ≡ none → All P xs
  no_last P [] e = tt
  no_last P (x ∷ []) e = cc
  no_last P (x ∷ y ∷ xs) e = absurd ((no_last (λ _. ⊥) (y ∷ xs) e).0)

  All-last? :
      (P : Candidate → Type 0) (xs : List Candidate) (c : Candidate)
      → last? xs ≡ some c
      → All P xs
      → P c
  All-last? P [] c e a = cc
  All-last? P (x ∷ []) c e (px, tt) = let same : x ≡ c = cc e in rw (← same) px
  All-last? P (x ∷ y ∷ xs) c e (px, a) = All-last? P (y ∷ xs) c e a

  last_of :
      (found kept : List Candidate)
      → IsFiltered p.requires ctx found kept
      → (o : Option Candidate) → last? (sort created_before kept) ≡ o
      → IsLastOf found o
  unfolding created_before
  last_of found kept f none e =
      f.complete (λ _. ⊥)
        (All-of_sort created_before (λ _. ⊥) kept (no_last (λ _. ⊥) (sort created_before kept) e))
  last_of found kept f (some c) e =
      let member = All-of_mem (λ d. Mem d found) found (λ d m. m) in
      let sorted_members = All-sort created_before (λ d. Mem d found) kept (f.subset _ member) in
      let sorted_actors =
        All-sort created_before (λ d. is_actor p.requires ctx d.user ≡ ok true) kept f.sound in
      let greatest = last?-sort-greatest (λ d. d.created_at) kept c e in
      record {
        among = All-last? (λ d. Mem d found) (sort created_before kept) c e sorted_members;
        allowed = is_actor_sound ctx c.user p.requires (
            All-last? (λ d. is_actor p.requires ctx d.user ≡ ok true) (sort created_before kept) c e
              sorted_actors);
        latest =
            f.complete (λ d. d.created_at ≤ c.created_at)
              (All-of_sort created_before (λ d. d.created_at ≤ c.created_at) kept greatest);
      }

  -- If `lastActor` returns, then its methods found candidates; it returns no candidate only if none of
  -- them is by an actor, and otherwise one that is by an actor, such that no candidate by an actor
  -- is later.
  pub last_actor-IsLastActor :
      (orders : Orders) (m : Methods) (o : Option Candidate)
      → last_actor orders p ctx m ≡ ok o
      → (found : List Candidate) × (candidates orders.candidates m ctx ≡ ok found)
        × IsLastOf found o
  unfolding last_actor
  last_actor-IsLastActor orders m o h =
      let (found, asked, h1) = >>=-eq-ok (candidates orders.candidates m ctx) filtered h in
      let (kept, done, h2) = >>=-eq-ok (filter p.requires ctx found) newest h1 in
      (
        found,
        asked,
        last_of found kept (filter-IsFiltered p.requires ctx found kept done) o (ok-injective h2),
      )
    where
      newest : List Candidate → Attempt (Option Candidate)
      newest kept = ok (last? (sort created_before kept))

      filtered : List Candidate → Attempt (Option Candidate)
      filtered found = filter p.requires ctx found >>= newest
