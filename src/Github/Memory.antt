-- ===== src/Github/Memory.antt =====
-- `PushedAt` over the life of a context: searches for any commits, and a global cache that others share.
use policy_bot.Prelude.{
  ℕ, zero, suc, String, ◌≡◌, refl, sym, ap, ◌∙◌, inl, inr, Bool, true, false, not, ◌||◌, Option,
  none, some, List, [], ◌∷◌, ◌++◌, arith, eq_iff, ◌==◌, str_eq, if◌then◌else◌, Bool-cases,
  any-append, contains, get, Attempt, ok, err, ok-injective,
}
use policy_bot.Prelude.{get-put_other}
use policy_bot.Pull.{Time, Commit}
use policy_bot.Github.Pushed.{
  next_child_commit, GlobalCache, PushedState, find_global, from_global, from_local, try_pushed_at,
  Search, at_child, at_time, search_pushed_at, store_pushed_at, or_now, finish_pushed_at, pushed_at,
}
use policy_bot.Github.Batch.{store-candidates, finish-cached, finish-positive, search-Grows}

module _ {S : Type 0} (gc : GlobalCache S) (repo_id : ℕ) (head : String)
    (evaluation_timestamp : Time) where
  -- A state after any searches, for any commits and with any answers and any rounds, and after any changes
  -- of the global cache, which other contexts share.
  pub data Later (st : PushedState gc) : PushedState gc → Type 0 where
    unchanged : Later st st
    searched :
        {u : PushedState gc}
        → Later st u
        → (load : String → Attempt Time) (commits : Attempt (List Commit)) (n : ℕ) (sha : String)
        → Later st (pushed_at gc load repo_id head commits evaluation_timestamp n sha u).1
    shared :
        {u : PushedState gc}
        → Later st u
        → (global : Option S) → Later st (record u { global = global })

  module _ (s : String) (t : Time) (found : (t == 0) ≡ false) where
    abbrev Has : PushedState gc → Type 0
    Has st = get s st.local ≡ some t

    -- What a search leaves: the time of the commit stays, and a batch that has the commit has its time.
    abbrev Kept : Search gc → Type 0
    Kept (err e, st) = Has st
    Kept (ok (u, cs), st) = Has st × (contains cs s ≡ true → u ≡ t)

    Kept-Has : (x : Search gc) → Kept x → Has x.1
    Kept-Has (err e, st) h = h
    Kept-Has (ok (u, cs), st) h = h.0

    module _ (load : String → Attempt Time) (commits : Attempt (List Commit)) where
      from_global-Has :
          (cur : String) (o : Option Time) (st : PushedState gc)
          → str_eq cur s ≡ false
          → Has st
          → Has (from_global gc (load cur) cur o st).1
      from_global-Has cur none st other h = h
      from_global-Has cur (some u) st other h = get-put_other cur s u st.local other ∙ h

      from_local-Has :
          (o : Option Time) (x : Attempt Time × PushedState gc) (st : PushedState gc)
          → Has st
          → Has x.1
          → Has (from_local gc o x st).1
      from_local-Has none x st h k = k
      from_local-Has (some u) x st h k = h

      try_pushed_at-Has :
          (cur : String) (st : PushedState gc)
          → Has st
          → Has (try_pushed_at gc load repo_id cur st).1
            × (str_eq cur s ≡ true → (try_pushed_at gc load repo_id cur st).0 ≡ ok t)
      unfolding try_pushed_at
      try_pushed_at-Has cur st h = elim (Bool-cases (str_eq cur s)) [
        | inl same ↦
            let here : get cur st.local ≡ some t = rw ((eq_iff cur s).0 same) h in
            (rw here h, λ _. rw here refl)
        | inr other ↦ (
          from_local-Has (get cur st.local)
              (from_global gc (load cur) cur (find_global gc repo_id cur st.global) st) st h
              (from_global-Has cur (find_global gc repo_id cur st.global) st other h),
          λ same. cc (same, other),
        )
      ]

      at_child-Kept :
          (go : String → Search gc) (xs : List String) (st : PushedState gc)
          (o : Attempt (Option Commit))
          → Has st
          → contains xs s ≡ false
          → ((c : String) → Kept (go c))
          → Kept (at_child gc go xs st o)
      at_child-Kept go xs st (err e) h none_of k = h
      at_child-Kept go xs st (ok none) h none_of k = (h, λ there. cc (there, none_of))
      at_child-Kept go xs st (ok (some c)) h none_of k = k c.sha

      at_time-Kept :
          (cur : String) (later : Search gc) (xs : List String) (x : Attempt Time × PushedState gc)
          → Has x.1
          → (str_eq cur s ≡ true → x.0 ≡ ok t)
          → (contains xs s ≡ true → str_eq cur s ≡ true)
          → (contains xs s ≡ false → Kept later)
          → Kept (at_time gc later xs x)
      at_time-Kept cur later xs (err e, st) h hit last k = h
      at_time-Kept cur later xs (ok u, st) h hit last k = by_test (u == 0) refl
        where
          by_test : (b : Bool) → (u == 0) ≡ b → Kept (if not b then (ok (u, xs), st) else later)
          by_test false e = (h, λ there. ok-injective (hit (last there)))
          by_test true e = elim (Bool-cases (contains xs s)) [
            | inr absent ↦ k absent
            | inl there ↦
                let one : u ≡ t = ok-injective (hit (last there)) in
                let none_found = rw one at e in absurd cc
          ]

      last-append :
          (xs : List String) (c : String)
          → contains xs s ≡ false
          → contains (xs ++ (c ∷ [])) s ≡ true
          → str_eq c s ≡ true
      last-append xs c absent there =
          either (contains xs s) (str_eq c s) absent
            (sym (any-append (λ x. str_eq x s) xs (c ∷ [])) ∙ there)
        where
          either : (a b : Bool) → a ≡ false → (a || (b || false)) ≡ true → b ≡ true
          either a b h k = ground arith

      search-Kept :
          (n : ℕ) (cur : String) (xs : List String) (st : PushedState gc)
          → Has st
          → (contains xs s ≡ true → str_eq cur s ≡ true)
          → Kept (search_pushed_at gc load repo_id head commits evaluation_timestamp n cur xs st)
      unfolding search_pushed_at
      search-Kept zero cur xs st h last = h
      search-Kept (suc n) cur xs st h last =
          let tried = try_pushed_at gc load repo_id cur st in
          let (has, hit) = try_pushed_at-Has cur st h in
          at_time-Kept cur _ xs tried has hit last (λ absent.
            at_child-Kept
              (λ c.
                search_pushed_at gc load repo_id head commits evaluation_timestamp n c
                  (xs ++ (c ∷ [])) tried.1)
              xs tried.1 (next_child_commit head commits cur) has absent
              (λ c. search-Kept n c (xs ++ (c ∷ [])) tried.1 has (last-append xs c absent)))

      store-other :
          (xs : List String) (u : Time) (st : PushedState gc)
          → contains xs s ≡ false
          → Has st
          → Has (store_pushed_at gc load repo_id head commits evaluation_timestamp xs u st)
      unfolding store_pushed_at
      store-other [] u st absent h = h
      store-other (x ∷ xs) u st absent h = elim (Bool-cases (str_eq x s)) [
        | inl same ↦ let absent' = rw same at absent in absurd cc
        | inr other ↦
            store-other xs u _ (rw other at absent) (get-put_other x s u st.local other ∙ h)
      ]

      finish-Has :
          (x : Search gc)
          → Kept x
          → Has (finish_pushed_at gc load repo_id head commits evaluation_timestamp x).1
      unfolding finish_pushed_at
      finish-Has (err e, st) h = h
      finish-Has (ok (u, cs), st) (h, batch) = elim (Bool-cases (contains cs s)) [
        | inr absent ↦ store-other cs _ st absent h
        | inl there ↦
            let same : or_now gc load repo_id head commits evaluation_timestamp u ≡ t =
              rw (batch there, found) refl in
            store-candidates gc load repo_id head commits evaluation_timestamp cs _ st s there
            ∙ ap some same
      ]

      pushed_at-Has :
          (n : ℕ) (cur : String) (st : PushedState gc)
          → Has st
          → Has (pushed_at gc load repo_id head commits evaluation_timestamp n cur st).1
      unfolding pushed_at
      pushed_at-Has n cur st h =
          finish-Has _ (search-Kept n cur (cur ∷ []) st h (alone (str_eq cur s)))
        where
          alone : (b : Bool) → (b || false) ≡ true → b ≡ true
          alone b e = ground arith

    Later-Has : (st u : PushedState gc) → Later st u → Has st → Has u
    Later-Has st u unchanged h = h
    Later-Has st u (searched {u = v} l load commits n sha) h =
        pushed_at-Has load commits n sha v (Later-Has st v l h)
    Later-Has st u (shared {u = v} l global) h = Later-Has st v l h

  -- If the push time of a commit is found, at an evaluation whose time is not the zero time, then every
  -- later search for that commit gives the same time, whatever commits are searched for in between,
  -- whatever GitHub answers then and whatever becomes of the global cache.
  pub pushed_at-stays :
      (load load' : String → Attempt Time) (commits commits' : Attempt (List Commit)) (n m : ℕ)
      (sha : String) (st st' u : PushedState gc) (t : Time)
      → (evaluation_timestamp == 0) ≡ false
      → pushed_at gc load repo_id head commits evaluation_timestamp n sha st ≡ (ok t, st')
      → Later st' u
      → (pushed_at gc load' repo_id head commits' evaluation_timestamp (suc m) sha u).0 ≡ ok t
  unfolding pushed_at
  pushed_at-stays load load' commits commits' n m sha st st' u t h done l =
      let first =
        search_pushed_at gc load repo_id head commits evaluation_timestamp n sha (sha ∷ []) st in
      let cached =
        finish-cached gc load repo_id head commits evaluation_timestamp first sha t st'
          (search-Grows gc load repo_id head commits evaluation_timestamp n sha (sha ∷ []) st)
          done in
      let found =
        finish-positive gc load repo_id head commits evaluation_timestamp first t st' h done in
      let kept = Later-Has sha t found st' u l cached in
      unfold search_pushed_at try_pushed_at finish_pushed_at in rw (kept, found, found) refl
