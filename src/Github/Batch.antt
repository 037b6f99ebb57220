-- ===== src/Github/Batch.antt =====
-- `PushedAt`: what one search leaves in the local cache.
use policy_bot.Prelude.{get-put_self, get-put_other}
use policy_bot.Prelude.{
  ℕ, zero, suc, String, ◌≡◌, refl, sym, ap, ◌∙◌, inl, inr, Bool, true, false, not, Option, none,
  some, List, [], ◌∷◌, ◌++◌, eq_iff, eq_refl, ◌==◌, str_eq, if◌then◌else◌, Bool-cases, contains,
  get, Attempt, ok, err, ok-injective,
}
use policy_bot.Pull.{Time, Commit}
use policy_bot.Github.Pushed.{
  next_child_commit, GlobalCache, PushedState, try_pushed_at, Search, at_child, at_time,
  search_pushed_at, store_pushed_at, or_now, finish_pushed_at,
}

contains-append_left :
    (xs ys : List String) (s : String) → contains xs s ≡ true → contains (xs ++ ys) s ≡ true
contains-append_left [] ys s h = absurd cc
contains-append_left (x ∷ xs) ys s h = elim (Bool-cases (str_eq x s)) [
  | inl here ↦ rw here refl
  | inr later ↦ rw later (contains-append_left xs ys s (rw later at h))
]

module _ {S : Type 0} (gc : GlobalCache S) (load : String → Attempt Time) (repo_id : ℕ)
    (head : String) (commits : Attempt (List Commit)) (evaluation_timestamp : Time) where
  abbrev search : ℕ → String → List String → PushedState gc → Search gc
  search = search_pushed_at gc load repo_id head commits evaluation_timestamp

  -- The candidates only grow.
  abbrev Grows : List String → Search gc → Type 0
  Grows candidates (err e, st) = Unit
  Grows candidates (ok (t, cs), st) =
      (s : String) → contains candidates s ≡ true → contains cs s ≡ true

  Grows-append : (xs ys : List String) (x : Search gc) → Grows (xs ++ ys) x → Grows xs x
  Grows-append xs ys (err e, st) h = tt
  Grows-append xs ys (ok (t, cs), st) h = λ s there. h s (contains-append_left xs ys s there)

  Grows-at_child :
      (go : String → Search gc) (xs : List String) (st : PushedState gc)
      (o : Attempt (Option Commit))
      → ((c : String) → Grows xs (go c))
      → Grows xs (at_child gc go xs st o)
  Grows-at_child go xs st (err e) h = tt
  Grows-at_child go xs st (ok none) h = λ s there. there
  Grows-at_child go xs st (ok (some c)) h = h c.sha

  Grows-at_time :
      (later : Search gc) (xs : List String) (x : Attempt Time × PushedState gc)
      → Grows xs later
      → Grows xs (at_time gc later xs x)
  Grows-at_time later xs (err e, st) h = tt
  Grows-at_time later xs (ok t, st) h = by_test (t == 0)
    where
      by_test : (b : Bool) → Grows xs (if not b then (ok (t, xs), st) else later)
      by_test true = h
      by_test false = λ s there. there

  pub search-Grows :
      (n : ℕ) (sha : String) (xs : List String) (st : PushedState gc)
      → Grows xs (search n sha xs st)
  unfolding search_pushed_at
  search-Grows zero sha xs st = tt
  search-Grows (suc n) sha xs st =
      let tried = try_pushed_at gc load repo_id sha st in
      Grows-at_time _ xs tried (
        Grows-at_child (λ c. search n c (xs ++ (c ∷ [])) tried.1) xs tried.1
          (next_child_commit head commits sha)
          (λ c.
            Grows-append xs (c ∷ []) (search n c (xs ++ (c ∷ [])) tried.1)
              (search-Grows n c (xs ++ (c ∷ [])) tried.1)))

  abbrev now : Time → Time
  now = or_now gc load repo_id head commits evaluation_timestamp

  abbrev store : List String → Time → PushedState gc → PushedState gc
  store = store_pushed_at gc load repo_id head commits evaluation_timestamp

  -- A stored time stays, and every candidate gets it.
  store-kept :
      (xs : List String) (t : Time) (st : PushedState gc) (s : String)
      → get s st.local ≡ some t
      → get s (store xs t st).local ≡ some t
  unfolding store_pushed_at
  store-kept [] t st s h = h
  store-kept (x ∷ xs) t st s h = store-kept xs t _ s (elim (Bool-cases (str_eq x s)) [
    | inl same ↦ rw ((eq_iff x s).0 same) (get-put_self s t st.local)
    | inr other ↦ get-put_other x s t st.local other ∙ h
  ])

  pub store-candidates :
      (xs : List String) (t : Time) (st : PushedState gc) (s : String)
      → contains xs s ≡ true
      → get s (store xs t st).local ≡ some t
  unfolding store_pushed_at
  store-candidates [] t st s h = absurd cc
  store-candidates (x ∷ xs) t st s h = elim (Bool-cases (str_eq x s)) [
    | inl same ↦ store-kept xs t _ s (rw ((eq_iff x s).0 same) (get-put_self s t st.local))
    | inr other ↦ store-candidates xs t _ s (rw other at h)
  ]

  -- The time that was returned is cached for the commit.
  pub finish-cached :
      (x : Search gc) (sha : String) (t : Time) (st : PushedState gc)
      → Grows (sha ∷ []) x
      → finish_pushed_at gc load repo_id head commits evaluation_timestamp x ≡ (ok t, st)
      → get sha st.local ≡ some t
  unfolding finish_pushed_at
  finish-cached (err e, st') sha t st grows done = absurd cc
  finish-cached (ok (u, cs), st') sha t st grows done =
      let there = grows sha (rw (eq_refl sha) refl) in
      let here = store-candidates cs (now u) st' sha there in
      let same : now u ≡ t = ok-injective (ap (λ p. p.0) done) in
      let state : store cs (now u) st' ≡ st = ap (λ p. p.1) done in
      rw (sym state) (here ∙ ap some same)

  positive : (u : Time) → (evaluation_timestamp == 0) ≡ false → (now u == 0) ≡ false
  positive u h = elim (Bool-cases (u == 0)) [
    | inl zero_time ↦ rw zero_time h
    | inr found ↦ rw found found
  ]

  pub finish-positive :
      (x : Search gc) (t : Time) (st : PushedState gc)
      → (evaluation_timestamp == 0) ≡ false
      → finish_pushed_at gc load repo_id head commits evaluation_timestamp x ≡ (ok t, st)
      → (t == 0) ≡ false
  unfolding finish_pushed_at
  finish-positive (err e, st') t st h done = absurd cc
  finish-positive (ok (u, cs), st') t st h done =
      let same : now u ≡ t = ok-injective (ap (λ p. p.0) done) in rw (sym same) (positive u h)
