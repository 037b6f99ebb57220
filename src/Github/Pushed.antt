-- ===== src/Github/Pushed.antt =====
-- `PushedAt`: when a commit was pushed. Commits that are pushed together share the time that GitHub has of
-- the last of them, so the search goes towards the head. The local cache and the global one, an interface
-- which may be nil, are the state; the key of the second is that of pull/global_cache.go.
use policy_bot.Prelude.{
  ℕ, zero, suc, String, not, Option, none, some, List, [], ◌∷◌, ◌++◌, ◌==◌, str_eq, if◌then◌else◌,
  is_empty, contains, get, put, diverged, Attempt, ok, err, ◌>>=◌, wrap, ◌<>◌, show,
}
use policy_bot.Pull.{Time, Commit}
use policy_bot.Github.Pages.{Listing}

unfoldable pushed_at_key : ℕ → String → String
unfolding show
pushed_at_key repo_id sha = show repo_id <> ":" <> sha

-- The oldest status of a commit: the last one on the last page. No time is 0.
abbrev last_time : List Time → Time
last_time [] = 0
last_time (t ∷ []) = t
last_time (t ∷ u ∷ ts) = last_time (u ∷ ts)

unfoldable load_pushed_at : ℕ → Listing Time → ℕ → Attempt Time
load_pushed_at zero list page = err diverged
load_pushed_at (suc n) list page =
    wrap ("failed to list statuses for page " <> show page) (list page) >>= λ answer.
    let rest = load_pushed_at n list answer.1 in
    if is_empty answer.0 then ok 0 else if answer.1 == 0 then ok (last_time answer.0) else rest

-- The first commit that has the given one as a parent, unless that is the head.
unfoldable pub child_of : String → List Commit → Option Commit
child_of sha [] = none
child_of sha (c ∷ cs) =
    let rest = child_of sha cs in if contains c.parents sha then some c else rest

unfoldable pub next_child_commit : String → Attempt (List Commit) → String → Attempt (Option Commit)
unfolding child_of
next_child_commit head commits sha =
    if str_eq sha head then ok none else (commits >>= λ cs. ok (child_of sha cs))

-- The interface `GlobalCache`, over the states of an implementation.
pub record GlobalCache (S : Type 0) : Type 0 where
  pub get_pushed_at : S → ℕ → String → Option Time
  pub set_pushed_at : ℕ → String → Time → S → S

-- An LRU cache of the library, with the repository and the commit as its key.
unfoldable lru_global_cache :
    {S : Type 0} → (S → String → Option Time) → (String → Time → S → S) → GlobalCache S
unfolding pushed_at_key
lru_global_cache find add = record {
  get_pushed_at = λ s repo_id sha. find s (pushed_at_key repo_id sha);
  set_pushed_at = λ repo_id sha t s. add (pushed_at_key repo_id sha) t s;
}

module _ {S : Type 0} (gc : GlobalCache S) where
  pub record PushedState : Type 0 where
    pub local : List (String × Time)
    pub global : Option S

  abbrev pub find_global : ℕ → String → Option S → Option Time
  find_global repo_id sha none = none
  find_global repo_id sha (some s) = gc.get_pushed_at s repo_id sha

  -- A time of the global cache goes into the local one.
  abbrev pub from_global :
      Attempt Time → String → Option Time → PushedState → Attempt Time × PushedState
  from_global loaded sha (some t) st = (ok t, record st { local = put sha t st.local })
  from_global loaded sha none st = (loaded, st)

  abbrev pub from_local :
      Option Time → Attempt Time × PushedState → PushedState → Attempt Time × PushedState
  from_local (some t) later st = (ok t, st)
  from_local none later st = later

  unfoldable pub try_pushed_at :
      (String → Attempt Time) → ℕ → String → PushedState → Attempt Time × PushedState
  try_pushed_at load repo_id sha st =
      from_local (get sha st.local)
        (from_global (load sha) sha (find_global repo_id sha st.global) st) st

  -- How the search goes on after the commits so far: with a child, or not.
  abbrev pub Search : Type 0
  Search = Attempt (Time × List String) × PushedState

  abbrev pub at_child :
      (String → Search) → List String → PushedState → Attempt (Option Commit) → Search
  at_child go candidates st (err e) = (err e, st)
  at_child go candidates st (ok none) = (ok (0, candidates), st)
  at_child go candidates st (ok (some c)) = go c.sha

  abbrev pub at_time : Search → List String → Attempt Time × PushedState → Search
  at_time later candidates (err e, st) = (err e, st)
  at_time later candidates (ok t, st) = if not (t == 0) then (ok (t, candidates), st) else later

  module _ (load : String → Attempt Time) (repo_id : ℕ) (head : String)
      (commits : Attempt (List Commit)) (evaluation_timestamp : Time) where
    -- The loop, on one round for each candidate.
    unfoldable pub search_pushed_at : ℕ → String → List String → PushedState → Search
    unfolding try_pushed_at next_child_commit
    search_pushed_at zero sha candidates st = (err diverged, st)
    search_pushed_at (suc n) sha candidates st =
        let tried = try_pushed_at load repo_id sha st in
        at_time
          (at_child (λ child. search_pushed_at n child (candidates ++ (child ∷ [])) tried.1)
            candidates tried.1 (next_child_commit head commits sha))
          candidates tried

    abbrev pub set_global : String → Time → Option S → Option S
    set_global sha t none = none
    set_global sha t (some s) = some (gc.set_pushed_at repo_id sha t s)

    unfoldable pub store_pushed_at : List String → Time → PushedState → PushedState
    store_pushed_at [] t st = st
    store_pushed_at (sha ∷ shas) t st =
        store_pushed_at shas t
          (record { local = put sha t st.local; global = set_global sha t st.global })

    abbrev pub or_now : Time → Time
    or_now t = if t == 0 then evaluation_timestamp else t

    unfoldable pub finish_pushed_at : Search → Attempt Time × PushedState
    unfolding store_pushed_at
    finish_pushed_at (err e, st) = (err e, st)
    finish_pushed_at (ok (t, candidates), st) =
        (ok (or_now t), store_pushed_at candidates (or_now t) st)

    unfoldable pub pushed_at : ℕ → String → PushedState → Attempt Time × PushedState
    unfolding search_pushed_at finish_pushed_at
    pushed_at n sha st = finish_pushed_at (search_pushed_at n sha (sha ∷ []) st)
