-- ===== src/Caches/Policies/History.antt =====
-- The cache over any sequence of its steps, and the history of the loads that ended.
use mathlib.Core.Path.{subst}
use policy_bot.Prelude.{
  ℕ, ◌+◌, ◌≤◌, ◌<◌, ◌≡◌, refl, sym, ap, ◌∙◌, inl, inr, Bool, true, false, ◌||◌, Option, none, some,
  List, [], ◌∷◌, arith, ltb, ◌==◌, ltb→lt, Bool-cases, Attempt, ok, err, ok-injective,
}
use policy_bot.Caches.{SeenPolicyKey, key_eq, key_in, key_eq_refl}
use policy_bot.Caches.Policies.{
  AppConfig, Element, PolicyConfigCache, new_policy_config_cache, find_entry, hit, load,
  remove_element, begin_at, begin_load, load_and_store,
}
use policy_bot.Caches.Policies.Distinct.{total}
use policy_bot.Caches.Policies.Invariant.{IsConsistent, new-IsConsistent}
use policy_bot.Caches.Policies.Steps.{Ended, load-IsConsistent, load-Begins, load_and_store-Ended}

-- The end of a load: what the loader answered, and when.
pub record Finish : Type 0 where
  pub key : SeenPolicyKey
  pub answer : Attempt AppConfig
  pub time : ℕ

-- The states that a cache reaches, each with the loads that ended, the last one first. Calls of `load`
-- and ends of loads come in any order.
pub data Reaches (ttl max_size : ℕ) : List Finish → PolicyConfigCache → Type 0 where
  created : Reaches ttl max_size [] (new_policy_config_cache ttl max_size)
  began :
      {h : List Finish} {c : PolicyConfigCache}
      → Reaches ttl max_size h c
      → (key : SeenPolicyKey) (now : ℕ) → Reaches ttl max_size h (load key now c).1
  ended :
      {h : List Finish} {c d : PolicyConfigCache}
      → Reaches ttl max_size h c
      → (f : Finish) → key_in c.in_flight f.key ≡ true
      → load_and_store f.key f.answer f.time c ≡ ok d
      → Reaches ttl max_size (f ∷ h) d

-- The abstract view: the last policy that was loaded for a key, and when its load ended.
latest_of : Bool → Attempt AppConfig → ℕ → Option (AppConfig × ℕ) → Option (AppConfig × ℕ)
latest_of true (ok config) time older = some (config, time)
latest_of true (err e) time older = older
latest_of false answer time older = older

pub latest : SeenPolicyKey → List Finish → Option (AppConfig × ℕ)
unfolding latest_of
latest key [] = none
latest key (f ∷ h) = latest_of (key_eq f.key key) f.answer f.time (latest key h)

-- Each entry is the last policy loaded for its key, and expires when that is `ttl` old.
pub record Tracks (ttl max_size : ℕ) (h : List Finish) (c : PolicyConfigCache) : Type 0 where
  pub consistent : IsConsistent c
  pub same_ttl : c.ttl ≡ ttl
  pub same_max : c.max_size ≡ max_size
  pub current :
      (k : SeenPolicyKey) (x : Element)
      → find_entry k c.entries ≡ some x
      → (time : ℕ) × (latest k h ≡ some (x.entry.config, time)) × (x.entry.expires_at ≡ time + ttl)

-- Only a live entry is a hit.
module _ (key : SeenPolicyKey) {config : AppConfig} where
  no_hit-begin_load : (c : PolicyConfigCache) → (begin_load key c).0 ≡ hit config → ⊥
  unfolding begin_load
  no_hit-begin_load c answer = elim (Bool-cases (key_in c.in_flight key)) [
    | inl there ↦ let answer' = rw there at answer in cc
    | inr new ↦ let answer' = rw new at answer in cc
  ]

  hit-begin_at :
      (now : ℕ) (c : PolicyConfigCache) (o : Option Element)
      → (begin_at key now c o).0 ≡ hit config
      → (x : Element) × (o ≡ some x) × (x.entry.config ≡ config) × (now < x.entry.expires_at)
  unfolding begin_at
  hit-begin_at now c none answer = absurd (no_hit-begin_load c answer)
  hit-begin_at now c (some x) answer = elim (Bool-cases (ltb now x.entry.expires_at)) [
    | inl live ↦
        let answer' = rw live at answer in (x, refl, cc, ltb→lt now x.entry.expires_at live)
    | inr expired ↦ absurd (no_hit-begin_load (remove_element x c) (rw expired at answer))
  ]

  hit-load :
      (now : ℕ) (c : PolicyConfigCache)
      → (load key now c).0 ≡ hit config
      → (x : Element) × (find_entry key c.entries ≡ some x)
        × (x.entry.config ≡ config)
        × (now < x.entry.expires_at)
  unfolding load
  hit-load now c answer = elim (Bool-cases (c.ttl == 0 || c.max_size == 0)) [
    | inl off ↦ let answer' = rw off at answer in absurd cc
    | inr on ↦ hit-begin_at now c (find_entry key c.entries) (rw on at answer)
  ]

module _ (ttl max_size : ℕ) where
  -- An ended load is the latest of its key, and of no other.
  Tracks-Ended :
      (h : List Finish) (c d : PolicyConfigCache) (f : Finish)
      → Tracks ttl max_size h c
      → Ended f.key f.answer f.time c d
      → Tracks ttl max_size (f ∷ h) d
  unfolding latest latest_of
  Tracks-Ended h c d f t e = record {
    consistent = e.consistent;
    same_ttl = e.ttl ∙ t.same_ttl;
    same_max = e.max_size ∙ t.same_max;
    current = λ k x found. elim (e.subset k x found) [
      | inl (same, (config, answered, new)) ↦
          let self : key_eq f.key k ≡ true = rw same (key_eq_refl k) in
          (
            f.time,
            rw (self, answered, ap (λ y. y.entry.config) new) refl,
            rw (ap (λ y. y.entry.expires_at) new, t.same_ttl) refl,
          )
      | inr (differs, old) ↦ rw differs (t.current k x old)
    ];
  }

  Reaches-Tracks :
      {h : List Finish} {c : PolicyConfigCache} → Reaches ttl max_size h c → Tracks ttl max_size h c
  Reaches-Tracks created = record {
    consistent = new-IsConsistent ttl max_size;
    same_ttl = unfold new_policy_config_cache in refl;
    same_max = unfold new_policy_config_cache in refl;
    current = λ k x found. unfold find_entry new_policy_config_cache in cc;
  }
  Reaches-Tracks (began {h} {c} r key now) =
      let t = Reaches-Tracks r in
      let b = load-Begins key now c in
      record {
        consistent = load-IsConsistent key now c t.consistent;
        same_ttl = b.ttl ∙ t.same_ttl;
        same_max = b.max_size ∙ t.same_max;
        current = λ k x found. t.current k x (b.subset k x found);
      }
  Reaches-Tracks (ended {h} {c} {d} r f flying done) =
      let t = Reaches-Tracks r in
      let (d', done', e) = load_and_store-Ended f.key c t.consistent flying f.answer f.time in
      subst (Tracks ttl max_size (f ∷ h)) (ok-injective (sym done' ∙ done))
        (Tracks-Ended h c d' f t e)

  -- In every state that a cache reaches, the map and the list hold the same elements, a key is loaded
  -- at most once at a time and has no entry then, and the entries take, all together, the size that is
  -- counted and no more than the bound.
  pub Reaches-IsConsistent :
      {h : List Finish} {c : PolicyConfigCache}
      → Reaches ttl max_size h c
      → IsConsistent c × (total c.lru ≤ max_size)
  Reaches-IsConsistent r =
      let t = Reaches-Tracks r in
      (t.consistent, omega (arith, t.consistent.bounded, t.consistent.sound.counted, t.same_max))

  -- In every state that a cache reaches, the end of a load that is in flight does not panic, whatever the
  -- loader answered, and no load of its key is left.
  pub load_and_store-Reaches :
      {h : List Finish} {c : PolicyConfigCache}
      → Reaches ttl max_size h c
      → (f : Finish) → key_in c.in_flight f.key ≡ true
      → (d : PolicyConfigCache) × (load_and_store f.key f.answer f.time c ≡ ok d)
        × Reaches ttl max_size (f ∷ h) d
        × (key_in d.in_flight f.key ≡ false)
  load_and_store-Reaches {h} {c} r f flying =
      let t = Reaches-Tracks r in
      let (d, done, e) = load_and_store-Ended f.key c t.consistent flying f.answer f.time in
      (d, done, ended r f flying done, e.ended)

  -- If a call of `load` has its answer from the cache, then this is the policy of the last load of the
  -- key that succeeded, and it is younger than the lifetime of the entries.
  pub load-latest :
      {h : List Finish} {c : PolicyConfigCache}
      → Reaches ttl max_size h c
      → (key : SeenPolicyKey) (now : ℕ) {config : AppConfig} → (load key now c).0 ≡ hit config
      → (time : ℕ) × (latest key h ≡ some (config, time)) × (now < time + ttl)
  load-latest {h} {c} r key now answer =
      let t = Reaches-Tracks r in
      let (x, found, same, live) = hit-load key now c answer in
      let (time, last, expires) = t.current key x found in
      (time, rw (sym same) last, rw (sym expires) live)
