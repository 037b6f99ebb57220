-- ===== src/Fetcher/Seen.antt =====
-- The memory of the branches on which a policy was seen, over a sequence of fetches.
use policy_bot.Prelude.{
  String, ◌≡◌, refl, sym, ◌∙◌, ◌⊎◌, inl, inr, Bool, true, false, not, ◌&&◌, ◌||◌, Option, none,
  some, List, [], ◌∷◌, arith, Bool-cases, Error, Attempt,
}
use policy_bot.Policy.{Config}
use policy_bot.Caches.{
  SeenPolicyKey, SeenPolicyCache, new_seen_policy_cache, key_eq, key_in, get_seen, set_seen,
  key_eq→≡,
}
use policy_bot.Caches.Policies.{AppConfig}
use policy_bot.Fetcher.{config_for_repository_branch}

module _ (is_undefined : AppConfig → Bool) (unmarshal_strict : String → Attempt Config) where
  -- A fetch is a branch and the answer of the loader.
  abbrev pub Fetch : Type 0
  Fetch = SeenPolicyKey × (AppConfig × Option Error)

  -- The set after a sequence of fetches.
  abbrev pub after : List Fetch → SeenPolicyCache → SeenPolicyCache
  after [] seen = seen
  after ((key, answer) ∷ fs) seen =
      after fs (config_for_repository_branch is_undefined unmarshal_strict key seen answer).1

  abbrev pub is_policy : AppConfig × Option Error → Bool
  is_policy (c, some e) = false
  is_policy (c, none) = not (is_undefined c)

  -- Some fetch of the branch found a policy, which need not parse.
  abbrev pub saw : SeenPolicyKey → List Fetch → Bool
  saw key [] = false
  saw key ((k, answer) ∷ fs) = (key_eq k key && is_policy answer) || saw key fs

  key_in-set :
      (k key : SeenPolicyKey) (ks : List SeenPolicyKey)
      → get_seen (set_seen k (some ks)) key ≡ (key_eq k key || key_in ks key)
  unfolding get_seen set_seen
  key_in-set k key ks = elim (Bool-cases (key_in ks k)) [
    | inl old ↦ rw old (absorbed old (Bool-cases (key_eq k key)))
    | inr new ↦ rw new (unfold key_in in refl)
  ]
    where
      absorbed :
          key_in ks k ≡ true
          → (key_eq k key ≡ true) ⊎ (key_eq k key ≡ false)
          → key_in ks key ≡ (key_eq k key || key_in ks key)
      absorbed old (inl same) =
          let there : key_in ks key ≡ true = rw (sym (key_eq→≡ k key same)) old in
          rw (same, there) refl
      absorbed old (inr other) = rw other refl

  nothing_new : (a b : Bool) → b ≡ ((a && false) || b)
  nothing_new a b = ground arith

  something_new : (a b : Bool) → (a || b) ≡ ((a && true) || b)
  something_new a b = ground arith

  -- The cache is there before a fetch and after it.
  seen-step :
      (key k : SeenPolicyKey) (answer : AppConfig × Option Error) (ks : List SeenPolicyKey)
      → (ks' : List SeenPolicyKey) × ((config_for_repository_branch is_undefined unmarshal_strict k
            (some ks)
            answer).1
          ≡ some ks')
        × (get_seen (some ks') key ≡ ((key_eq k key && is_policy answer) || get_seen (some ks) key))
  unfolding config_for_repository_branch
  seen-step key k (c, some e) ks = (ks, refl, nothing_new (key_eq k key) (get_seen (some ks) key))
  seen-step key k (c, none) ks = elim (Bool-cases (is_undefined c)) [
    | inl nothing ↦ rw nothing (ks, refl, nothing_new (key_eq k key) (get_seen (some ks) key))
    | inr policy ↦
        let kept = key_in-set k key ks in
        rw policy (
          _,
          unfold set_seen in refl,
          unfold set_seen get_seen in
              (unfold set_seen get_seen in kept) ∙ something_new (key_eq k key) (key_in ks key),
        )
  ]

  swap : (a b c : Bool) → (b || (a || c)) ≡ ((a || b) || c)
  swap a b c = ground arith

  get_seen-after :
      (key : SeenPolicyKey) (fs : List Fetch) (ks : List SeenPolicyKey)
      → get_seen (after fs (some ks)) key ≡ (saw key fs || get_seen (some ks) key)
  get_seen-after key [] ks = refl
  get_seen-after key ((k, answer) ∷ fs) ks =
      let (ks', now, here) = seen-step key k answer ks in
      rw (now, get_seen-after key fs ks', here)
        (swap (key_eq k key && is_policy answer) (saw key fs) (get_seen (some ks) key))

  -- From an empty cache, a fetch whose load fails says that a policy was seen exactly if some fetch of
  -- the branch before it found a policy, whether that one could be parsed or not.
  pub config_for_repository_branch-saw :
      (fs : List Fetch) (key : SeenPolicyKey) (c : AppConfig) (e : Error)
      → (config_for_repository_branch is_undefined unmarshal_strict key
          (after fs new_seen_policy_cache)
          (c, some e)).0.seen_policy
        ≡ saw key fs
  unfolding config_for_repository_branch
  config_for_repository_branch-saw fs key c e =
      get_seen-after key fs [] ∙ unfold get_seen key_in in absent (saw key fs)
    where
      absent : (a : Bool) → (a || false) ≡ a
      absent a = ground arith
