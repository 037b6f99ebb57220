-- ===== src/Examples/Loads.antt =====
-- Loads of a policy, behind the caches.
use policy_bot.Prelude.{
  ℕ, zero, suc, ◌+◌, ◌≤◌, ◌<◌, String, ◌≡◌, refl, Bool, true, false, Option, none, some, [], ◌∷◌,
  str_eq, Error, raised, Attempt, ok, err,
}
use policy_bot.Caches.{SeenPolicyKey, new_seen_policy_cache, key_eq, key_in}
use policy_bot.Caches.Policies.{
  AppConfig, Element, PolicyConfigCache, new_policy_config_cache, hit, load, load_and_store,
}
use policy_bot.Caches.Policies.Distinct.{total}
use policy_bot.Caches.Policies.Invariant.{IsConsistent}
use policy_bot.Caches.Policies.History.{
  Finish, Reaches, created, began, ended, latest, Reaches-IsConsistent, load_and_store-Reaches,
  load-latest,
}
use policy_bot.Fetcher.{Retried, load_config_with_retries, config_for_repository_branch}
use policy_bot.Fetcher.Retries.{EndsAt, load_config_with_retries-EndsAt}
use policy_bot.Fetcher.Seen.{after, saw, config_for_repository_branch-saw}
use policy_bot.Policy.{Config}

abbrev key : SeenPolicyKey
key = record { owner = "acme"; repository = "rockets"; base_branch = "develop" }

abbrev content : AppConfig
content = record { content = "policy:"; source = "acme/rockets"; path = ".policy.yml" }

-- A load that began at 3 and ended at 5, of a cache with entries for 60.
abbrev finish : Finish
finish = record { key = key; answer = ok content; time = 5 }

abbrev begun : PolicyConfigCache
begun = (load key 3 (new_policy_config_cache 60 4096)).1

abbrev element : Element
element = record {
  id = 0;
  entry = record { key = key; config = content; expires_at = 65; size = 304 };
}

abbrev stored : PolicyConfigCache
stored = record {
  ttl = 60;
  max_size = 4096;
  size = 304;
  entries = (key, element) ∷ [];
  lru = element ∷ [];
  in_flight = [];
  next_id = 1;
}

in_flight : key_in begun.in_flight key ≡ true
unfolding key_in key_eq load policy_bot.Caches.Policies.begin_at
    policy_bot.Caches.Policies.begin_load policy_bot.Caches.Policies.find_entry
    new_policy_config_cache
in_flight = refl

is_stored : load_and_store key (ok content) 5 begun ≡ ok stored
unfolding key_in key_eq load policy_bot.Caches.Policies.begin_at
    policy_bot.Caches.Policies.begin_load policy_bot.Caches.Policies.find_entry
    new_policy_config_cache load_and_store policy_bot.Caches.Policies.push_entry
    policy_bot.Caches.Policies.set_entry policy_bot.Caches.Policies.delete_entry
    policy_bot.Caches.Policies.end_flight policy_bot.Caches.Policies.evict
    policy_bot.Caches.Policies.evict_front policy_bot.Caches.Policies.policy_config_cache_entry_size
    policy_bot.Caches.Policies.text_length
is_stored = refl

history : Reaches 60 4096 (finish ∷ []) stored
history = ended (began created key 3) finish in_flight is_stored

is_hit : (load key 40 stored).0 ≡ hit content
unfolding key_in key_eq load policy_bot.Caches.Policies.begin_at
    policy_bot.Caches.Policies.find_entry
is_hit = refl

Reaches-IsConsistent_example : IsConsistent stored × (total stored.lru ≤ 4096)
Reaches-IsConsistent_example = Reaches-IsConsistent 60 4096 history

load_and_store-Reaches_example :
    (d : PolicyConfigCache) × (load_and_store key (ok content) 5 begun ≡ ok d)
    × Reaches 60 4096 (finish ∷ []) d
    × (key_in d.in_flight key ≡ false)
load_and_store-Reaches_example =
    load_and_store-Reaches 60 4096 (began created key 3) finish in_flight

load-latest_example :
    (time : ℕ) × (latest key (finish ∷ []) ≡ some (content, time)) × (40 < time + 60)
load-latest_example = load-latest 60 4096 history key 40 is_hit

-- The first call is a server error, the second one is answered.
abbrev at_second : ℕ → AppConfig × Option Error
at_second zero = (content, some (raised "bad gateway"))
at_second (suc n) = (content, none)

abbrev status_code : Error → Option ℕ
status_code e = some 502

load_config_with_retries-EndsAt_example :
    (r : Retried) × (load_config_with_retries at_second (λ e. false) status_code (λ n. none) ≡ ok r)
    × ((k : ℕ) × EndsAt at_second (λ e. false) status_code (λ n. none) 0 k r)
    × (r.waited ≤ 7)
load_config_with_retries-EndsAt_example =
    load_config_with_retries-EndsAt at_second (λ e. false) status_code (λ n. none)

-- A branch has a policy that does not parse, and then GitHub fails.
abbrev is_undefined : AppConfig → Bool
is_undefined c = str_eq c.content ""

abbrev no_parse : String → Attempt Config
no_parse s = err (raised "yaml")

config_for_repository_branch-saw_example :
    (config_for_repository_branch is_undefined no_parse key
      (after is_undefined no_parse ((key, (content, none)) ∷ []) new_seen_policy_cache)
      (content, some (raised "bad gateway"))).0.seen_policy
    ≡ saw is_undefined no_parse key ((key, (content, none)) ∷ [])
config_for_repository_branch-saw_example =
    config_for_repository_branch-saw is_undefined no_parse ((key, (content, none)) ∷ []) key content
      (raised "bad gateway")
