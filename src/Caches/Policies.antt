-- ===== src/Caches/Policies.antt =====
-- server/handler/policy_config_cache.go: the policies that were loaded a short time ago. The lock makes
-- each part between Lock and Unlock one step: `load` up to its wait, and the end of a load. The
-- list's elements are named by numbers that are given out in order.
pub mod Maps
pub mod Distinct
pub mod Invariant
pub mod Progress
pub mod Flights
pub mod Steps
pub mod History
use Prim.Native.Char.{code}
use policy_bot.Prelude.{
  ◌>>=◌, ℕ, zero, suc, ◌+◌, ◌-◌, String, not, ◌||◌, Option, none, some, List, [], ◌∷◌, ◌++◌, ltb,
  ◌==◌, if◌then◌else◌, length, keep, Error, diverged, Attempt, ok, err,
}
use policy_bot.Caches.{SeenPolicyKey, key_eq, key_in}

-- `appconfig.Config`, as the cache reads it.
pub record AppConfig : Type 0 where
  pub content : String
  pub source : String
  pub path : String

pub record CacheEntry : Type 0 where
  pub key : SeenPolicyKey
  pub config : AppConfig
  pub expires_at : ℕ
  pub size : ℕ

-- `list.Element`, a place in memory that holds an entry.
pub record Element : Type 0 where
  pub id : ℕ
  pub entry : CacheEntry

pub record PolicyConfigCache : Type 0 where
  pub ttl : ℕ
  pub max_size : ℕ
  pub size : ℕ
  pub entries : List (SeenPolicyKey × Element)
  pub lru : List Element
  pub in_flight : List SeenPolicyKey
  pub next_id : ℕ

unfoldable pub new_policy_config_cache : ℕ → ℕ → PolicyConfigCache
new_policy_config_cache ttl max_size = record {
  ttl = ttl;
  max_size = max_size;
  size = 0;
  entries = [];
  lru = [];
  in_flight = [];
  next_id = 0;
}

-- `entries[key]`, `delete(entries, key)` and `entries[key] = element`.
unfoldable pub find_entry : SeenPolicyKey → List (SeenPolicyKey × Element) → Option Element
find_entry k [] = none
find_entry k ((j, e) ∷ m) = if key_eq j k then some e else find_entry k m

unfoldable pub delete_entry :
    SeenPolicyKey → List (SeenPolicyKey × Element) → List (SeenPolicyKey × Element)
delete_entry k [] = []
delete_entry k ((j, e) ∷ m) = if key_eq j k then delete_entry k m else (j, e) ∷ delete_entry k m

unfoldable pub set_entry :
    SeenPolicyKey → Element → List (SeenPolicyKey × Element) → List (SeenPolicyKey × Element)
unfolding delete_entry
set_entry k e m = (k, e) ∷ delete_entry k m

-- `lru.Remove(element)` and `lru.MoveToBack(element)`.
unfoldable pub remove_from_list : Element → List Element → List Element
remove_from_list e lru = keep (λ x. not (x.id == e.id)) lru

unfoldable pub move_to_back : Element → List Element → List Element
unfolding remove_from_list
move_to_back e lru = remove_from_list e lru ++ (e ∷ [])

unfoldable pub remove_element : Element → PolicyConfigCache → PolicyConfigCache
unfolding delete_entry remove_from_list
remove_element e c = record c {
  entries = delete_entry e.entry.key c.entries;
  lru = remove_from_list e c.lru;
  size = c.size - e.entry.size;
}

-- What the caller of `load` does next: it calls the loader itself, it has its answer, it waits for a
-- load that another call began, or it begins one and waits for that.
pub data Begun : Type 0 where
  bypassed joined started : Begun
  hit : AppConfig → Begun

unfoldable pub begin_load : SeenPolicyKey → PolicyConfigCache → Begun × PolicyConfigCache
begin_load key c =
    if key_in c.in_flight key
    then (joined, c)
    else (started, record c { in_flight = key ∷ c.in_flight })

unfoldable pub begin_at :
    SeenPolicyKey → ℕ → PolicyConfigCache → Option Element → Begun × PolicyConfigCache
unfolding begin_load move_to_back remove_element
begin_at key now c none = begin_load key c
begin_at key now c (some e) =
    if ltb now e.entry.expires_at
    then (hit e.entry.config, record c { lru = move_to_back e c.lru })
    else begin_load key (remove_element e c)

unfoldable pub load : SeenPolicyKey → ℕ → PolicyConfigCache → Begun × PolicyConfigCache
unfolding begin_at find_entry
load key now c =
    if c.ttl == 0 || c.max_size == 0
    then (bypassed, c)
    else begin_at key now c (find_entry key c.entries)

-- `len`: the bytes of a text in UTF-8.
abbrev bytes_of : ℕ → ℕ
bytes_of n = if ltb n 0x80 then 1 else if ltb n 0x800 then 2 else if ltb n 0x1_0000 then 3 else 4

unfoldable pub text_length : String → ℕ
text_length String.[] = 0
text_length (String.◌∷◌ c s) = bytes_of (code c) + text_length s

abbrev pub policy_config_cache_entry_overhead : ℕ
policy_config_cache_entry_overhead = 256

unfoldable pub policy_config_cache_entry_size : SeenPolicyKey → AppConfig → ℕ
unfolding text_length
policy_config_cache_entry_size key config =
    policy_config_cache_entry_overhead
    + (text_length key.owner
        + text_length key.repository
        + text_length key.base_branch
        + text_length config.content
        + text_length config.source
        + text_length config.path)

-- The front of an empty list is nil, on which `removeElement` panics.
unfoldable pub evict_front :
    (PolicyConfigCache → Attempt PolicyConfigCache)
    → PolicyConfigCache
    → List Element
    → Attempt PolicyConfigCache
unfolding remove_element
evict_front continue c [] = err diverged
evict_front continue c (x ∷ xs) = continue (remove_element x c)

-- The loop, on one round for each element and one more.
unfoldable pub evict : ℕ → PolicyConfigCache → Attempt PolicyConfigCache
unfolding evict_front
evict zero c = err diverged
evict (suc n) c =
    let next = evict_front (evict n) c c.lru in if ltb c.max_size c.size then next else ok c

abbrev pub new_element : SeenPolicyKey → AppConfig → ℕ → PolicyConfigCache → Element
new_element key config now c = record {
  id = c.next_id;
  entry = record {
    key = key;
    config = config;
    expires_at = now + c.ttl;
    size = policy_config_cache_entry_size key config;
  };
}

unfoldable pub push_entry : SeenPolicyKey → AppConfig → ℕ → PolicyConfigCache → PolicyConfigCache
unfolding set_entry
push_entry key config now c =
    let e = new_element key config now c in
    record c {
      entries = set_entry key e c.entries;
      lru = c.lru ++ (e ∷ []);
      size = c.size + e.entry.size;
      next_id = suc c.next_id;
    }

unfoldable pub end_flight : SeenPolicyKey → PolicyConfigCache → PolicyConfigCache
unfolding key_eq
end_flight key c = record c { in_flight = keep (λ j. not (key_eq j key)) c.in_flight }

-- The end of the load of a key, which the loader answers at a time. A configuration that comes with an
-- error is handed to those who wait, and not stored.
unfoldable pub load_and_store :
    SeenPolicyKey → Attempt AppConfig → ℕ → PolicyConfigCache → Attempt PolicyConfigCache
unfolding evict push_entry end_flight
load_and_store key (err e) now c = ok (end_flight key c)
load_and_store key (ok config) now c = do
  stored ← evict (suc (suc (length c.lru))) (push_entry key config now c)
  ok (end_flight key stored)

abbrev pub no_config : AppConfig
no_config = record { content = ""; source = ""; path = "" }

-- The wait of a caller: it returns the answer of the load, unless its context is done first.
unfoldable await : Option Error → AppConfig × Option Error → AppConfig × Option Error
await none answer = answer
await (some cancelled) answer = (no_config, some cancelled)
