-- ===== src/Caches/Policies/Progress.antt =====
-- The end of a load, step by step: the new entry, the eviction and the end of the flight.
use policy_bot.Prelude.{
  ℕ, zero, suc, ◌≤◌, ◌<◌, ◌≡◌, refl, sym, ap, ◌∙◌, ◌⊎◌, inl, inr, true, false, none, some, List, [],
  ◌∷◌, ◌++◌, arith, ltb, Bool-cases, length, length-append, All-append, All-imp, Attempt, ok,
}
use policy_bot.Caches.{SeenPolicyKey, key_eq, key_eq→≡}
use policy_bot.Caches.Policies.{
  AppConfig, Element, PolicyConfigCache, find_entry, set_entry, remove_element, new_element,
  push_entry, evict, evict_front,
}
use policy_bot.Caches.Policies.Maps.{delete_entry-found, set_entry_self, set_entry-other}
use policy_bot.Prelude.{In, In-concat_left, In-concat_right}
use policy_bot.Caches.Policies.Distinct.{
  Distinct, total, Distinct-concat, total-concat, remove-front,
}
use policy_bot.Caches.Policies.Invariant.{IsSound, remove_element-IsSound}

-- What the eviction leaves: entries of before, within the bound.
pub record Evicted (c d : PolicyConfigCache) : Type 0 where
  pub sound : IsSound d
  pub bounded : d.size ≤ d.max_size
  pub in_flight : d.in_flight ≡ c.in_flight
  pub ttl : d.ttl ≡ c.ttl
  pub max_size : d.max_size ≡ c.max_size
  pub subset :
      (k : SeenPolicyKey) (e : Element)
      → find_entry k d.entries ≡ some e
      → find_entry k c.entries ≡ some e

remove_element-front :
    (c : PolicyConfigCache) (x : Element) (xs : List Element)
    → IsSound c
    → c.lru ≡ x ∷ xs
    → (remove_element x c).lru ≡ xs
unfolding remove_element
remove_element-front c x xs h e =
    let d : Distinct (x ∷ xs) = rw e at h.distinct in rw e (remove-front x xs d)

-- The eviction of the front, and the one of what follows.
Evicted-after :
    (c d : PolicyConfigCache) (x : Element) → Evicted (remove_element x c) d → Evicted c d
unfolding remove_element
Evicted-after c d x later = record {
  sound = later.sound;
  bounded = later.bounded;
  in_flight = later.in_flight;
  ttl = later.ttl;
  max_size = later.max_size;
  subset = λ k e found. (delete_entry-found k x.entry.key c.entries (later.subset k e found)).1;
}

evict_front-Evicted :
    (continue : PolicyConfigCache → Attempt PolicyConfigCache) (c : PolicyConfigCache)
    (lru : List Element)
    → IsSound c
    → c.lru ≡ lru
    → ltb c.max_size c.size ≡ true
    → ((d : PolicyConfigCache)
        → IsSound d
        → suc (length d.lru) ≡ length lru
        → (e : PolicyConfigCache) × (continue d ≡ ok e) × Evicted d e)
    → (d : PolicyConfigCache) × (evict_front continue c lru ≡ ok d) × Evicted c d
unfolding evict_front
evict_front-Evicted continue c [] h e big later =
    let nothing : total c.lru ≡ 0 = rw e refl in absurd (ground (arith, h.counted, nothing))
evict_front-Evicted continue c (x ∷ xs) h e big later =
    let there : In x c.lru = rw e (inl refl) in
    let (d, done, left) =
      later (remove_element x c) (remove_element-IsSound c h x there)
        (rw (remove_element-front c x xs h e) refl) in
    (d, done, Evicted-after c d x left)

-- On one round for each element and one more, the loop ends within the bound.
evict-Evicted :
    (n : ℕ) (c : PolicyConfigCache)
    → IsSound c
    → length c.lru < n
    → (d : PolicyConfigCache) × (evict n c ≡ ok d) × Evicted c d
unfolding evict
evict-Evicted zero c h enough = absurd (ground (arith, enough))
evict-Evicted (suc n) c h enough = elim (Bool-cases (ltb c.max_size c.size)) [
  | inl big ↦ rw big (
      evict_front-Evicted (evict n) c c.lru h refl big
        (λ d s shorter. evict-Evicted n d s (omega (arith, enough, shorter))))
  | inr small ↦ rw small (
    c,
    refl,
    record {
      sound = h;
      bounded = ground (arith, small);
      in_flight = refl;
      ttl = refl;
      max_size = refl;
      subset = λ k e found. found;
    },
  )
]

-- A new entry, whose key has none.
module _ (key : SeenPolicyKey) (config : AppConfig) (now : ℕ) (c : PolicyConfigCache) where
  abbrev e : Element
  e = new_element key config now c

  listed_again :
      IsSound c
      → (k : SeenPolicyKey) (x : Element) → find_entry k (set_entry key e c.entries) ≡ some x
      → In x (c.lru ++ (e ∷ [])) × (x.entry.key ≡ k)
  listed_again h k x found = elim (Bool-cases (key_eq key k)) [
    | inl same ↦
        let one = key_eq→≡ key k same in
        let new = set_entry_self key e c.entries in
        let here : e ≡ x = cc in
        (In-concat_right x c.lru (e ∷ []) (inl here), ap (λ y. y.entry.key) (sym here) ∙ one)
    | inr differs ↦
        let (among, key) = h.listed k x (sym (set_entry-other k key e c.entries differs) ∙ found) in
        (In-concat_left x c.lru (e ∷ []) among, key)
  ]

  found_again :
      find_entry key c.entries ≡ none
      → (x : Element) → find_entry x.entry.key c.entries ≡ some x
      → find_entry x.entry.key (set_entry key e c.entries) ≡ some x
  found_again absent x found = elim (Bool-cases (key_eq key x.entry.key)) [
    | inl same ↦ let one = key_eq→≡ key x.entry.key same in cc
    | inr differs ↦ set_entry-other x.entry.key key e c.entries differs ∙ found
  ]

  push_entry-IsSound :
      find_entry key c.entries ≡ none → IsSound c → IsSound (push_entry key config now c)
  unfolding push_entry
  push_entry-IsSound absent h = record {
    listed = listed_again h;
    found =
        All-append _ c.lru (e ∷ []) (All-imp (found_again absent) c.lru h.found)
          (set_entry_self key e c.entries, tt);
    distinct =
        Distinct-concat c.lru e h.distinct (All-imp (λ x l. ground (arith, l)) c.lru h.recent);
    recent =
        All-append _ c.lru (e ∷ []) (All-imp (λ x l. omega (arith, l)) c.lru h.recent)
          (omega arith, tt);
    counted = omega (arith, h.counted, total-concat c.lru e);
    sized = All-append _ c.lru (e ∷ []) h.sized (refl, tt);
  }

  -- The store of an answer never panics, and leaves old entries and the new one, within the bound.
  pub record Stored (d : PolicyConfigCache) : Type 0 where
    pub sound : IsSound d
    pub bounded : d.size ≤ d.max_size
    pub in_flight : d.in_flight ≡ c.in_flight
    pub ttl : d.ttl ≡ c.ttl
    pub max_size : d.max_size ≡ c.max_size
    pub subset :
        (k : SeenPolicyKey) (x : Element)
        → find_entry k d.entries ≡ some x
        → ((key ≡ k) × (x ≡ e)) ⊎ ((key_eq key k ≡ false) × (find_entry k c.entries ≡ some x))

  old_or_new :
      (k : SeenPolicyKey) (x : Element)
      → find_entry k (set_entry key e c.entries) ≡ some x
      → ((key ≡ k) × (x ≡ e)) ⊎ ((key_eq key k ≡ false) × (find_entry k c.entries ≡ some x))
  old_or_new k x found = elim (Bool-cases (key_eq key k)) [
    | inl same ↦
        let one = key_eq→≡ key k same in let new = set_entry_self key e c.entries in inl (one, cc)
    | inr differs ↦ inr (differs, sym (set_entry-other k key e c.entries differs) ∙ found)
  ]

  pub push-Stored :
      find_entry key c.entries ≡ none
      → IsSound c
      → (d : PolicyConfigCache) × (evict (suc (suc (length c.lru))) (push_entry key config now c)
          ≡ ok d)
        × Stored d
  unfolding push_entry
  push-Stored absent h =
      let (d, done, left) =
        evict-Evicted (suc (suc (length c.lru))) (push_entry key config now c)
          (push_entry-IsSound absent h) (omega (arith, length-append c.lru (e ∷ []))) in
      (
        d,
        done,
        record {
          sound = left.sound;
          bounded = left.bounded;
          in_flight = left.in_flight;
          ttl = left.ttl;
          max_size = left.max_size;
          subset = λ k x found. old_or_new k x (left.subset k x found);
        },
      )
