-- ===== src/Caches/Policies/Steps.antt =====
-- The two steps, the beginning of a load and its end, each of them from a consistent cache.
use policy_bot.Prelude.{
  ℕ, ◌≡◌, refl, sym, ◌⊎◌, inl, inr, true, false, ◌||◌, Option, none, some, ◌∷◌, arith, ltb, ◌==◌,
  Bool-cases, Option-cases, Error, Attempt, ok, err,
}
use policy_bot.Caches.{SeenPolicyKey, key_eq, key_in, key_eq_refl, key_eq→≡}
use policy_bot.Caches.Policies.{
  AppConfig, Element, PolicyConfigCache, find_entry, remove_element, load, begin_at, begin_load,
  new_element, end_flight, load_and_store,
}
use policy_bot.Caches.Policies.Maps.{delete_entry_self, delete_entry-found, delete_entry-none}
use policy_bot.Caches.Policies.Invariant.{
  IsSound-in_flight, IsConsistent, remove_element-IsSound, move_to_back-IsSound,
}
use policy_bot.Caches.Policies.Progress.{Stored, push-Stored}
use policy_bot.Caches.Policies.Flights.{others, others-key_in, others_self, others-Alone}

module _ (key : SeenPolicyKey) where
  -- A load begins for a key without an entry.
  begin_load-IsConsistent :
      (c : PolicyConfigCache)
      → IsConsistent c
      → find_entry key c.entries ≡ none
      → IsConsistent (begin_load key c).1
  unfolding begin_load
  begin_load-IsConsistent c h nothing = elim (Bool-cases (key_in c.in_flight key)) [
    | inl joined ↦ rw joined h
    | inr new ↦ rw new record {
      sound = IsSound-in_flight c (key ∷ c.in_flight) h.sound;
      absent = λ k there. by_key k there;
      alone = (new, h.alone);
      bounded = h.bounded;
    }
  ]
    where
      by_key :
          (k : SeenPolicyKey) → key_in (key ∷ c.in_flight) k ≡ true → find_entry k c.entries ≡ none
      by_key k there = elim (Bool-cases (key_eq key k)) [
        | inl same ↦ rw (sym (key_eq→≡ key k same)) nothing
        | inr other ↦ h.absent k (unfold key_in in ground (arith, other, there))
      ]

  remove_element-IsConsistent :
      (c : PolicyConfigCache) (e : Element)
      → IsConsistent c
      → find_entry key c.entries ≡ some e
      → IsConsistent (remove_element e c)
  unfolding remove_element
  remove_element-IsConsistent c e h found = record {
    sound = remove_element-IsSound c h.sound e (h.sound.listed key e found).0;
    absent = λ k there. delete_entry-none k e.entry.key c.entries (h.absent k there);
    alone = h.alone;
    bounded = omega (arith, h.bounded);
  }

  begin_at-IsConsistent :
      (now : ℕ) (c : PolicyConfigCache) (o : Option Element)
      → IsConsistent c
      → find_entry key c.entries ≡ o
      → IsConsistent (begin_at key now c o).1
  unfolding begin_at
  begin_at-IsConsistent now c none h found = begin_load-IsConsistent c h found
  begin_at-IsConsistent now c (some e) h found =
      let (there, one) = h.sound.listed key e found in
      elim (Bool-cases (ltb now e.entry.expires_at)) [
        | inl live ↦ rw live record {
          sound = move_to_back-IsSound c h.sound e there;
          absent = h.absent;
          alone = h.alone;
          bounded = h.bounded;
        }
        | inr expired ↦ rw expired (
            begin_load-IsConsistent (remove_element e c) (remove_element-IsConsistent c e h found)
              (unfold remove_element in rw one (delete_entry_self key c.entries)))
      ]

  -- The beginning of a load keeps the cache consistent.
  pub load-IsConsistent :
      (now : ℕ) (c : PolicyConfigCache) → IsConsistent c → IsConsistent (load key now c).1
  unfolding load
  load-IsConsistent now c h = elim (Bool-cases (c.ttl == 0 || c.max_size == 0)) [
    | inl off ↦ rw off h
    | inr on ↦ rw on (begin_at-IsConsistent now c (find_entry key c.entries) h refl)
  ]

  -- The end of a load that is in flight: it never panics, keeps the cache consistent, leaves no load of
  -- the key and, but for the entry of the answer, only entries of before.
  pub record Ended (answer : Attempt AppConfig) (now : ℕ) (c d : PolicyConfigCache) : Type 0 where
    pub consistent : IsConsistent d
    pub ended : key_in d.in_flight key ≡ false
    pub ttl : d.ttl ≡ c.ttl
    pub max_size : d.max_size ≡ c.max_size
    pub subset :
        (k : SeenPolicyKey) (x : Element)
        → find_entry k d.entries ≡ some x
        → ((key ≡ k)
            × ((config : AppConfig) × (answer ≡ ok config) × (x ≡ new_element key config now c)))
          ⊎ ((key_eq key k ≡ false) × (find_entry k c.entries ≡ some x))

  -- What is left of a cache when no load of the key is.
  module _ (c : PolicyConfigCache) (h : IsConsistent c)
      (flying : key_in c.in_flight key ≡ true) where
    failed_Ended : (e : Error) (now : ℕ) → Ended (err e) now c (end_flight key c)
    unfolding end_flight
    failed_Ended e now = record {
      consistent = record {
        sound = IsSound-in_flight c (others key c.in_flight) h.sound;
        absent = λ k there. h.absent k (others-key_in key k c.in_flight there).1;
        alone = others-Alone key c.in_flight h.alone;
        bounded = h.bounded;
      };
      ended = others_self key c.in_flight;
      ttl = refl;
      max_size = refl;
      subset = λ k x found. elim (Bool-cases (key_eq key k)) [
        | inl same ↦ let one = key_eq→≡ key k same in let nothing = h.absent key flying in cc
        | inr differs ↦ inr (differs, found)
      ];
    }

    module _ (config : AppConfig) (now : ℕ) (d : PolicyConfigCache)
        (s : Stored key config now c d) where
      still_absent :
          (k : SeenPolicyKey)
          → key_in (others key d.in_flight) k ≡ true
          → find_entry k d.entries ≡ none
      still_absent k there =
          let among : key_in (others key c.in_flight) k ≡ true = rw (sym s.in_flight) there in
          let (differs, before) = others-key_in key k c.in_flight among in
          elim (Option-cases (find_entry k d.entries)) [
            | inl nothing ↦ nothing
            | inr (x, found) ↦
                let nothing = h.absent k before in
                let self = key_eq_refl key in
                elim (s.subset k x found) [ inl (same, new) ↦ cc | inr (_, old) ↦ cc ]
          ]

      stored_Ended : Ended (ok config) now c (end_flight key d)
      unfolding end_flight
      stored_Ended = record {
        consistent = record {
          sound = IsSound-in_flight d (others key d.in_flight) s.sound;
          absent = still_absent;
          alone = rw s.in_flight (others-Alone key c.in_flight h.alone);
          bounded = s.bounded;
        };
        ended = others_self key d.in_flight;
        ttl = s.ttl;
        max_size = s.max_size;
        subset = λ k x found. elim (s.subset k x found) [
          | inl (same, new) ↦ inl (same, (config, refl, new))
          | inr old ↦ inr old
        ];
      }

    -- The end of a load of the key.
    pub load_and_store-Ended :
        (answer : Attempt AppConfig) (now : ℕ)
        → (d : PolicyConfigCache) × (load_and_store key answer now c ≡ ok d) × Ended answer now c d
    unfolding load_and_store
    load_and_store-Ended (err e) now = (end_flight key c, refl, failed_Ended e now)
    load_and_store-Ended (ok config) now =
        let (d, done, s) = push-Stored key config now c (h.absent key flying) h.sound in
        (end_flight key d, rw done refl, stored_Ended config now d s)

-- An entry after the beginning of a load was there before.
pub record Begins (c d : PolicyConfigCache) : Type 0 where
  pub ttl : d.ttl ≡ c.ttl
  pub max_size : d.max_size ≡ c.max_size
  pub subset :
      (k : SeenPolicyKey) (x : Element)
      → find_entry k d.entries ≡ some x
      → find_entry k c.entries ≡ some x

module _ (key : SeenPolicyKey) where
  begin_load-Begins : (c : PolicyConfigCache) → Begins c (begin_load key c).1
  unfolding begin_load
  begin_load-Begins c = elim (Bool-cases (key_in c.in_flight key)) [
    | inl joined ↦ rw joined record { ttl = refl; max_size = refl; subset = λ k x found. found }
    | inr new ↦ rw new record { ttl = refl; max_size = refl; subset = λ k x found. found }
  ]

  begin_at-Begins :
      (now : ℕ) (c : PolicyConfigCache) (o : Option Element) → Begins c (begin_at key now c o).1
  unfolding begin_at
  begin_at-Begins now c none = begin_load-Begins c
  begin_at-Begins now c (some e) = elim (Bool-cases (ltb now e.entry.expires_at)) [
    | inl live ↦ rw live record { ttl = refl; max_size = refl; subset = λ k x found. found }
    | inr expired ↦
        let rest = begin_load-Begins (remove_element e c) in
        rw expired record {
          ttl = unfold remove_element in rest.ttl;
          max_size = unfold remove_element in rest.max_size;
          subset = λ k x found.
              (delete_entry-found k e.entry.key c.entries
                (unfold remove_element in rest.subset k x found)).1;
        }
  ]

  pub load-Begins : (now : ℕ) (c : PolicyConfigCache) → Begins c (load key now c).1
  unfolding load
  load-Begins now c = elim (Bool-cases (c.ttl == 0 || c.max_size == 0)) [
    | inl off ↦ rw off record { ttl = refl; max_size = refl; subset = λ k x found. found }
    | inr on ↦ rw on (begin_at-Begins now c (find_entry key c.entries))
  ]
