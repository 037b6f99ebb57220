-- ===== src/Caches/Policies/Invariant.antt =====
-- What holds of the cache between two of its steps.
use mathlib.Core.Path.{subst}
use policy_bot.Prelude.{
  ℕ, ◌≤◌, ◌<◌, ◌≡◌, refl, sym, ap, ◌∙◌, inl, inr, true, false, not, none, some, List, [], ◌∷◌,
  arith, ◌==◌, Bool-cases, All, All-keep,
}
use policy_bot.Caches.{SeenPolicyKey, key_eq, key_in, key_eq_refl, key_eq→≡}
use policy_bot.Caches.Policies.{
  Element, PolicyConfigCache, new_policy_config_cache, find_entry, delete_entry, remove_from_list,
  move_to_back, remove_element, policy_config_cache_entry_size,
}
use policy_bot.Caches.Policies.Maps.{delete_entry-other, delete_entry-found}
use policy_bot.Prelude.{
  In, In-concat, All-at, In-All, In-concat_left, In-concat_right, In-keep, keep-In,
}
use policy_bot.Caches.Policies.Distinct.{
  Distinct, total, Distinct-keep, Distinct-concat, Distinct-same, total-concat, total-removed,
}

-- The keys that are being loaded are distinct, and none of them has an entry.
abbrev pub Alone : List SeenPolicyKey → Type 0
Alone [] = Unit
Alone (k ∷ ks) = (key_in ks k ≡ false) × Alone ks

abbrev pub entry_size : Element → ℕ
entry_size e = policy_config_cache_entry_size e.entry.key e.entry.config

-- The map and the list hold the same elements, which have distinct numbers, and the size is that of
-- the entries.
pub record IsSound (c : PolicyConfigCache) : Type 0 where
  pub listed :
      (k : SeenPolicyKey) (e : Element)
      → find_entry k c.entries ≡ some e
      → In e c.lru × (e.entry.key ≡ k)
  pub found : All (λ e. find_entry e.entry.key c.entries ≡ some e) c.lru
  pub distinct : Distinct c.lru
  pub recent : All (λ e. e.id < c.next_id) c.lru
  pub counted : c.size ≡ total c.lru
  pub sized : All (λ e. e.entry.size ≡ entry_size e) c.lru

pub IsSound-in_flight :
    (c : PolicyConfigCache) (keys : List SeenPolicyKey)
    → IsSound c
    → IsSound (record c { in_flight = keys })
IsSound-in_flight c keys h = record {
  listed = h.listed;
  found = h.found;
  distinct = h.distinct;
  recent = h.recent;
  counted = h.counted;
  sized = h.sized;
}

-- Between two steps, a key that is being loaded has no entry and is loaded once.
pub record IsConsistent (c : PolicyConfigCache) : Type 0 where
  pub sound : IsSound c
  pub absent : (k : SeenPolicyKey) → key_in c.in_flight k ≡ true → find_entry k c.entries ≡ none
  pub alone : Alone c.in_flight
  pub bounded : c.size ≤ c.max_size

pub new-IsConsistent : (ttl max_size : ℕ) → IsConsistent (new_policy_config_cache ttl max_size)
unfolding new_policy_config_cache find_entry key_in
new-IsConsistent ttl max_size = record {
  sound = record {
    listed = λ k e h. cc;
    found = tt;
    distinct = tt;
    recent = tt;
    counted = refl;
    sized = tt;
  };
  absent = λ k h. refl;
  alone = tt;
  bounded = omega arith;
}

module _ (c : PolicyConfigCache) (h : IsSound c) where
  -- What holds of every element holds of those that a removal leaves.
  kept : (P : Element → Type 0) (e : Element) → All P c.lru → All P (remove_from_list e c.lru)
  unfolding remove_from_list
  kept P e = All-keep P (λ x. not (x.id == e.id)) c.lru

  among_removed :
      (e y : Element) → In y (remove_from_list e c.lru) → In y c.lru × ((y.id == e.id) ≡ false)
  unfolding remove_from_list
  among_removed e y among =
      let (other, there) = keep-In (λ x. not (x.id == e.id)) y c.lru among in
      (there, ground (arith, other))

  -- Two elements with one key are the same.
  same_key :
      (x y : Element) → In x c.lru → In y c.lru → key_eq x.entry.key y.entry.key ≡ true → x ≡ y
  same_key x y hx hy same =
      let fx = All-at (λ e. find_entry e.entry.key c.entries ≡ some e) c.lru x h.found hx in
      let fy = All-at (λ e. find_entry e.entry.key c.entries ≡ some e) c.lru y h.found hy in
      let k = key_eq→≡ x.entry.key y.entry.key same in cc

  still_found :
      (e : Element)
      → In e c.lru
      → (y : Element) → In y (remove_from_list e c.lru)
      → find_entry y.entry.key (delete_entry e.entry.key c.entries) ≡ some y
  still_found e there y among =
      let (old, other) = among_removed e y among in
      elim (Bool-cases (key_eq e.entry.key y.entry.key)) [
        | inl same ↦
            let one = ap (λ w. w.id) (same_key e y there old same) in ground (arith, one, other)
        | inr differs ↦
            delete_entry-other y.entry.key e.entry.key c.entries differs
            ∙ All-at (λ w. find_entry w.entry.key c.entries ≡ some w) c.lru y h.found old
      ]

  still_listed :
      (e : Element)
      → In e c.lru
      → (k : SeenPolicyKey) (y : Element)
      → find_entry k (delete_entry e.entry.key c.entries) ≡ some y
      → In y (remove_from_list e c.lru) × (y.entry.key ≡ k)
  unfolding remove_from_list
  still_listed e there k y left =
      let (differs, old) = delete_entry-found k e.entry.key c.entries left in
      let (among, key) = h.listed k y old in
      (
        elim (Bool-cases (y.id == e.id)) [
          | inl same ↦
              let one = Distinct-same c.lru y e h.distinct among there same in
              let keys : e.entry.key ≡ k = cc in
              let eq : key_eq e.entry.key k ≡ true = rw keys (key_eq_refl k) in cc
          | inr other ↦ In-keep (λ x. not (x.id == e.id)) y c.lru (rw other refl) among
        ],
        key,
      )

  pub remove_element-IsSound : (e : Element) → In e c.lru → IsSound (remove_element e c)
  unfolding remove_element
  remove_element-IsSound e there = record {
    listed = still_listed e there;
    found = In-All _ (remove_from_list e c.lru) (still_found e there);
    distinct = removed_distinct;
    recent = kept _ e h.recent;
    counted = omega (arith, h.counted, total-removed c.lru e h.distinct there);
    sized = kept _ e h.sized;
  }
    where
      removed_distinct : Distinct (remove_from_list e c.lru)
      removed_distinct =
          unfold remove_from_list in Distinct-keep (λ x. not (x.id == e.id)) c.lru h.distinct

  moved_among : (e y : Element) → In e c.lru → In y (move_to_back e c.lru) → In y c.lru
  unfolding move_to_back
  moved_among e y there among = elim (In-concat (remove_from_list e c.lru) (e ∷ []) y among) [
    | inl old ↦ (among_removed e y old).0
    | inr (inr none_left) ↦ absurd none_left
    | inr (inl same) ↦ subst (λ w. In w c.lru) same there
  ]

  pub move_to_back-IsSound :
      (e : Element) → In e c.lru → IsSound (record c { lru = move_to_back e c.lru })
  move_to_back-IsSound e there = record {
    listed = λ k y f. let (among, key) = h.listed k y f in (moved y among, key);
    found = still _ h.found;
    distinct = moved_distinct;
    recent = still _ h.recent;
    counted = moved_total;
    sized = still _ h.sized;
  }
    where
      still : (P : Element → Type 0) → All P c.lru → All P (move_to_back e c.lru)
      still P q =
          In-All P (move_to_back e c.lru) (λ y m. All-at P c.lru y q (moved_among e y there m))

      moved : (y : Element) → In y c.lru → In y (move_to_back e c.lru)
      moved y among =
          unfold move_to_back in
          elim (Bool-cases (y.id == e.id)) [
            | inl same ↦
                In-concat_right y (remove_from_list e c.lru) (e ∷ [])
                  (inl (sym (Distinct-same c.lru y e h.distinct among there same)))
            | inr other ↦ In-concat_left y (remove_from_list e c.lru) (e ∷ []) (
                unfold remove_from_list in
                In-keep (λ x. not (x.id == e.id)) y c.lru (rw other refl) among)
          ]

      moved_distinct : Distinct (move_to_back e c.lru)
      moved_distinct =
          unfold move_to_back in
          Distinct-concat (remove_from_list e c.lru) e
            (unfold remove_from_list in Distinct-keep (λ x. not (x.id == e.id)) c.lru h.distinct)
            (In-All (λ x. (e.id == x.id) ≡ false) (remove_from_list e c.lru)
              (λ y m. let other = (among_removed e y m).1 in ground arith))

      moved_total : c.size ≡ total (move_to_back e c.lru)
      moved_total =
          unfold move_to_back in
          omega (
            arith,
            h.counted,
            total-concat (remove_from_list e c.lru) e,
            total-removed c.lru e h.distinct there,
          )
