-- ===== src/Caches/Policies/Flights.antt =====
-- The keys that are being loaded, without one that ends.
use policy_bot.Prelude.{
  ◌≡◌, refl, sym, inl, inr, true, false, not, ◌||◌, List, [], ◌∷◌, arith, Bool-cases, keep,
}
use policy_bot.Caches.{SeenPolicyKey, key_eq, key_in, key_eq_refl, key_eq→≡, key_eq-swap}
use policy_bot.Caches.Policies.Invariant.{Alone}

module _ (key : SeenPolicyKey) where
  abbrev pub others : List SeenPolicyKey → List SeenPolicyKey
  others ks = keep (λ j. not (key_eq j key)) ks

  pub others-key_in :
      (k : SeenPolicyKey) (ks : List SeenPolicyKey)
      → key_in (others ks) k ≡ true
      → (key_eq key k ≡ false) × (key_in ks k ≡ true)
  unfolding key_in
  others-key_in k [] there = cc
  others-key_in k (j ∷ ks) there = elim (Bool-cases (key_eq j key)) [
    | inl same ↦
        let (differs, among) = others-key_in k ks (rw same at there) in
        (differs, ground (arith, among))
    | inr other ↦
        let here : (key_eq j k || key_in (others ks) k) ≡ true = rw other at there in
        elim (Bool-cases (key_eq j k)) [
          | inl found ↦
              let one = key_eq→≡ j k found in
              let differs : key_eq k key ≡ false = rw (sym one) other in
              (key_eq-swap k key differs, rw found refl)
          | inr later ↦
              let (differs, among) = others-key_in k ks (rw later at here) in
              (differs, ground (arith, among))
        ]
  ]

  still_new :
      (j : SeenPolicyKey) (ks : List SeenPolicyKey)
      → key_in ks j ≡ false
      → key_in (others ks) j ≡ false
  still_new j ks new = elim (Bool-cases (key_in (others ks) j)) [
    | inl there ↦ let among = (others-key_in j ks there).1 in cc
    | inr gone ↦ gone
  ]

  pub others-Alone : (ks : List SeenPolicyKey) → Alone ks → Alone (others ks)
  others-Alone [] h = tt
  others-Alone (j ∷ ks) (new, h) = elim (Bool-cases (key_eq j key)) [
    | inl same ↦ rw same (others-Alone ks h)
    | inr other ↦ rw other (still_new j ks new, others-Alone ks h)
  ]

  -- No load of the key is left.
  pub others_self : (ks : List SeenPolicyKey) → key_in (others ks) key ≡ false
  others_self ks = elim (Bool-cases (key_in (others ks) key)) [
    | inl there ↦ let differs = (others-key_in key ks there).0 in let self = key_eq_refl key in cc
    | inr gone ↦ gone
  ]
