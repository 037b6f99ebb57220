-- ===== src/Caches/Policies/Maps.antt =====
-- The cache's map from keys to elements: what a deletion and an assignment leave of it.
use policy_bot.Prelude.{
  ◌≡◌, refl, sym, ap, ◌∙◌, inl, inr, false, none, some, List, [], ◌∷◌, arith, if◌then◌else◌,
  Bool-cases,
}
use policy_bot.Caches.{SeenPolicyKey, key_eq, key_eq_refl, key_eq→≡}
use policy_bot.Caches.Policies.{Element, find_entry, delete_entry, set_entry}

pub delete_entry_self :
    (k : SeenPolicyKey) (m : List (SeenPolicyKey × Element))
    → find_entry k (delete_entry k m) ≡ none
unfolding find_entry delete_entry
delete_entry_self k [] = refl
delete_entry_self k ((j, e) ∷ m) = ground (arith, delete_entry_self k m)

-- The keys of the found entry and of the deleted one differ.
pub delete_entry-other :
    (j k : SeenPolicyKey) (m : List (SeenPolicyKey × Element))
    → key_eq k j ≡ false
    → find_entry j (delete_entry k m) ≡ find_entry j m
unfolding find_entry delete_entry
delete_entry-other j k [] ne = refl
delete_entry-other j k ((i, e) ∷ m) ne = elim (Bool-cases (key_eq i k)) [
  | inl same ↦
      let other : key_eq i j ≡ false = rw (key_eq→≡ i k same) ne in
      rw (same, other) (delete_entry-other j k m ne)
  | inr differs ↦
      rw differs (ap (λ r. if key_eq i j then some e else r) (delete_entry-other j k m ne))
]

-- What is found after a deletion was found before, under another key.
pub delete_entry-found :
    (j k : SeenPolicyKey) (m : List (SeenPolicyKey × Element)) {e : Element}
    → find_entry j (delete_entry k m) ≡ some e
    → (key_eq k j ≡ false) × (find_entry j m ≡ some e)
delete_entry-found j k m found = elim (Bool-cases (key_eq k j)) [
  | inl same ↦ let gone = delete_entry_self j m in let here = rw (key_eq→≡ k j same) at found in cc
  | inr differs ↦ (differs, sym (delete_entry-other j k m differs) ∙ found)
]

pub delete_entry-none :
    (j k : SeenPolicyKey) (m : List (SeenPolicyKey × Element))
    → find_entry j m ≡ none
    → find_entry j (delete_entry k m) ≡ none
delete_entry-none j k m h = elim (Bool-cases (key_eq k j)) [
  | inl same ↦ rw (key_eq→≡ k j same) (delete_entry_self j m)
  | inr differs ↦ delete_entry-other j k m differs ∙ h
]

pub set_entry_self :
    (k : SeenPolicyKey) (e : Element) (m : List (SeenPolicyKey × Element))
    → find_entry k (set_entry k e m) ≡ some e
unfolding find_entry set_entry
set_entry_self k e m = rw (key_eq_refl k) refl

pub set_entry-other :
    (j k : SeenPolicyKey) (e : Element) (m : List (SeenPolicyKey × Element))
    → key_eq k j ≡ false
    → find_entry j (set_entry k e m) ≡ find_entry j m
unfolding find_entry set_entry
set_entry-other j k e m ne = rw ne (delete_entry-other j k m ne)
