-- ===== src/Caches.antt =====
-- server/handler/seen_policy_cache.go: the branches on which a policy was seen. The lock makes each
-- call one step.
pub mod Policies
use policy_bot.Prelude.{
  String, ◌≡◌, refl, inl, inr, Bool, true, false, ◌&&◌, Option, none, some, List, [], ◌∷◌, arith,
  eq_iff, eq_refl, str_eq, if◌then◌else◌, Bool-cases, any,
}

-- The key of both caches.
pub record SeenPolicyKey : Type 0 where
  pub owner : String
  pub repository : String
  pub base_branch : String

unfoldable pub key_eq : SeenPolicyKey → SeenPolicyKey → Bool
key_eq j k =
    str_eq j.owner k.owner
    && (str_eq j.repository k.repository && str_eq j.base_branch k.base_branch)

key_ext :
    (j k : SeenPolicyKey)
    → j.owner ≡ k.owner
    → j.repository ≡ k.repository
    → j.base_branch ≡ k.base_branch
    → j ≡ k
key_ext j k o r b = cc

and_true : (a b : Bool) → (a && b) ≡ true → (a ≡ true) × (b ≡ true)
and_true a b h = ground arith

pub key_eq_refl : (k : SeenPolicyKey) → key_eq k k ≡ true
unfolding key_eq
key_eq_refl k = rw (eq_refl k.owner, eq_refl k.repository, eq_refl k.base_branch) refl

pub key_eq→≡ : (j k : SeenPolicyKey) → key_eq j k ≡ true → j ≡ k
unfolding key_eq
key_eq→≡ j k h =
    let (o, rest) = and_true (str_eq j.owner k.owner) _ h in
    let (r, b) = and_true (str_eq j.repository k.repository) _ rest in
    key_ext j k ((eq_iff _ _).0 o) ((eq_iff _ _).0 r) ((eq_iff _ _).0 b)

pub key_eq-swap : (j k : SeenPolicyKey) → key_eq j k ≡ false → key_eq k j ≡ false
key_eq-swap j k differs = elim (Bool-cases (key_eq k j)) [
  | inl same ↦ absurd (no_way (key_eq→≡ k j same))
  | inr other ↦ other
]
  where
    no_way : k ≡ j → ⊥
    no_way one = let self : key_eq j k ≡ true = rw one (key_eq_refl j) in cc

unfoldable pub key_in : List SeenPolicyKey → SeenPolicyKey → Bool
unfolding key_eq
key_in ks k = any (λ j. key_eq j k) ks

-- The cache is a pointer, which may be nil, to a set of keys.
abbrev pub SeenPolicyCache : Type 0
SeenPolicyCache = Option (List SeenPolicyKey)

abbrev pub new_seen_policy_cache : SeenPolicyCache
new_seen_policy_cache = some []

unfoldable pub get_seen : SeenPolicyCache → SeenPolicyKey → Bool
unfolding key_in
get_seen none key = false
get_seen (some entries) key = key_in entries key

unfoldable pub set_seen : SeenPolicyKey → SeenPolicyCache → SeenPolicyCache
unfolding key_in
set_seen key none = none
set_seen key (some entries) = some (if key_in entries key then entries else key ∷ entries)
