-- ===== src/Common/Methods/Latest.antt =====
-- `deduplicateCandidates` returns the latest action of each user.
use policy_bot.Prelude.{
  ◌≤◌, String, ◌≡◌, refl, sym, ◌∙◌, ◌≢◌, inl, inr, none, List, [], ◌∷◌, map, Mem, Nodup, eq_iff,
  str_eq, Bool-cases, all, All, All-imp, get, MapOrder,
}
use mathlib.Core.Logic.Or
use mathlib.Core.HLevel.{Π_prop, ×_prop}
use mathlib.Core.List.{
  reverse, mem-cons, mem-cons_self, mem-cons_of_mem, mem-reverse, not-mem-nil, Mem-prop, Nodup-cons,
  Nodup-nil,
}
use mathlib.Core.List.Perm
use native.Mathlib.Bridge.{le_prop}
use policy_bot.Common.Methods.{Candidate, add_candidates, deduplicate_candidates}
use policy_bot.Common.Methods.Unique.{
  Users, HasDistinctKeys, IsLatest, add_candidates-IsIndex, start-IsIndex,
}

abbrev value : String × Candidate → Candidate
value e = e.1

abbrev user_of : Candidate → String
user_of c = c.user

of_mem :
    (Q : Candidate → Type 0)
    → ((c : Candidate) → IsProp (Q c))
    → (m : Users) → All (λ e. Q e.1) m
    → (c : Candidate) → Mem c (map value m)
    → Q c
of_mem Q prop [] h c among = absurd (not-mem-nil among)
of_mem Q prop (e ∷ m) (q, h) c among =
    Or.elim (prop c) (mem-cons.0 among) (λ same. rw same q) (of_mem Q prop m h c)

-- A key that is not in the map is no user of its values.
not-mem-users :
    (k : String) (m : Users)
    → All (λ e. e.0 ≢ k) m
    → All (λ e. e.0 ≡ e.1.user) m
    → ¬ Mem k (map user_of (map value m))
not-mem-users k [] ne key among = not-mem-nil among
not-mem-users k (e ∷ m) (ne, nes) (key, keys) among =
    Or.elim (λ x y. absurd x) (mem-cons.0 among) (λ same. ne (key ∙ sym same))
      (not-mem-users k m nes keys)

users-Nodup :
    (m : Users)
    → HasDistinctKeys m
    → All (λ e. e.0 ≡ e.1.user) m
    → Nodup (map user_of (map value m))
users-Nodup [] d key = Nodup-nil
users-Nodup ((k, c) ∷ m) (other, d) (key, keys) =
    Nodup-cons.1 (not-mem-users c.user m (rw (← key) other) keys, users-Nodup m d keys)

mem-user :
    (k : String) (m : Users)
    → All (λ e. e.0 ≡ e.1.user) m
    → get k m ≢ none
    → Mem k (map user_of (map value m))
mem-user k [] key there = absurd (there refl)
mem-user k ((j, c) ∷ m) (key, keys) there = elim (Bool-cases (str_eq j k)) [
  | inl same ↦ rw (sym ((eq_iff j k).0 same) ∙ key) mem-cons_self
  | inr differs ↦ mem-cons_of_mem c.user (mem-user k m keys (rw differs at there))
]

abbrev pub IsLatestAction : List Candidate → Candidate → Type 0
IsLatestAction all c =
    Mem c all × ((d : Candidate) → Mem d all → d.user ≡ c.user → d.created_at ≤ c.created_at)

IsLatestAction-prop : (all : List Candidate) (c : Candidate) → IsProp (IsLatestAction all c)
IsLatestAction-prop all c = ×_prop Mem-prop (Π_prop (λ d. Π_prop (λ m. Π_prop (λ q. le_prop))))

-- Whatever the iteration order of the map, `deduplicateCandidates` returns each user at most once,
-- every returned candidate is among the given ones and no given candidate of its user is later, and
-- every user with a candidate is returned.
pub deduplicate_candidates-latest :
    (order : MapOrder Candidate) (all : List Candidate)
    → Nodup (map (λ c. c.user) (deduplicate_candidates order all))
      × ((c : Candidate) → Mem c (deduplicate_candidates order all) → IsLatestAction all c)
      × ((d : Candidate)
          → Mem d all
          → Mem d.user (map (λ c. c.user) (deduplicate_candidates order all)))
unfolding deduplicate_candidates
deduplicate_candidates-latest order all =
    let m = add_candidates [] all in
    let inv = add_candidates-IsIndex all [] [] start-IsIndex in
    let keys =
      All-imp (λ (e : String × Candidate) (h : IsLatest (reverse all) e). h.0) m inv.latest in
    let permuted = order.arrange-perm (map value m) in
    let users_permuted = Perm.map user_of permuted in
    (
      Perm.nodup (Perm.symm users_permuted) (users-Nodup m inv.distinct keys),
      λ c among.
          of_mem (IsLatestAction all) (IsLatestAction-prop all) m (All-imp latest m inv.latest) c
            ((Perm.mem_iff permuted).0 among),
      λ d among.
          (Perm.mem_iff users_permuted).1
            (mem-user d.user m keys (inv.covers d (mem-reverse.1 among))),
    )
  where
    latest : (e : String × Candidate) → IsLatest (reverse all) e → IsLatestAction all e.1
    latest e (key, among, bound) =
        (mem-reverse.0 among, λ d m q. bound d (mem-reverse.1 m) (q ∙ sym key))
