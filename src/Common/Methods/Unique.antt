-- ===== src/Common/Methods/Unique.antt =====
-- The map of `deduplicateCandidates` holds the latest action of each user, after every round.
use policy_bot.Prelude.{
  ℕ, ◌≤◌, ◌<◌, String, ◌≡◌, refl, sym, ap, ◌∙◌, ◌≢◌, inl, inr, false, none, some, List, [], ◌∷◌,
  Mem, arith, eq_iff, eq_refl, ltb, str_eq, if◌then◌else◌, ltb→lt, Bool-cases, Option-cases, all,
  All, All-imp, All-zip, get, put,
}
use mathlib.Core.Logic.Or
use mathlib.Core.List.{reverse_aux, mem-cons, mem-cons_self, mem-cons_of_mem, not-mem-nil}
use mathlib.Core.Path.{subst₂}
use mathlib.Core.HLevel.{⊥_prop}
use native.Mathlib.Bridge.{le_prop}
use policy_bot.Common.Methods.{Candidate, created_before, add_candidate, add_candidates}

abbrev pub Users : Type 0
Users = List (String × Candidate)

abbrev pub HasDistinctKeys : Users → Type 0
HasDistinctKeys [] = Unit
HasDistinctKeys ((k, c) ∷ m) = All (λ e. e.0 ≢ k) m × HasDistinctKeys m

get-put :
    (k j : String) (c : Candidate) (m : Users)
    → get j (put k c m) ≡ (if str_eq k j then some c else get j m)
get-put k j c [] = refl
get-put k j c ((i, d) ∷ m) = ground (arith, eq_iff k j, eq_iff i k, eq_iff i j, get-put k j c m)

-- What holds of the new entry, and of the old ones with another key, holds after `put`.
All-put :
    (P : String × Candidate → Type 0) (k : String) (c : Candidate) (m : Users)
    → HasDistinctKeys m
    → All (λ e. e.0 ≢ k → P e) m
    → P (k, c)
    → All P (put k c m)
All-put P k c [] d h p = (p, tt)
All-put P k c ((i, e) ∷ m) (other, d) (hi, h) p = elim (Bool-cases (str_eq i k)) [
  | inl same ↦
      let keys = (eq_iff i k).0 same in
      rw same (p, All-zip (λ x ne imp. imp (λ q. ne (q ∙ sym keys))) m other h)
  | inr differs ↦ rw differs (hi (λ q. cc ((eq_iff i k).1 q, differs)), All-put P k c m d h p)
]

keys-put :
    (k i : String) (c : Candidate) (m : Users)
    → k ≢ i
    → All (λ e. e.0 ≢ i) m
    → All (λ e. e.0 ≢ i) (put k c m)
keys-put k i c [] ne h = (ne, tt)
keys-put k i c ((j, d) ∷ m) ne (hj, h) = elim (Bool-cases (str_eq j k)) [
  | inl same ↦ rw same (ne, h)
  | inr differs ↦ rw differs (hj, keys-put k i c m ne h)
]

put-HasDistinctKeys :
    (k : String) (c : Candidate) (m : Users) → HasDistinctKeys m → HasDistinctKeys (put k c m)
put-HasDistinctKeys k c [] d = (tt, tt)
put-HasDistinctKeys k c ((j, e) ∷ m) (other, d) = elim (Bool-cases (str_eq j k)) [
  | inl same ↦ rw same (All-imp (λ x ne q. ne (q ∙ sym ((eq_iff j k).0 same))) m other, d)
  | inr differs ↦ rw differs (
    keys-put k j c m (λ q. cc ((eq_iff j k).1 (sym q), differs)) other,
    put-HasDistinctKeys k c m d,
  )
]

-- An entry of the map is what a lookup of its key finds.
get-entry : (m : Users) → HasDistinctKeys m → All (λ e. get e.0 m ≡ some e.1) m
get-entry [] d = tt
get-entry ((k, c) ∷ m) (other, d) = (
  rw (eq_refl k) refl,
  All-zip
      (λ (x : String × Candidate) (ne : x.0 ≢ k) (found : get x.0 m ≡ some x.1).
        rw (differ x.0 ne) found)
      m other (get-entry m d),
)
  where
    differ : (j : String) → j ≢ k → str_eq k j ≡ false
    differ j ne = ground (arith, eq_iff k j)

-- The entry of a user who acted, after the actions `seen`.
abbrev pub IsLatest : List Candidate → String × Candidate → Type 0
IsLatest seen e =
    (e.0 ≡ e.1.user)
    × Mem e.1 seen
    × ((d : Candidate) → Mem d seen → d.user ≡ e.0 → d.created_at ≤ e.1.created_at)

pub record IsIndex (seen : List Candidate) (m : Users) : Type 0 where
  pub distinct : HasDistinctKeys m
  pub latest : All (IsLatest seen) m
  pub covers : (d : Candidate) → Mem d seen → get d.user m ≢ none

IsLatest-get :
    (seen : List Candidate) (k : String) (c : Candidate) (m : Users)
    → All (IsLatest seen) m
    → get k m ≡ some c
    → IsLatest seen (k, c)
IsLatest-get seen k c [] h e = cc
IsLatest-get seen k c ((j, d) ∷ m) (hd, h) e = elim (Bool-cases (str_eq j k)) [
  | inl same ↦
      let keys = (eq_iff j k).0 same in
      let found : d ≡ c = ground arith in subst₂ (λ i x. IsLatest seen (i, x)) keys found hd
  | inr differs ↦ IsLatest-get seen k c m h (rw differs at e)
]

old_entry :
    (seen : List Candidate) (c : Candidate) (e : String × Candidate)
    → (e.0 ≡ c.user → c.created_at ≤ e.1.created_at)
    → IsLatest seen e
    → IsLatest (c ∷ seen) e
old_entry seen c e bound (key, among, latest) = (
  key,
  mem-cons_of_mem c among,
  λ d m q.
      Or.elim le_prop (mem-cons.0 m)
        (λ same. rw (ap (λ x. x.created_at) same) (bound (sym q ∙ ap (λ x. x.user) same)))
        (λ before. latest d before q),
)

new_entry :
    (seen : List Candidate) (c : Candidate)
    → ((d : Candidate) → Mem d seen → d.user ≡ c.user → d.created_at ≤ c.created_at)
    → IsLatest (c ∷ seen) (c.user, c)
new_entry seen c bound = (
  refl,
  mem-cons_self,
  λ d m q.
      Or.elim le_prop (mem-cons.0 m) (λ same. rw (ap (λ x. x.created_at) same) (omega arith))
        (λ before. bound d before q),
)

module _ (seen : List Candidate) (m : Users) (inv : IsIndex seen m) (c : Candidate) where
  covers-put : (d : Candidate) → Mem d (c ∷ seen) → get d.user (put c.user c m) ≢ none
  covers-put d among e =
      Or.elim ⊥_prop (mem-cons.0 among)
        (λ same. cc (rw (get-put c.user d.user c m, ap (λ x. x.user) same, eq_refl c.user) at e))
        (λ before. inv.covers d before (ground (arith, get-put c.user d.user c m)))

  put-IsIndex :
      ((d : Candidate) → Mem d seen → d.user ≡ c.user → d.created_at ≤ c.created_at)
      → IsIndex (c ∷ seen) (put c.user c m)
  put-IsIndex bound = record {
    distinct = put-HasDistinctKeys c.user c m inv.distinct;
    latest =
        All-put (IsLatest (c ∷ seen)) c.user c m inv.distinct
          (All-imp (λ e h ne. old_entry seen c e (λ q. absurd (ne q)) h) m inv.latest)
          (new_entry seen c bound);
    covers = covers-put;
  }

  -- The user has a later action already.
  kept-IsIndex :
      (last : Candidate)
      → get c.user m ≡ some last
      → c.created_at ≤ last.created_at
      → IsIndex (c ∷ seen) m
  kept-IsIndex last found later = record {
    distinct = inv.distinct;
    latest =
        All-zip
          (λ (e : String × Candidate) (h : IsLatest seen e) (at_key : get e.0 m ≡ some e.1).
            old_entry seen c e (λ q. same_entry e.1 (rw q at at_key)) h)
          m inv.latest (get-entry m inv.distinct);
    covers = λ d among. λ e.
        Or.elim ⊥_prop (mem-cons.0 among) (λ same. cc (found, rw (ap (λ x. x.user) same) at e))
          (λ before. inv.covers d before e);
  }
    where
      same_entry : (x : Candidate) → get c.user m ≡ some x → c.created_at ≤ x.created_at
      same_entry x e = ground arith

  add_candidate-IsIndex : IsIndex (c ∷ seen) (add_candidate m c)
  unfolding add_candidate created_before
  add_candidate-IsIndex = elim (Option-cases (get c.user m)) [
    | inl fresh ↦
        rw (fresh, add_candidate)
          (put-IsIndex (λ d among same. absurd (inv.covers d among (rw same fresh))))
    | inr (last, found) ↦
        let (key, among_seen, latest) = IsLatest-get seen c.user last m inv.latest found in
        elim (Bool-cases (ltb last.created_at c.created_at)) [
          | inl newer ↦
              rw (found, add_candidate, newer)
                (put-IsIndex (λ d among same. step d (latest d among same) (ltb→lt _ _ newer)))
          | inr older ↦
              rw (found, add_candidate, older) (kept-IsIndex last found (not_newer last older))
        ]
  ]
    where
      step :
          (d : Candidate) {n : ℕ}
          → d.created_at ≤ n
          → n < c.created_at
          → d.created_at ≤ c.created_at
      step d p q = omega arith

      not_newer :
          (l : Candidate) → ltb l.created_at c.created_at ≡ false → c.created_at ≤ l.created_at
      not_newer l e = ground arith

pub add_candidates-IsIndex :
    (all seen : List Candidate) (m : Users)
    → IsIndex seen m
    → IsIndex (reverse_aux all seen) (add_candidates m all)
unfolding add_candidates
add_candidates-IsIndex [] seen m inv = inv
add_candidates-IsIndex (c ∷ all) seen m inv =
    add_candidates-IsIndex all (c ∷ seen) (add_candidate m c) (add_candidate-IsIndex seen m inv c)

no_candidate : {d : Candidate} → Mem d [] → ⊥
no_candidate = not-mem-nil

pub start-IsIndex : IsIndex [] []
start-IsIndex = record {
  distinct = tt;
  latest = tt;
  covers = λ d among. absurd (no_candidate among);
}
