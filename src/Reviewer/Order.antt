-- ===== src/Reviewer/Order.antt =====
-- The random order is a rearrangement.
use policy_bot.Prelude.{
  ℕ, zero, suc, ◌%◌, ◌<◌, String, ◌≡◌, refl, sym, ap, ◌∙◌, Bool, true, false, List, [], ◌∷◌, map,
  arith, leb, if◌then◌else◌, length, Attempt, ok, ◌>>=◌, >>=-eq-ok, ok-injective,
}
use policy_bot.Reviewer.{Draws, nth, is_selected, order_loop, randomly_order_users}

-- The indices are in range, differ from the selected ones and from each other.
abbrev pub IsFreshOrder : ℕ → List ℕ → List ℕ → Type 0
IsFreshOrder n selected [] = Unit
IsFreshOrder n selected (i ∷ is) =
    (i < n) × (is_selected selected i ≡ false) × IsFreshOrder n (i ∷ selected) is

pub record IsOrder (users : List String) (selected : List ℕ) (missing : ℕ) (out : List String)
    : Type 0 where
  pub indices : List ℕ
  pub fresh : IsFreshOrder (length users) selected indices
  pub count : length indices ≡ missing
  pub entries : out ≡ map (nth users) indices

below : (d n : ℕ) → 0 < n → d % n < n
below d n h = omega (arith, h)

module _ (users : List String) (some_user : 0 < length users) where
  order_loop-IsOrder :
      (selected : List ℕ) (missing : ℕ) (draws : Draws) (out : List String) (left : Draws)
      → order_loop users selected missing draws ≡ ok (out, left)
      → IsOrder users selected missing out
  unfolding order_loop
  order_loop-IsOrder selected zero draws out left h = record {
    indices = [];
    fresh = tt;
    count = refl;
    entries = ap (λ r. r.0) (ok-injective (sym h));
  }
  order_loop-IsOrder selected (suc missing) [] out left h = cc
  order_loop-IsOrder selected (suc missing) (d ∷ draws) out left h =
      by_test (is_selected selected (d % length users)) refl h
        (λ e. order_loop-IsOrder selected (suc missing) draws out left e)
        (λ o l e. order_loop-IsOrder ((d % length users) ∷ selected) missing draws o l e)
    where
      extend : List String × Draws → Attempt (List String × Draws)
      extend rest = ok (nth users (d % length users) ∷ rest.0, rest.1)

      by_test :
          (b : Bool)
          → is_selected selected (d % length users) ≡ b
          → (if b
              then order_loop users selected (suc missing) draws
              else order_loop users ((d % length users) ∷ selected) missing draws >>= extend)
            ≡ ok (out, left)
          → (order_loop users selected (suc missing) draws ≡ ok (out, left)
              → IsOrder users selected (suc missing) out)
          → ((o : List String) (l : Draws)
              → order_loop users ((d % length users) ∷ selected) missing draws ≡ ok (o, l)
              → IsOrder users ((d % length users) ∷ selected) missing o)
          → IsOrder users selected (suc missing) out
      by_test true e h again next = again h
      by_test false e h again next =
          let (rest, found, same) =
            >>=-eq-ok (order_loop users ((d % length users) ∷ selected) missing draws) extend h in
          let i = next rest.0 rest.1 found in
          record {
            indices = (d % length users) ∷ i.indices;
            fresh = (below d (length users) some_user, e, i.fresh);
            count = ap suc i.count;
            entries =
                ap (λ r. r.0) (ok-injective (sym same))
                ∙ ap (◌∷◌ (nth users (d % length users))) i.entries;
          }

-- If the random order of more than one user is returned, then it lists the users at indices that
-- are in range and distinct, as many as there are users.
pub randomly_order_users-IsOrder :
    (users : List String) (draws : Draws) (out : List String) (left : Draws)
    → 1 < length users
    → randomly_order_users users draws ≡ ok (out, left)
    → IsOrder users [] (length users) out
unfolding randomly_order_users
randomly_order_users-IsOrder users draws out left several h =
    let many : leb (length users) 1 ≡ false = ground arith in
    order_loop-IsOrder users (omega (arith, several)) [] (length users) draws out left
      (rw many at h)
