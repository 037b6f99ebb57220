-- ===== src/Fetcher/Retries.antt =====
-- How often the loader is called, and what its last call has to do with the answer.
use policy_bot.Prelude.{
  ℕ, zero, suc, ◌+◌, ◌*◌, ◌≤◌, ◌<◌, ◌≡◌, refl, sym, ◌⊎◌, inl, inr, Bool, true, false, not, ◌||◌,
  Option, none, some, arith, ltb, leb, if◌then◌else◌, ◌==◌, ==_iff, Bool-cases, Error, Attempt, ok,
}
use policy_bot.Caches.Policies.{AppConfig}
use policy_bot.Fetcher.{Retried, is_transient, wait, retry_loop, load_config_with_retries}

-- The most that a loop of so many rounds waits.
abbrev longest : ℕ → ℕ → ℕ
longest zero delay = 0
longest (suc zero) delay = 0
longest (suc (suc n)) delay = delay + longest (suc n) (delay * 2)

module _ (loader : ℕ → AppConfig × Option Error) (is_timeout : Error → Bool)
    (status_code : Error → Option ℕ) (interrupted : ℕ → Option (ℕ × Error)) where
  abbrev transient : ℕ → Bool
  transient i = is_transient loader is_timeout status_code interrupted (loader i).1

  -- Why a run that began at call `i` ended after call `k`.
  pub record EndsAt (i k : ℕ) (r : Retried) : Type 0 where
    pub calls : r.calls ≡ suc k
    pub in_range : (i ≤ k) × (k < 4)
    pub config : r.config ≡ (loader k).0
    pub earlier : (j : ℕ) → i ≤ j → j < k → transient j ≡ true
    pub reason :
        ((r.error ≡ (loader k).1) × ((transient k ≡ false) ⊎ (k ≡ 3)))
        ⊎ ((transient k ≡ true)
            × ((s : ℕ) × (e : Error) × (interrupted k ≡ some (s, e)) × (r.error ≡ some e)))

  -- A run of `n` rounds and what follows from a wait at call `i`.
  abbrev Ends : ℕ → ℕ → ℕ → Attempt Retried → Type 0
  Ends n i delay run =
      (r : Retried) × (run ≡ ok r) × ((k : ℕ) × EndsAt i k r) × (r.waited ≤ longest (suc n) delay)

  Ends-here :
      (n i delay : ℕ) (e : Option Error)
      → i < 4
      → ((e ≡ (loader i).1) × ((transient i ≡ false) ⊎ (i ≡ 3)))
        ⊎ ((transient i ≡ true)
            × ((s : ℕ) × (x : Error) × (interrupted i ≡ some (s, x)) × (e ≡ some x)))
      → (w : ℕ) → w ≤ longest (suc n) delay
      → Ends n i delay (ok (record { config = (loader i).0; error = e; calls = suc i; waited = w }))
  Ends-here n i delay e l why w short = (
    _,
    refl,
    (
      i,
      record {
        calls = refl;
        in_range = omega (arith, l);
        config = refl;
        earlier = λ j m k. absurd (omega (arith, m, k));
        reason = why;
      },
    ),
    short,
  )

  earlier_too :
      (i k : ℕ)
      → transient i ≡ true
      → ((j : ℕ) → suc i ≤ j → j < k → transient j ≡ true)
      → (j : ℕ) → i ≤ j
      → j < k
      → transient j ≡ true
  earlier_too i k again later j l m = elim (Bool-cases (i == j)) [
    | inl same ↦ rw (sym ((==_iff i j).0 same)) again
    | inr other ↦ later j (ground arith) m
  ]

  wait-Ends :
      (n i delay : ℕ) (later : Attempt Retried) (o : Option (ℕ × Error))
      → i < 3
      → transient i ≡ true
      → interrupted i ≡ o
      → Ends n (suc i) (delay * 2) later
      → Ends (suc n) i delay (wait loader is_timeout status_code interrupted later i delay o)
  unfolding wait
  wait-Ends n i delay later (some (s, x)) l again stop ends =
      Ends-here (suc n) i delay (some x) (omega (arith, l)) (inr (again, (s, x, stop, refl)))
        (if leb s delay then s else delay) (cut s delay (longest (suc n) (delay * 2)))
    where
      cut : (s d more : ℕ) → (if leb s d then s else d) ≤ d + more
      cut s d more = ground arith
  wait-Ends n i delay later none l again go (r, done, (k, ends), short) = (
    record r { waited = delay + r.waited },
    rw done refl,
    (
      k,
      record {
        calls = ends.calls;
        in_range = omega (arith, ends.in_range.0, ends.in_range.1);
        config = ends.config;
        earlier = earlier_too i k again ends.earlier;
        reason = ends.reason;
      },
    ),
    omega (arith, short),
  )

  retry_loop-Ends :
      (n i delay : ℕ)
      → i + suc n ≡ 4
      → Ends n i delay (retry_loop loader is_timeout status_code interrupted (suc n) i delay)
  unfolding retry_loop
  retry_loop-Ends zero i delay rounds =
      let last : ltb 3 (suc i) ≡ true = ground (arith, rounds) in
      let three : i ≡ 3 = omega (arith, rounds) in
      rw (stops (transient i) (ltb 3 (suc i)) last) (
        Ends-here zero i delay (loader i).1 (omega (arith, rounds)) (inl (refl, inr three)) 0
          (omega arith))
    where
      stops : (a b : Bool) → b ≡ true → (not a || b) ≡ true
      stops a b h = ground arith
  retry_loop-Ends (suc n) i delay rounds =
      let more : ltb 3 (suc i) ≡ false = ground (arith, rounds) in
      let rest = retry_loop-Ends n (suc i) (delay * 2) (omega (arith, rounds)) in
      elim (Bool-cases (transient i)) [
        | inl again ↦
            rw (again, more)
              (wait-Ends n i delay
                (retry_loop loader is_timeout status_code interrupted (suc n) (suc i) (delay * 2))
                (interrupted i) (omega (arith, rounds)) again refl rest)
        | inr done ↦ rw done (
            Ends-here (suc n) i delay (loader i).1 (omega (arith, rounds)) (inl (refl, inl done)) 0
              (omega arith))
      ]

  -- Whatever the loader answers and whatever ends a wait, the loop returns after at most four calls of
  -- the loader and at most seven seconds of waiting. Every answer but the last is a timeout or a
  -- server error, and the configuration is that of the last one. The error is that of the last
  -- answer too, which is no such error or the fourth, unless the wait after it was interrupted.
  pub load_config_with_retries-EndsAt :
      (r : Retried) × (load_config_with_retries loader is_timeout status_code interrupted ≡ ok r)
      × ((k : ℕ) × EndsAt 0 k r)
      × (r.waited ≤ 7)
  unfolding load_config_with_retries
  load_config_with_retries-EndsAt = retry_loop-Ends 3 0 1 refl
