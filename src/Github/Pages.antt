-- ===== src/Github/Pages.antt =====
-- The lists that GitHub gives in pages. The answer to a page is a parameter: its items, and the number of
-- the next page, 0 after the last one.
use policy_bot.Prelude.{
  ℕ, zero, suc, String, List, ◌++◌, map, ◌==◌, if◌then◌else◌, diverged, Attempt, ok, err, ◌>>=◌,
  wrap, to_lower,
}

abbrev pub Listing {ℓ} : Type ℓ → Type ℓ
Listing A = ℕ → Attempt (List A × ℕ)

-- The loop, on one round for each page; the message may name the page.
unfoldable pub list_pages {ℓ} :
    {A : Type ℓ} → (ℕ → String) → Listing A → ℕ → ℕ → List A → Attempt (List A)
list_pages msg list zero page acc = err diverged
list_pages msg list (suc n) page acc = wrap (msg page) (list page) >>= λ answer.
    let rest = list_pages msg list n answer.1 (acc ++ answer.0) in
    if answer.1 == 0 then ok (acc ++ answer.0) else rest

-- The labels are one page.
unfoldable pub labels : Attempt (List String) → Attempt (List String)
unfolding to_lower
labels answer = wrap "failed to list labels" answer >>= λ names. ok (map to_lower names)
