-- ===== src/Common/Methods/Stability.antt =====
-- Candidates come from what the methods use.
use policy_bot.Prelude.{◌≡◌, refl, inl, inr, true, Bool-cases, MapOrder}
use policy_bot.Pull.{Context}
use policy_bot.Common.Methods.{
  Methods, Candidate, uses_comments, uses_body, uses_reviews, comment_candidates, body_candidates,
  review_candidates, candidates,
}

module _ (m : Methods) (c d : Context) where
  comments_same :
      (uses_comments m ≡ true → c.comments ≡ d.comments)
      → comment_candidates m c ≡ comment_candidates m d
  unfolding comment_candidates
  comments_same h = elim (Bool-cases (uses_comments m)) [
    | inl e ↦ rw e (simp (h e))
    | inr e ↦ rw e refl
  ]

  body_same : (uses_body m ≡ true → c.body ≡ d.body) → body_candidates m c ≡ body_candidates m d
  unfolding body_candidates
  body_same h = elim (Bool-cases (uses_body m)) [ inl e ↦ rw e (simp (h e)) | inr e ↦ rw e refl ]

  reviews_same :
      (uses_reviews m ≡ true → c.reviews ≡ d.reviews)
      → review_candidates m c ≡ review_candidates m d
  unfolding review_candidates
  reviews_same h = elim (Bool-cases (uses_reviews m)) [
    | inl e ↦ rw e (simp (h e))
    | inr e ↦ rw e refl
  ]

  pub candidates_same :
      (order : MapOrder Candidate)
      → (uses_comments m ≡ true → c.comments ≡ d.comments)
      → (uses_body m ≡ true → c.body ≡ d.body)
      → (uses_reviews m ≡ true → c.reviews ≡ d.reviews)
      → candidates order m c ≡ candidates order m d
  unfolding candidates
  candidates_same order x y z = simp (comments_same x, body_same y, reviews_same z)
