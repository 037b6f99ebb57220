-- ===== src/Approval/Commits/History.antt =====
-- `sortCommits` returns the first-parent history of the head, and terminates.
use policy_bot.Prelude.{
  ℕ, zero, suc, ◌≤◌, ◌<◌, String, ◌≡◌, refl, ap, Option, none, some, List, [], ◌∷◌, arith, length,
  get,
}
use policy_bot.Pull.{Commit}
use policy_bot.Approval.Commits.{
  commits_by_sha, prepend, after_commit, follow, sort_from, sort_commits,
}

abbrev pub Commits : Type 0
Commits = List (String × Commit)

-- The history of a head: its commit, if it is among the commits, and the history of the first parent.
pub data IsHistory (m : Commits) : String → List Commit → Type 0 where
  unknown : {head : String} → get head m ≡ none → IsHistory m head []
  initial :
      {head : String} {c : Commit}
      → get head m ≡ some c
      → c.parents ≡ []
      → IsHistory m head (c ∷ [])
  child :
      {head : String} {c : Commit} {parent : String} {others : List String} {cs : List Commit}
      → get head m ≡ some c
      → c.parents ≡ parent ∷ others
      → IsHistory m parent cs
      → IsHistory m head (c ∷ cs)

-- Commits are ranked when a first parent ranks lower than its child, and no rank exceeds the bound. The
-- length of the first-parent history is such a rank, where no commit is its own ancestor.
pub record IsRanked (m : Commits) (bound : ℕ) (rank : String → ℕ) : Type 0 where
  pub bounded : (sha : String) → rank sha ≤ bound
  pub decreasing :
      (sha parent : String) (others : List String) (c : Commit)
      → get sha m ≡ some c
      → c.parents ≡ parent ∷ others
      → rank parent < rank sha

module _ (m : Commits) (bound : ℕ) (rank : String → ℕ) (ranked : IsRanked m bound rank) where
  abbrev Found : String → Option (List Commit) → Type 0
  Found head o = (cs : List Commit) × (o ≡ some cs) × IsHistory m head cs

  after_commit-Found :
      (rest : String → Option (List Commit)) (head : String) (c : Commit) (parents : List String)
      → get head m ≡ some c
      → c.parents ≡ parents
      → ((parent : String) → rank parent < rank head → Found parent (rest parent))
      → Found head (after_commit rest c parents)
  after_commit-Found rest head c [] found none_left h = (c ∷ [], refl, initial found none_left)
  after_commit-Found rest head c (parent ∷ others) found first h =
      let (cs, same, history) = h parent (ranked.decreasing head parent others c found first) in
      (c ∷ cs, ap (prepend c) same, child found first history)

  follow-Found :
      (rest : String → Option (List Commit)) (head : String) (o : Option Commit)
      → get head m ≡ o
      → ((parent : String) → rank parent < rank head → Found parent (rest parent))
      → Found head (follow rest o)
  follow-Found rest head none found h = ([], refl, unknown found)
  follow-Found rest head (some c) found h = after_commit-Found rest head c c.parents found refl h

  sort_from-Found :
      (fuel : ℕ) (head : String) → rank head < fuel → Found head (sort_from fuel m head)
  unfolding sort_from
  sort_from-Found zero head h = absurd (impossible h)
    where
      impossible : rank head < 0 → ⊥
      impossible l = omega arith
  sort_from-Found (suc fuel) head h =
      follow-Found (sort_from fuel m) head (get head m) refl
        (λ parent lower. sort_from-Found fuel parent (omega (arith, h, lower)))

-- If the commits are ranked, then the loop of `sortCommits` ends within one round for each commit and
-- one more, and returns the first-parent history of the head.
pub sort_commits-IsHistory :
    (commits : List Commit) (rank : String → ℕ) (head : String)
    → IsRanked (commits_by_sha [] commits) (length commits) rank
    → (cs : List Commit) × (sort_commits commits head ≡ some cs)
      × IsHistory (commits_by_sha [] commits) head cs
unfolding sort_commits
sort_commits-IsHistory commits rank head ranked =
    let low : rank head < suc (length commits) = omega (arith, ranked.bounded head) in
    sort_from-Found (commits_by_sha [] commits) (length commits) rank ranked (suc (length commits))
      head low
