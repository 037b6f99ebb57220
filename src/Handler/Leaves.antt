-- ===== src/Handler/Leaves.antt =====
-- The leaves of a tree of results, which the two searches of eval_context_dismissal.go visit.
use policy_bot.Prelude.{
  String, ◌≡◌, refl, ap, ◌↔◌, inl, inr, true, ◌&&◌, Option, none, some, List, [], ◌++◌, map,
  if◌then◌else◌, contains, Error,
}
use policy_bot.Prelude.{
  In, In-concat, In-concat_left, In-concat_right, In-map, map-In, contains→In, In→contains,
}
use mathlib.Core.Path.{subst}
use policy_bot.Common.Methods.{Candidate}
use policy_bot.Common.Result.{Report, Result, result, Results, no_results, and_result, Dismissal}
use policy_bot.Handler.{
  is_unset, has_no_children, find_all_dismissals, find_each_dismissals, find_all_approvers,
  find_each_approvers,
}

-- The report is that of a result without children, in a tree or in a list of trees.
mutual
  pub data LeafOf (rep : Report) : Result → Type 0 where
    itself : LeafOf rep (result rep no_results)
    inside : {parent : Report} {rs : Results} → LeafIn rep rs → LeafOf rep (result parent rs)

  pub data LeafIn (rep : Report) : Results → Type 0 where
    first : {r : Result} {rs : Results} → LeafOf rep r → LeafIn rep (and_result r rs)
    later : {r : Result} {rs : Results} → LeafIn rep rs → LeafIn rep (and_result r rs)

module _ {A : Type 0} (f : Report → List A) where
  -- What the leaves without an error have.
  unfoldable mutual
    pub gather : Result → List A
    gather (result rep rs) =
        (if has_no_children rs && is_unset rep.error then f rep else []) ++ gather_each rs

    pub gather_each : Results → List A
    gather_each no_results = []
    gather_each (and_result r rs) = gather r ++ gather_each rs

  abbrev pub Gathered : (Report → Type 0) → A → Type 0
  Gathered IsLeaf x = (rep : Report) × IsLeaf rep × (rep.error ≡ none) × In x (f rep)

  own :
      (rep : Report) (x : A) (o : Option Error)
      → rep.error ≡ o
      → In x ((if true && is_unset o then f rep else []) ++ [])
      → (rep.error ≡ none) × In x (f rep)
  own rep x none e among = elim (In-concat (f rep) [] x among) [ inl l ↦ (e, l) | inr r ↦ absurd r ]
  own rep x (some y) e among = absurd among

  owned :
      (rep : Report) (x : A) (o : Option Error)
      → o ≡ none
      → In x (f rep)
      → In x ((if true && is_unset o then f rep else []) ++ [])
  owned rep x none e has = In-concat_left x (f rep) [] has
  owned rep x (some y) e has = absurd cc

  mutual
    unfolding gather

    gather-leaf : (x : A) (r : Result) → In x (gather r) → Gathered (λ rep. LeafOf rep r) x
    gather-leaf x (result rep no_results) among =
        let (clean, has) = own rep x rep.error refl among in (rep, itself, clean, has)
    gather-leaf x (result rep (and_result r rs)) among =
        let (leaf, below, clean, has) = gather_each-leaf x (and_result r rs) among in
        (leaf, inside below, clean, has)

    gather_each-leaf :
        (x : A) (rs : Results) → In x (gather_each rs) → Gathered (λ rep. LeafIn rep rs) x
    gather_each-leaf x no_results among = absurd among
    gather_each-leaf x (and_result r rs) among =
        elim (In-concat (gather r) (gather_each rs) x among) [
          | inl l ↦
              let (leaf, below, clean, has) = gather-leaf x r l in (leaf, first below, clean, has)
          | inr m ↦
              let (leaf, below, clean, has) = gather_each-leaf x rs m in
              (leaf, later below, clean, has)
        ]

  mutual
    unfolding gather

    leaf-gather :
        (x : A) (leaf : Report) (r : Result)
        → LeafOf leaf r
        → leaf.error ≡ none
        → In x (f leaf)
        → In x (gather r)
    leaf-gather x leaf (result _ no_results) itself clean has = owned leaf x leaf.error clean has
    leaf-gather x leaf (result rep rs) (inside below) clean has =
        In-concat_right x (if has_no_children rs && is_unset rep.error then f rep else [])
          (gather_each rs) (leaf-gather_each x leaf rs below clean has)

    leaf-gather_each :
        (x : A) (leaf : Report) (rs : Results)
        → LeafIn leaf rs
        → leaf.error ≡ none
        → In x (f leaf)
        → In x (gather_each rs)
    leaf-gather_each x leaf no_results below clean has = elim below [ ]
    leaf-gather_each x leaf (and_result r rs) (first below) clean has =
        In-concat_left x (gather r) (gather_each rs) (leaf-gather x leaf r below clean has)
    leaf-gather_each x leaf (and_result r rs) (later below) clean has =
        In-concat_right x (gather r) (gather_each rs) (leaf-gather_each x leaf rs below clean has)

mutual
  unfolding gather find_all_dismissals

  find_all_dismissals-gather :
      (r : Result) → find_all_dismissals r ≡ gather (λ rep. rep.dismissals) r
  find_all_dismissals-gather (result rep rs) =
      ap (λ l. (if has_no_children rs && is_unset rep.error then rep.dismissals else []) ++ l)
        (find_each_dismissals-gather rs)

  find_each_dismissals-gather :
      (rs : Results) → find_each_dismissals rs ≡ gather_each (λ rep. rep.dismissals) rs
  find_each_dismissals-gather no_results = refl
  find_each_dismissals-gather (and_result r rs) =
      rw (find_all_dismissals-gather r, find_each_dismissals-gather rs) refl

abbrev approver_names : Report → List String
approver_names rep = map (λ c. c.user) rep.requires.approvers

mutual
  unfolding gather find_all_approvers

  find_all_approvers-gather : (r : Result) → find_all_approvers r ≡ gather approver_names r
  find_all_approvers-gather (result rep rs) =
      ap (λ l. (if has_no_children rs && is_unset rep.error then approver_names rep else []) ++ l)
        (find_each_approvers-gather rs)

  find_each_approvers-gather :
      (rs : Results) → find_each_approvers rs ≡ gather_each approver_names rs
  find_each_approvers-gather no_results = refl
  find_each_approvers-gather (and_result r rs) =
      rw (find_all_approvers-gather r, find_each_approvers-gather rs) refl

-- A rule without an error has the candidate among its approvers.
abbrev pub IsApprover : Result → String → Type 0
IsApprover r user =
    (leaf : Report) × LeafOf leaf r
    × (leaf.error ≡ none)
    × (c : Candidate) × In c leaf.requires.approvers
    × (c.user ≡ user)

-- A rule without an error dismissed the candidate.
abbrev pub IsDismissed : Result → Dismissal → Type 0
IsDismissed r d = (leaf : Report) × LeafOf leaf r × (leaf.error ≡ none) × In d leaf.dismissals

pub find_all_dismissals-iff_IsDismissed :
    (r : Result) (d : Dismissal) → In d (find_all_dismissals r) ↔ IsDismissed r d
find_all_dismissals-iff_IsDismissed r d = rw (find_all_dismissals-gather r) (
  gather-leaf (λ rep. rep.dismissals) d r,
  λ (leaf, below, clean, has). leaf-gather (λ rep. rep.dismissals) d leaf r below clean has,
)

pub find_all_approvers-iff_IsApprover :
    (r : Result) (user : String) → (contains (find_all_approvers r) user ≡ true) ↔ IsApprover r user
find_all_approvers-iff_IsApprover r user = rw (find_all_approvers-gather r) (
  λ h.
      let (leaf, below, clean, has) =
        gather-leaf approver_names user r (contains→In (gather approver_names r) user h) in
      let (c, among, same) = In-map (λ (c : Candidate). c.user) user leaf.requires.approvers has in
      (leaf, below, clean, c, among, same),
  λ (leaf, below, clean, c, among, same). In→contains (gather approver_names r) user (
      leaf-gather approver_names user leaf r below clean (
        subst (λ u. In u (approver_names leaf)) same
          (map-In (λ (c : Candidate). c.user) c leaf.requires.approvers among))),
)
