-- ===== src/Relevance/Reads.antt =====
-- The names that a bundle of predicates reads.
use policy_bot.Prelude.{String, ◌≡◌, refl, Bool, Option, none, some, List, [], ◌∷◌, ◌++◌, All}
use policy_bot.Predicate.{
  Predicate, Predicates, changed_files, no_changed_files, only_changed_files, file_added,
  file_not_added, file_deleted, file_not_deleted, has_author_in, has_contributor_in,
  only_has_contributors_in, author_is_only_contributor, targets_branch, from_branch, modified_lines,
  has_status, has_successful_status, has_workflow_result, has_labels, repository, title,
  has_valid_signatures, has_valid_signatures_by, has_valid_signatures_by_keys,
  custom_property_is_null, custom_property_is_not_null, custom_property_matches_any_of,
  custom_property_matches_none_of, predicates, add_if, repository_predicates, check_predicates,
  pull_predicates, file_predicates,
}
use policy_bot.Predicate.Status.{HasStatus, HasWorkflowResult}
use policy_bot.Relevance.Names.{ReadsOnly, Every}

-- A list of predicates grows by one that is all right.
module _ {κ} (Q : Predicate → Type κ) where
  All-add_if {ℓ} :
      {A : Type ℓ} (f : A → Predicate) (o : Option A) (ps : List Predicate)
      → ((a : A) → o ≡ some a → Q (f a))
      → All Q ps
      → All Q (add_if f o ps)
  All-add_if f none ps q h = h
  All-add_if f (some a) ps q h = (q a refl, h)

pub Every-left : (m : String → Bool) (xs ys : List String) → Every m (xs ++ ys) → Every m xs
Every-left m [] ys h = tt
Every-left m (x ∷ xs) ys (q, h) = (q, Every-left m xs ys h)

pub Every-right : (m : String → Bool) (xs ys : List String) → Every m (xs ++ ys) → Every m ys
Every-right m [] ys h = h
Every-right m (x ∷ xs) ys (q, h) = Every-right m xs ys h

module _ (checks workflows : String → Bool) where
  -- Every name that a bundle of predicates reads matters.
  pub record ReadsNames (p : Predicates) : Type 0 where
    pub has_status : (s : HasStatus) → p.has_status ≡ some s → Every checks s.statuses
    pub has_successful_status :
        (s : List String) → p.has_successful_status ≡ some s → Every checks s
    pub has_workflow_result :
        (w : HasWorkflowResult) → p.has_workflow_result ≡ some w → Every workflows w.workflows

  abbrev Q : Predicate → Type 0
  Q = ReadsOnly checks workflows

  -- The four parts of the list, each before what follows.
  module _ (p : Predicates) (names : ReadsNames p) (rest : List Predicate) (h : All Q rest) where
    repository-ReadsOnly : All Q (repository_predicates p rest)
    repository-ReadsOnly =
        All-add_if Q has_valid_signatures p.has_valid_signatures _ (λ a e. tt)
          (All-add_if Q has_valid_signatures_by p.has_valid_signatures_by _ (λ a e. tt)
            (All-add_if Q has_valid_signatures_by_keys p.has_valid_signatures_by_keys _ (λ a e. tt)
              (All-add_if Q custom_property_is_not_null p.custom_property_is_not_null _ (λ a e. tt)
                (All-add_if Q custom_property_is_null p.custom_property_is_null _ (λ a e. tt)
                  (All-add_if Q custom_property_matches_any_of p.custom_property_matches_any_of _
                    (λ a e. tt)
                    (All-add_if Q custom_property_matches_none_of p.custom_property_matches_none_of
                      _ (λ a e. tt) (h)))))))

    check-ReadsOnly : All Q (check_predicates p rest)
    check-ReadsOnly = All-add_if Q has_status p.has_status _ names.has_status (
        All-add_if Q has_successful_status p.has_successful_status _ names.has_successful_status (
          All-add_if Q has_workflow_result p.has_workflow_result _ names.has_workflow_result (
            All-add_if Q has_labels p.has_labels _ (λ a e. tt)
              (All-add_if Q repository p.repository _ (λ a e. tt)
                (All-add_if Q title p.title _ (λ a e. tt) (h))))))

    pull-ReadsOnly : All Q (pull_predicates p rest)
    pull-ReadsOnly =
        All-add_if Q has_author_in p.has_author_in _ (λ a e. tt)
          (All-add_if Q has_contributor_in p.has_contributor_in _ (λ a e. tt)
            (All-add_if Q only_has_contributors_in p.only_has_contributors_in _ (λ a e. tt)
              (All-add_if Q author_is_only_contributor p.author_is_only_contributor _ (λ a e. tt)
                (All-add_if Q targets_branch p.targets_branch _ (λ a e. tt)
                  (All-add_if Q from_branch p.from_branch _ (λ a e. tt)
                    (All-add_if Q modified_lines p.modified_lines _ (λ a e. tt) (h)))))))

    file-ReadsOnly : All Q (file_predicates p rest)
    file-ReadsOnly =
        All-add_if Q changed_files p.changed_files _ (λ a e. tt)
          (All-add_if Q no_changed_files p.no_changed_files _ (λ a e. tt)
            (All-add_if Q only_changed_files p.only_changed_files _ (λ a e. tt)
              (All-add_if Q file_added p.file_added _ (λ a e. tt)
                (All-add_if Q file_not_added p.file_not_added _ (λ a e. tt)
                  (All-add_if Q file_deleted p.file_deleted _ (λ a e. tt)
                    (All-add_if Q file_not_deleted p.file_not_deleted _ (λ a e. tt) (h)))))))

  pub predicates-ReadsOnly : (p : Predicates) → ReadsNames p → All Q (predicates p)
  unfolding predicates
  predicates-ReadsOnly p n =
      file-ReadsOnly p n _
        (pull-ReadsOnly p n _ (check-ReadsOnly p n _ (repository-ReadsOnly p n [] tt)))
