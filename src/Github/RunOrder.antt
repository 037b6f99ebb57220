-- ===== src/Github/RunOrder.antt =====
-- `workflowRunAtLeastAsNew` on runs of one workflow, as an order.
use policy_bot.Prelude.{
  ℕ, ◌≡◌, refl, inl, inr, Bool, true, false, not, ◌||◌, arith, ltb, ◌==◌, str_eq, if◌then◌else◌,
  Bool-cases,
}
use policy_bot.Github.Runs.{
  WorkflowRun, greater_by, by_status, by_update, by_attempt, by_id, as_new_run,
}

abbrev Relation : Type 0
Relation = WorkflowRun → WorkflowRun → Bool

abbrev IsTransitive : Relation → Type 0
IsTransitive r = (a b c : WorkflowRun) → r a b ≡ true → r b c ≡ true → r a c ≡ true

abbrev IsTotal : Relation → Type 0
IsTotal r = (a b : WorkflowRun) → r a b ≡ false → r b a ≡ true

step_trans :
    (x y z : ℕ) (p q r : Bool)
    → (p ≡ true → q ≡ true → r ≡ true)
    → (if not (x == y) then ltb y x else p) ≡ true
    → (if not (y == z) then ltb z y else q) ≡ true
    → (if not (x == z) then ltb z x else r) ≡ true
step_trans x y z true true true h a b = ground arith
step_trans x y z true true false h a b = absurd (let e = h refl refl in cc)
step_trans x y z true false r h a b = ground arith
step_trans x y z false q r h a b = ground arith

step_total :
    (x y : ℕ) (p q : Bool)
    → (p ≡ false → q ≡ true)
    → (if not (x == y) then ltb y x else p) ≡ false
    → (if not (y == x) then ltb x y else q) ≡ true
step_total x y true q h a = ground arith
step_total x y false true h a = ground arith
step_total x y false false h a = absurd (let e = h refl in cc)

module _ (f : WorkflowRun → ℕ) (rest : Relation) where
  greater_by-IsTransitive : IsTransitive rest → IsTransitive (greater_by f rest)
  greater_by-IsTransitive h a b c =
      step_trans (f a) (f b) (f c) (rest a b) (rest b c) (rest a c) (h a b c)

  greater_by-IsTotal : IsTotal rest → IsTotal (greater_by f rest)
  greater_by-IsTotal h a b = step_total (f a) (f b) (rest a b) (rest b a) (h a b)

by_status-IsTransitive : IsTransitive by_status
by_status-IsTransitive a b c =
    bools (str_eq a.status "completed") (str_eq b.status "completed") (str_eq c.status "completed")
  where
    bools : (x y z : Bool) → (x || not y) ≡ true → (y || not z) ≡ true → (x || not z) ≡ true
    bools x y z h k = ground arith

by_status-IsTotal : IsTotal by_status
by_status-IsTotal a b = bools (str_eq a.status "completed") (str_eq b.status "completed")
  where
    bools : (x y : Bool) → (x || not y) ≡ false → (y || not x) ≡ true
    bools x y h = ground arith

pub as_new_run-IsTransitive : IsTransitive as_new_run
as_new_run-IsTransitive =
    greater_by-IsTransitive (λ r. r.run_number) by_id
      (greater_by-IsTransitive (λ r. r.id) by_attempt
        (greater_by-IsTransitive (λ r. r.run_attempt) by_update
          (greater_by-IsTransitive (λ r. r.updated_at) by_status by_status-IsTransitive)))

pub as_new_run-IsTotal : IsTotal as_new_run
as_new_run-IsTotal =
    greater_by-IsTotal (λ r. r.run_number) by_id
      (greater_by-IsTotal (λ r. r.id) by_attempt
        (greater_by-IsTotal (λ r. r.run_attempt) by_update
          (greater_by-IsTotal (λ r. r.updated_at) by_status by_status-IsTotal)))

pub as_new_run_self : (r : WorkflowRun) → as_new_run r r ≡ true
as_new_run_self r = elim (Bool-cases (as_new_run r r)) [
  | inl yes_new ↦ yes_new
  | inr not_new ↦ as_new_run-IsTotal r r not_new
]
