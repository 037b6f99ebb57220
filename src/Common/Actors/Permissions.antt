-- ===== src/Common/Actors/Permissions.antt =====
-- What `GetPermissions` returns.
use policy_bot.Prelude.{
  ◌<◌, ◌≡◌, refl, ◌≢◌, inl, inr, Bool, true, false, ◌&&◌, ◌||◌, List, [], ◌∷◌, arith, ltb, ◌==◌,
  if◌then◌else◌, ==_iff, ltb→lt, Bool-cases, any, All, any-sort, All-sort, All-insert_sorted,
  insert_sorted, sort,
}
use policy_bot.Pull.{Permission, permission_write, permission_admin}
use policy_bot.Common.Actors.{
  Actors, add_permission, add_permissions, permission_set, more_privileged, get_permissions,
}

any-add_permission :
    (f : Permission → Bool) (p : Permission) (set : List Permission)
    → any f (add_permission p set) ≡ (f p || any f set)
unfolding add_permission
any-add_permission f p set = elim (Bool-cases (any (λ q. q == p) set)) [
  | inl there ↦ rw there (already set there)
  | inr fresh ↦ rw fresh refl
]
  where
    already : (s : List Permission) → any (λ q. q == p) s ≡ true → any f s ≡ (f p || any f s)
    already [] e = cc
    already (q ∷ s) e = elim (Bool-cases (q == p)) [
      | inl same ↦ rw ((==_iff q p).0 same) (ground arith)
      | inr other ↦ ground (arith, already s (ground arith))
    ]

any-add_permissions :
    (f : Permission → Bool) (ps set : List Permission)
    → any f (add_permissions ps set) ≡ (any f ps || any f set)
unfolding add_permissions
any-add_permissions f [] set = refl
any-add_permissions f (p ∷ ps) set =
    ground (arith, any-add_permissions f ps (add_permission p set), any-add_permission f p set)

-- The permissions that the configuration grants, deprecated fields included.
abbrev pub any_granted : (Permission → Bool) → Actors → Bool
any_granted f a =
    any f a.permissions
    || (a.admins && f permission_admin)
    || (a.write_collaborators && f permission_write)

-- A test holds of some returned permission exactly when it holds of some configured one.
pub any-get_permissions :
    (f : Permission → Bool) (a : Actors) → any f (get_permissions a) ≡ any_granted f a
unfolding get_permissions permission_set
any-get_permissions f a =
    let listed = add_permissions a.permissions [] in
    let with_admins = if a.admins then add_permission permission_admin listed else listed in
    rw (any-sort more_privileged f) (
      ground (
        arith,
        any-add_permission f permission_write with_admins,
        any-add_permission f permission_admin listed,
        any-add_permissions f a.permissions [],
      ))

-- Each entry is greater than the next one.
abbrev pub IsDecreasing : List Permission → Type 0
IsDecreasing [] = Unit
IsDecreasing (p ∷ ps) = All (λ q. q < p) ps × IsDecreasing ps

abbrev IsDistinct : List Permission → Type 0
IsDistinct [] = Unit
IsDistinct (p ∷ ps) = All (λ q. q ≢ p) ps × IsDistinct ps

every_other :
    (p : Permission) (set : List Permission) → any (λ q. q == p) set ≡ false → All (λ q. q ≢ p) set
every_other p [] e = tt
every_other p (q ∷ set) e = (ground arith, every_other p set (ground arith))

add_permission-IsDistinct :
    (p : Permission) (set : List Permission) → IsDistinct set → IsDistinct (add_permission p set)
unfolding add_permission
add_permission-IsDistinct p set h = elim (Bool-cases (any (λ q. q == p) set)) [
  | inl there ↦ rw there h
  | inr fresh ↦ rw fresh (every_other p set fresh, h)
]

add_permissions-IsDistinct :
    (ps set : List Permission) → IsDistinct set → IsDistinct (add_permissions ps set)
unfolding add_permissions
add_permissions-IsDistinct [] set h = h
add_permissions-IsDistinct (p ∷ ps) set h =
    add_permissions-IsDistinct ps (add_permission p set) (add_permission-IsDistinct p set h)

permission_set-IsDistinct : (a : Actors) → IsDistinct (permission_set a)
unfolding permission_set
permission_set-IsDistinct a =
    let listed = add_permissions a.permissions [] in
    let with_admins = if a.admins then add_permission permission_admin listed else listed in
    ground (
      arith,
      add_permissions-IsDistinct a.permissions [],
      add_permission-IsDistinct permission_admin listed,
      add_permission-IsDistinct permission_write with_admins,
    )

every_below :
    (p q : Permission) (ps : List Permission) → p < q → All (λ r. r < p) ps → All (λ r. r < q) ps
every_below p q [] h k = tt
every_below p q (r ∷ ps) h (k, ks) = (omega arith, every_below p q ps h ks)

insert_sorted-IsDecreasing :
    (p : Permission) (ps : List Permission)
    → IsDecreasing ps
    → All (λ q. q ≢ p) ps
    → IsDecreasing (insert_sorted more_privileged p ps)
unfolding insert_sorted
insert_sorted-IsDecreasing p [] h other = (tt, tt)
insert_sorted-IsDecreasing p (q ∷ ps) (below, h) (ne, other) = elim (Bool-cases (ltb p q)) [
  | inl e ↦ rw e (
    All-insert_sorted more_privileged (λ r. r < q) p ps (ltb→lt p q e) below,
    insert_sorted-IsDecreasing p ps h other,
  )
  | inr e ↦ rw e ((ground arith, every_below q p ps (ground arith) below), (below, h))
]

sort-IsDecreasing : (ps : List Permission) → IsDistinct ps → IsDecreasing (sort more_privileged ps)
unfolding sort
sort-IsDecreasing [] h = tt
sort-IsDecreasing (p ∷ ps) (other, h) =
    insert_sorted-IsDecreasing p (sort more_privileged ps) (sort-IsDecreasing ps h)
      (All-sort more_privileged (λ q. q ≢ p) ps other)

-- The permissions are returned from most to least permissive, each of them once, and are exactly
-- those that the configuration lists or grants by its deprecated fields: a test holds of some
-- returned permission exactly when it holds of some configured one.
pub get_permissions-IsDecreasing :
    (a : Actors)
    → IsDecreasing (get_permissions a)
      × ((f : Permission → Bool) → any f (get_permissions a) ≡ any_granted f a)
get_permissions-IsDecreasing a = (
  unfold get_permissions in sort-IsDecreasing (permission_set a) (permission_set-IsDistinct a),
  λ f. any-get_permissions f a,
)
