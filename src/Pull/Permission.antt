-- ===== src/Pull/Permission.antt =====
-- pull/permission.go: the names of the permissions, and reading them.
use policy_bot.Prelude.{
  zero, suc, ◌≤◌, String, ◌≡◌, refl, Bool, false, ◌||◌, none, some, List, arith, ◌==◌, str_eq,
  if◌then◌else◌, get, raised, Attempt, ok, err, ◌<>◌, show, to_lower,
}
use policy_bot.Pull.{
  Permission, permission_none, permission_read, permission_triage, permission_write,
  permission_maintain, permission_admin,
}

abbrev flag : String → List (String × Bool) → Bool
flag k m = elim (get k m) [ none ↦ false | some b ↦ b ]

-- The most permissive flag that is set.
pub parse_permission_map : List (String × Bool) → Permission
parse_permission_map m =
    if flag "admin" m
    then permission_admin
    else if flag "maintain" m
    then permission_maintain
    else if flag "write" m || flag "push" m
    then permission_write
    else if flag "triage" m
    then permission_triage
    else if flag "read" m || flag "pull" m
    then permission_read
    else permission_none

-- The arguments are what the getters of the GitHub library's record answer.
pub parse_repository_permissions : (admin maintain push triage pull : Bool) → Permission
parse_repository_permissions admin maintain push triage pull =
    if admin
    then permission_admin
    else if maintain
    then permission_maintain
    else if push
    then permission_write
    else if triage
    then permission_triage
    else if pull
    then permission_read
    else permission_none

pub string : Permission → String
string p =
    if p == permission_none
    then "none"
    else if p == permission_read
    then "read"
    else if p == permission_triage
    then "triage"
    else if p == permission_write
    then "write"
    else if p == permission_maintain
    then "maintain"
    else if p == permission_admin
    then "admin"
    else "unknown(" <> show p <> ")"

pub github_string : Permission → String
github_string p =
    if p == permission_none
    then ""
    else if p == permission_read
    then "pull"
    else if p == permission_triage
    then "triage"
    else if p == permission_write
    then "push"
    else if p == permission_maintain
    then "maintain"
    else if p == permission_admin
    then "admin"
    else ""

pub marshal_text : Permission → String
unfolding string
marshal_text p = string p

unmarshal_lower : String → String → Attempt Permission
unmarshal_lower text lower =
    if str_eq lower "none"
    then ok permission_none
    else if str_eq lower "read"
    then ok permission_read
    else if str_eq lower "triage"
    then ok permission_triage
    else if str_eq lower "write"
    then ok permission_write
    else if str_eq lower "maintain"
    then ok permission_maintain
    else if str_eq lower "admin"
    then ok permission_admin
    else err (raised ("invalid permission: " <> text))

pub unmarshal_text : String → Attempt Permission
unfolding unmarshal_lower
unmarshal_text text = unmarshal_lower text (to_lower text)

pub parse_permission : String → Attempt Permission
unfolding unmarshal_text
parse_permission s = unmarshal_text s

-- Reading what a permission is written as gives it back, for the six permissions.
pub parse_permission-marshal_text :
    (p : Permission) → p ≤ permission_admin → parse_permission (marshal_text p) ≡ ok p
unfolding parse_permission marshal_text to_lower
parse_permission-marshal_text zero h = refl
parse_permission-marshal_text (suc zero) h = refl
parse_permission-marshal_text (suc (suc zero)) h = refl
parse_permission-marshal_text (suc (suc (suc zero))) h = refl
parse_permission-marshal_text (suc (suc (suc (suc zero)))) h = refl
parse_permission-marshal_text (suc (suc (suc (suc (suc zero))))) h = refl
parse_permission-marshal_text (suc (suc (suc (suc (suc (suc p)))))) h = absurd (omega arith)

-- A text that is read is read as one of the six permissions.
pub parse_permission-bound :
    (s : String) (p : Permission) → parse_permission s ≡ ok p → p ≤ permission_admin
unfolding parse_permission
parse_permission-bound s p h = ground arith
