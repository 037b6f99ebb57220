-- ===== src/Pull.antt =====
-- pull/context.go: what the policy reads of a pull request, behind the interface `Context`.
-- Times are nanoseconds after Go's zero time. The interface is a record of answers: on one context
-- every call of a method gives the same answer. Maps are association lists, one entry a key.
pub mod Permission
use policy_bot.Prelude.{
  ℕ, zero, suc, ◌+◌, ◌-◌, ◌*◌, ◌/◌, ◌%◌, ◌≤◌, ◌<◌, String, ◌≡◌, refl, sym, ap, ◌∙◌, ◌≢◌, ◌↔◌, ◌⊎◌,
  inl, inr, Bool, true, false, not, ◌&&◌, ◌||◌, Option, none, some, List, [], ◌∷◌, ◌++◌, map, Mem,
  Nodup, arith, eq_iff, eq_refl, ltb, leb, ◌==◌, str_eq, if◌then◌else◌, ==_iff, ltb→lt, leb→le,
  Bool-cases, Option-cases, length, is_empty, any, all, keep, last?, take, length-append, All,
  contains, get, put, Error, raised, wrapped, diverged, Attempt, ok, err, ◌>>=◌, wrap, >>=-eq-ok,
  wrap-eq-ok, ◌<>◌, show, first_chars, join, contains_text, to_lower, quote, insert_sorted, sort,
  str_lt,
}

abbrev pub Time : Type 0
Time = ℕ

-- `uint8`, with the constants below.
abbrev pub Permission : Type 0
Permission = ℕ

abbrev pub permission_none : Permission
permission_none = 0

abbrev pub permission_read : Permission
permission_read = 1

abbrev pub permission_triage : Permission
permission_triage = 2

abbrev pub permission_write : Permission
permission_write = 3

abbrev pub permission_maintain : Permission
permission_maintain = 4

abbrev pub permission_admin : Permission
permission_admin = 5

pub data FileStatus : Type 0 where
  file_modified file_added file_deleted : FileStatus

pub record File : Type 0 where
  pub filename : String
  pub status : FileStatus
  pub additions : ℕ
  pub deletions : ℕ

abbrev pub signature_gpg : String
signature_gpg = "GpgSignature"

pub record Signature : Type 0 where
  pub type : String
  pub is_valid : Bool
  pub key_id : String
  pub key_fingerprint : String
  pub signer : String
  pub state : String

pub record Commit : Type 0 where
  pub sha : String
  pub parents : List String
  pub committed_via_web : Bool
  pub author : String
  pub committer : String
  pub signature : Option Signature

-- The logins of a commit; an empty login is no user.
unfoldable pub users : Commit → List String
users c =
    (if str_eq c.author "" then [] else c.author ∷ [])
    ++ (if str_eq c.committer "" then [] else c.committer ∷ [])

pub record Comment : Type 0 where
  pub created_at : Time
  pub last_edited_at : Time
  pub author : String
  pub body : String

abbrev pub review_approved : String
review_approved = "approved"

abbrev pub review_changes_requested : String
review_changes_requested = "changes_requested"

pub record Review : Type 0 where
  pub id : String
  pub created_at : Time
  pub last_edited_at : Time
  pub author : String
  pub state : String
  pub body : String
  pub sha : String
  pub teams : List String

abbrev pub reviewer_user : String
reviewer_user = "user"

abbrev pub reviewer_team : String
reviewer_team = "team"

pub record Reviewer : Type 0 where
  pub type : String
  pub name : String
  pub removed : Bool

pub record CollaboratorPermission : Type 0 where
  pub permission : Permission
  pub via_repo : Bool

pub record Collaborator : Type 0 where
  pub name : String
  pub permissions : List CollaboratorPermission

pub record Body : Type 0 where
  pub body : String
  pub created_at : Time
  pub author : String
  pub last_edited_at : Time

pub record CustomProperty : Type 0 where
  pub string : Option String
  pub array : Option (List String)

pub record Context : Type 0 where
  pub is_team_member : String → String → Attempt Bool
  pub is_org_member : String → String → Attempt Bool
  pub team_members : String → Attempt (List String)
  pub organization_members : String → Attempt (List String)
  pub repository_owner : String
  pub repository_name : String
  pub repository_custom_properties : Attempt (List (String × CustomProperty))
  pub title : String
  pub body : Attempt Body
  pub author : String
  pub head_sha : String
  pub base_branch : String
  pub head_branch : String
  pub changed_files : Attempt (List File)
  pub commits : Attempt (List Commit)
  pub pushed_at : String → Attempt Time
  pub comments : Attempt (List Comment)
  pub reviews : Attempt (List Review)
  pub is_draft : Bool
  pub repository_collaborators : Permission → Attempt (List Collaborator)
  pub collaborator_permission : String → Attempt Permission
  pub teams : Attempt (List (String × Permission))
  pub requested_reviewers : Attempt (List Reviewer)
  pub latest_statuses : Attempt (List (String × String))
  pub latest_workflow_runs : Attempt (List (String × List String))
  pub labels : Attempt (List String)
