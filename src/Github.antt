-- ===== src/Github.antt =====
-- pull/github.go: the answers of GitHub as the data that the policy reads. The structs of the client
-- library are records of what their getters answer; the queries themselves are parameters.
pub mod Nodes
pub mod Pages
pub mod Files
pub mod Checks
pub mod Runs
pub mod RunOrder
pub mod Newest
pub mod Collaborators
pub mod Cursors
pub mod Refused
pub mod Pushed
pub mod Batch
pub mod Memory
use policy_bot.Prelude.{
  ℕ, String, Bool, true, false, not, ◌&&◌, ◌||◌, Option, none, some, List, [], ◌∷◌, map, ◌==◌,
  str_eq, if◌then◌else◌, put, Error, raised, wrapped, diverged, Attempt, ok, err, wrap, ◌<>◌,
  to_lower,
}
use policy_bot.Pull.{Time, CustomProperty}

abbrev pub max_pull_request_files : ℕ
max_pull_request_files = 3000

abbrev pub max_pull_request_commits : ℕ
max_pull_request_commits = 250

-- `github.PullRequest`
pub record PullRequest : Type 0 where
  pub draft : Option Bool
  pub title : String
  pub created_at : Time
  pub state : String
  pub user_login : String
  pub base_ref : String
  pub base_repo_id : ℕ
  pub head_sha : String
  pub head_ref : String
  pub head_repo_id : ℕ
  pub head_repo_name : String
  pub head_repo_owner : String
  pub changed_files : ℕ

pub record Locator : Type 0 where
  pub owner : String
  pub repo : String
  pub number : ℕ
  pub value : Option PullRequest

pub record V4Actor : Type 0 where
  pub type : String
  pub login : String

-- A nil actor has no login, and a bot's has a suffix.
unfoldable pub get_v3_login : Option V4Actor → String
get_v3_login none = ""
get_v3_login (some a) = if str_eq a.type "Bot" then a.login <> "[bot]" else a.login

pub record V4PullRequest : Type 0 where
  pub author : V4Actor
  pub title : String
  pub created_at : Time
  pub state : String
  pub is_cross_repository : Bool
  pub is_draft : Bool
  pub head_ref_oid : String
  pub head_ref_name : String
  pub head_repository_name : String
  pub head_repository_owner : V4Actor
  pub base_ref_name : String
  pub base_repository_id : ℕ
  pub changed_files : ℕ

abbrev is_set {ℓ} : {A : Type ℓ} → Option A → Bool
is_set none = false
is_set (some a) = true

-- The switch, whose first case that holds says no.
abbrev pub is_complete_value : PullRequest → Bool
is_complete_value v =
    is_set v.draft
    && not (str_eq v.title "")
    && not (v.created_at == 0)
    && not (str_eq v.state "")
    && not (str_eq v.user_login "")
    && not (str_eq v.base_ref "")
    && not (v.base_repo_id == 0)
    && not (str_eq v.head_sha "")
    && not (str_eq v.head_ref "")
    && not (v.head_repo_id == 0)
    && not (str_eq v.head_repo_name "")
    && not (str_eq v.head_repo_owner "")
    && not (v.changed_files == 0)

abbrev is_draft_value : Option Bool → Bool
is_draft_value none = false
is_draft_value (some b) = b

-- A pull request of the first API, as one of the second; its actors have no type.
abbrev untyped : String → V4Actor
untyped login = record { type = ""; login = login }

unfoldable v4_value : PullRequest → V4PullRequest
v4_value v = record {
  author = untyped v.user_login;
  title = v.title;
  created_at = v.created_at;
  state = v.state;
  is_cross_repository = not (v.head_repo_id == v.base_repo_id);
  is_draft = is_draft_value v.draft;
  head_ref_oid = v.head_sha;
  head_ref_name = v.head_ref;
  head_repository_name = v.head_repo_name;
  head_repository_owner = untyped v.head_repo_owner;
  base_ref_name = v.base_ref;
  base_repository_id = v.base_repo_id;
  changed_files = v.changed_files;
}

unfoldable is_complete : Locator → Bool
is_complete loc = by_value loc.value
  where
    by_value : Option PullRequest → Bool
    by_value none = false
    by_value (some v) = is_complete_value v

-- The query is made if the locator is not complete.
unfoldable to_v4 : Attempt V4PullRequest → Locator → Attempt V4PullRequest
unfolding v4_value
to_v4 query loc = by_value loc.value
  where
    by_value : Option PullRequest → Attempt V4PullRequest
    by_value none = wrap "failed to load pull request details" query
    by_value (some v) =
        if not (is_complete_value v)
        then wrap "failed to load pull request details" query
        else ok (v4_value v)

-- It panics on a locator without the identifying information.
unfoldable new_github_context : Attempt V4PullRequest → Locator → Attempt V4PullRequest
unfolding to_v4
new_github_context query loc =
    if str_eq loc.owner "" || str_eq loc.repo "" || loc.number == 0
    then err diverged
    else to_v4 query loc

unfoldable pub author : V4PullRequest → String
unfolding get_v3_login
author pr = get_v3_login (some pr.author)

unfoldable pub is_open : V4PullRequest → Bool
is_open pr = str_eq (to_lower pr.state) "open"

unfoldable is_closed : V4PullRequest → Bool
is_closed pr = str_eq (to_lower pr.state) "closed"

-- The base branch, and the head branch behind the owner of a fork.
unfoldable pub branches : V4PullRequest → String × String
branches pr = (
  pr.base_ref_name,
  if pr.is_cross_repository
      then pr.head_repository_owner.login <> ":" <> pr.head_ref_name
      else pr.head_ref_name,
)

-- A value of a custom property: nil, a text, a list of texts, or something else.
pub data PropertyValue : Type 0 where
  no_value other_value : PropertyValue
  text_value : String → PropertyValue
  list_value : List String → PropertyValue

-- The map that the loop has filled when it ends, and its error. The map stays in the context even if the
-- loop returns an error.
unfoldable load_repository_custom_properties :
    List (String × PropertyValue)
    → List (String × CustomProperty)
    → List (String × CustomProperty) × Option Error
load_repository_custom_properties [] m = (m, none)
load_repository_custom_properties ((name, no_value) ∷ values) m =
    load_repository_custom_properties values m
load_repository_custom_properties ((name, text_value s) ∷ values) m =
    load_repository_custom_properties values (put name (record { string = some s; array = none }) m)
load_repository_custom_properties ((name, list_value xs) ∷ values) m =
    load_repository_custom_properties values
      (put name (record { string = none; array = some xs }) m)
load_repository_custom_properties ((name, other_value) ∷ values) m =
    (m, some (raised ("unexpected type for custom property " <> name)))

-- The query of the properties, on the map that the context keeps, if there is one.
abbrev answered :
    List (String × CustomProperty) × Option Error
    → Attempt (List (String × CustomProperty)) × Option (List (String × CustomProperty))
answered (m, none) = (ok m, some m)
answered (m, some e) = (err e, some m)

unfoldable pub repository_custom_properties :
    Attempt (List (String × PropertyValue))
    → Option (List (String × CustomProperty))
    → Attempt (List (String × CustomProperty)) × Option (List (String × CustomProperty))
unfolding load_repository_custom_properties
repository_custom_properties values (some m) = (ok m, some m)
repository_custom_properties (err e) none =
    (err (wrapped "failed to load repository custom properties" e), none)
repository_custom_properties (ok values) none =
    answered (load_repository_custom_properties values [])
