-- ===== src/Github/Checks.antt =====
-- `LatestStatuses`: the commit statuses of the head, and the check runs over them. `Teams` collects a map
-- the same way.
use policy_bot.Prelude.{
  ℕ, String, Bool, true, false, Option, none, some, List, [], ◌∷◌, if◌then◌else◌, get, put, Attempt,
  ok, ◌>>=◌, ◌<>◌, show,
}
use policy_bot.Pull.{Permission}
use policy_bot.Pull.Permission.{parse_permission_map}
use policy_bot.Github.Pages.{Listing, list_pages}

-- `statuses[s.GetContext()] = s.GetState()`
unfoldable put_statuses : List (String × String) → List (String × String) → List (String × String)
put_statuses [] m = m
put_statuses ((context, state) ∷ ss) m = put_statuses ss (put context state m)

unfoldable get_statuses : ℕ → Listing (String × String) → Attempt (List (String × String))
unfolding list_pages put_statuses
get_statuses n list =
    list_pages (λ page. "failed to get statuses for page " <> show page) list n 0 [] >>= λ ss.
    ok (put_statuses ss [])

abbrev is_some {ℓ} : {A : Type ℓ} → Option A → Bool
is_some none = false
is_some (some a) = true

-- Runs are listed from the most recent one, which is kept for its name.
unfoldable put_first : List (String × String) → List (String × String) → List (String × String)
put_first [] m = m
put_first ((name, conclusion) ∷ rs) m =
    put_first rs (if is_some (get name m) then m else put name conclusion m)

unfoldable get_check_statuses : ℕ → Listing (String × String) → Attempt (List (String × String))
unfolding list_pages put_first
get_check_statuses n list =
    list_pages (λ page. "failed to get check runs for page " <> show page) list n 0 [] >>= λ rs.
    ok (put_first rs [])

-- `maps.Copy(statuses, checkStatuses)`
unfoldable pub latest_statuses :
    ℕ → Listing (String × String) → Listing (String × String) → Attempt (List (String × String))
unfolding get_statuses get_check_statuses put_statuses
latest_statuses n statuses checks =
    get_statuses n statuses >>= λ m. get_check_statuses n checks >>= λ c. ok (put_statuses c m)

-- `allTeams[t.GetSlug()] = ParsePermissionMap(t.Permissions)`
unfoldable put_teams :
    List (String × List (String × Bool)) → List (String × Permission) → List (String × Permission)
put_teams [] m = m
put_teams ((slug, permissions) ∷ ts) m =
    put_teams ts (put slug (parse_permission_map permissions) m)

unfoldable pub teams :
    ℕ → Listing (String × List (String × Bool)) → Attempt (List (String × Permission))
unfolding list_pages put_teams
teams n list = list_pages (λ page. "failed to list teams page " <> show page) list n 0 [] >>= λ ts.
    ok (put_teams ts [])
