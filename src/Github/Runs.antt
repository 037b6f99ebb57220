-- ===== src/Github/Runs.antt =====
-- `LatestWorkflowRuns`: for each workflow file and each type of event, the newest run of the head.
use policy_bot.Prelude.{
  ℕ, String, Bool, not, ◌&&◌, ◌||◌, Option, none, some, List, [], ◌∷◌, map, ltb, ◌==◌, str_eq,
  if◌then◌else◌, get, put, Attempt, ok, ◌>>=◌, ◌<>◌, show, MapOrder,
}
use policy_bot.Github.Pages.{Listing, list_pages}

-- `github.WorkflowRun`, and its time of update in nanoseconds.
pub record WorkflowRun : Type 0 where
  pub id : ℕ
  pub workflow_id : ℕ
  pub path : String
  pub event : String
  pub head_sha : String
  pub run_number : ℕ
  pub run_attempt : ℕ
  pub updated_at : ℕ
  pub status : String
  pub conclusion : String

-- `if f(run) != f(previous) { return f(run) > f(previous) }`, before what follows.
abbrev pub greater_by :
    (WorkflowRun → ℕ) → (WorkflowRun → WorkflowRun → Bool) → WorkflowRun → WorkflowRun → Bool
greater_by f rest run previous =
    if not (f run == f previous) then ltb (f previous) (f run) else rest run previous

abbrev pub by_status : WorkflowRun → WorkflowRun → Bool
by_status run previous = str_eq run.status "completed" || not (str_eq previous.status "completed")

abbrev pub by_update : WorkflowRun → WorkflowRun → Bool
by_update = greater_by (λ r. r.updated_at) by_status

abbrev pub by_attempt : WorkflowRun → WorkflowRun → Bool
by_attempt = greater_by (λ r. r.run_attempt) by_update

abbrev pub by_id : WorkflowRun → WorkflowRun → Bool
by_id = greater_by (λ r. r.id) by_attempt

-- Two runs of one workflow.
abbrev pub as_new_run : WorkflowRun → WorkflowRun → Bool
as_new_run = greater_by (λ r. r.run_number) by_id

unfoldable pub workflow_run_at_least_as_new : WorkflowRun → WorkflowRun → Bool
workflow_run_at_least_as_new run previous =
    if not (run.workflow_id == previous.workflow_id)
    then ltb previous.id run.id
    else as_new_run run previous

-- The runs by path, and for each path by event.
abbrev pub EventRuns : Type 0
EventRuns = List (String × WorkflowRun)

abbrev pub RunsByPath : Type 0
RunsByPath = List (String × EventRuns)

abbrev pub or_no_runs : Option EventRuns → EventRuns
or_no_runs none = []
or_no_runs (some runs) = runs

unfoldable pub newer_of : WorkflowRun → Option WorkflowRun → WorkflowRun
unfolding workflow_run_at_least_as_new
newer_of run none = run
newer_of run (some previous) = if workflow_run_at_least_as_new run previous then run else previous

unfoldable pub keep_newest_workflow_run : RunsByPath → WorkflowRun → RunsByPath
unfolding newer_of
keep_newest_workflow_run m run =
    let runs = or_no_runs (get run.path m) in
    put run.path (put run.event (newer_of run (get run.event runs)) runs) m

unfoldable pub keep_newest : List WorkflowRun → RunsByPath → RunsByPath
unfolding keep_newest_workflow_run
keep_newest [] m = m
keep_newest (r ∷ rs) m = keep_newest rs (keep_newest_workflow_run m r)

-- The run of the event that is handled, if it is one of the head.
unfoldable add_event_run : String → Option WorkflowRun → RunsByPath → RunsByPath
unfolding keep_newest_workflow_run
add_event_run head none m = m
add_event_run head (some run) m =
    if str_eq run.head_sha head && not (str_eq run.path "")
    then keep_newest_workflow_run m run
    else m

abbrev pub workflow_run_pending : String
workflow_run_pending = "pending"

unfoldable conclusion_of : WorkflowRun → String
conclusion_of run =
    if not (str_eq run.status "completed") then workflow_run_pending else run.conclusion

-- The conclusions of a path, in the order in which the map of its events is ranged over.
unfoldable pub conclusions :
    MapOrder (String × WorkflowRun) → RunsByPath → List (String × List String)
unfolding conclusion_of
conclusions order [] = []
conclusions order ((path, runs) ∷ m) =
    (path, map (λ r. conclusion_of r.1) (order.arrange runs)) ∷ conclusions order m

unfoldable pub latest_workflow_runs :
    MapOrder (String × WorkflowRun)
    → ℕ
    → Listing WorkflowRun
    → String
    → Option WorkflowRun
    → Attempt (List (String × List String))
unfolding list_pages keep_newest add_event_run conclusions
latest_workflow_runs order n list head event_run =
    list_pages (λ page. "failed to get workflow runs for page " <> show page) list n 0 []
    >>= λ runs. ok (conclusions order (add_event_run head event_run (keep_newest runs [])))
