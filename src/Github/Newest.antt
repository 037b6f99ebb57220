-- ===== src/Github/Newest.antt =====
-- `keepNewestWorkflowRun` over a list of runs of one workflow.
use policy_bot.Prelude.{In}
use policy_bot.Prelude.{ℕ, ◌≡◌, true, Option, some, List, get}
use policy_bot.Github.Runs.{WorkflowRun, workflow_run_at_least_as_new, RunsByPath, or_no_runs}

-- The run that is kept for a path and an event.
abbrev pub kept : RunsByPath → WorkflowRun → Option WorkflowRun
kept m r = get r.event (or_no_runs (get r.path m))

-- The run was listed, with the path and the event of the given one.
pub record IsListed (listed : List WorkflowRun) (r k : WorkflowRun) : Type 0 where
  pub among : In k listed
  pub path : k.path ≡ r.path
  pub event : k.event ≡ r.event

-- What is kept was listed.
module _ (listed : List WorkflowRun) where
  abbrev Origin : RunsByPath → Type 0
  Origin m = (r k : WorkflowRun) → kept m r ≡ some k → IsListed listed r k

module _ (w : ℕ) where
  -- A kept run of the workflow, no older than a given one.
  abbrev KeepsNewer : Option WorkflowRun → WorkflowRun → Type 0
  KeepsNewer o r =
      (k : WorkflowRun) × (o ≡ some k)
      × (k.workflow_id ≡ w)
      × (workflow_run_at_least_as_new k r ≡ true)

  -- What is kept after one more run, where one was kept before and where none was.
  abbrev OfWorkflow : Option WorkflowRun → Type 0
  OfWorkflow o = (k : WorkflowRun) → o ≡ some k → k.workflow_id ≡ w

  -- Every kept run is one of the workflow.
  abbrev Pure : RunsByPath → Type 0
  Pure m = (r : WorkflowRun) → OfWorkflow (kept m r)
