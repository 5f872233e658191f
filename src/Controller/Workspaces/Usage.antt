-- ===== src/Controller/Workspaces/Usage.antt =====
-- persistentworkspace_lifecycle.go: whether a workspace is in use, and since when it is not.
pub mod Stability
use kruntimes.Base.{
  ℕ, Bool, true, false, ◌||◌, not, List, [], ◌∷◌, Option, none, some, if◌then◌else◌, any,
}
use kruntimes.Base.Results.{Result, ok, err}
use kruntimes.Api.Conditions.{ConditionStatus, Condition, true_status, false_status}
use kruntimes.Api.Run.{Run, RunPhase, succeeded, failed, timeout, cancelled}
use kruntimes.Api.Workspace.{PersistentWorkspace}
use kruntimes.RuntimePod.{status_eq}
use kruntimes.Scheduler.Environment.{Answer, found, not_found, unavailable}
use kruntimes.Controller.Workspaces.{
  WorkspaceParts, WorkspaceError, list_runs_failed, in_use_condition, with_condition,
}

is_over : RunPhase → Bool
is_over succeeded = true
is_over failed = true
is_over timeout = true
is_over cancelled = true
is_over _ = false

-- runTerminal
unfoldable pub run_terminal : {Q : Type 0} → Run Q → Bool
unfolding is_over
run_terminal run = is_over run.status.phase

-- workspaceHasActiveRuns, of the Runs that the index lists.
unfoldable pub workspace_has_active_runs :
    {Q : Type 0} → Answer (List (Run Q)) → Result WorkspaceError Bool
workspace_has_active_runs (found runs) = ok (any (λ run. not (run_terminal run)) runs)
workspace_has_active_runs _ = err list_runs_failed

-- `condition == nil || condition.Status != status`
abbrev pub differs : Option Condition → ConditionStatus → Bool
differs none status = true
differs (some c) status = not (status_eq c.status status)

module _ (parts : WorkspaceParts) (now : ℕ) where
  unfoldable pub set_workspace_usage : Bool → PersistentWorkspace → PersistentWorkspace
  set_workspace_usage true w =
      if differs (parts.meta.find_status_condition w.status.conditions in_use_condition) true_status
      then with_condition parts now w in_use_condition true_status "ActiveRuns"
          "One or more Runs reference this workspace"
      else w
  set_workspace_usage false w =
      if differs (parts.meta.find_status_condition w.status.conditions in_use_condition)
        false_status
      then with_condition parts now
          (record w { status = record (w.status) { last_used_time = some now } }) in_use_condition
          false_status "Unused" "No non-terminal Runs reference this workspace"
      else w

  after_check :
      Result WorkspaceError Bool → PersistentWorkspace → Result WorkspaceError PersistentWorkspace
  after_check (err e) w = err e
  after_check (ok active) w = ok (set_workspace_usage active w)

  -- reconcileWorkspaceUsage
  unfoldable pub reconcile_workspace_usage :
      {Q : Type 0}
      → Answer (List (Run Q))
      → PersistentWorkspace
      → Result WorkspaceError PersistentWorkspace
  unfolding after_check
  reconcile_workspace_usage runs w = after_check (workspace_has_active_runs runs) w
