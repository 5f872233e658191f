-- ===== src/Controller/Workspaces/Lifecycle.antt =====
-- persistentworkspace_controller.go: Reconcile, in the order of its calls.
pub mod Bindings
pub mod Kept
pub mod History
pub mod FirstBinding
pub mod Deadlines
pub mod Timely
pub mod InUse
pub mod Releases
use kruntimes.Base.{
  String, string_eq, ◌==◌, Bool, true, false, not, [], Option, is_some, if◌then◌else◌,
}
use kruntimes.Base.Text.{join, quote}
use kruntimes.Base.Results.{Result, ok, err, ◌>>=◌}
use kruntimes.Api.Conditions.{true_status, false_status}
use kruntimes.Api.Workspace.{
  PersistentWorkspace, PersistentWorkspacePhase, unset_workspace, pending_workspace,
  bound_workspace, lost_workspace, released_workspace,
}
use kruntimes.Scheduler.Environment.{Answer, found, not_found, unavailable}
use kruntimes.Controller.Workspaces.{
  WorkspaceParts, WorkspaceWorld, WorkspaceError, get_workspace_failed, get_runtime_failed,
  status_update_failed, wrote_status, settled, gave_up, WorkspaceOutcome, answers, one_write,
  and_then, accepted_condition, runtime_condition, with_condition, with_phase,
}
use kruntimes.Controller.Workspaces.Binding.{bind_pending_workspace, reconcile_bound_workspace}
use kruntimes.Controller.Workspaces.Usage.{reconcile_workspace_usage}
use kruntimes.Controller.Workspaces.Cleanup.{
  reconcile_persistent_workspace_cleanup, request_persistent_workspace_deletion,
  reconcile_deleting_workspace,
}

-- `if phase == "" { phase = Pending }`
abbrev pub phase_at_start : PersistentWorkspacePhase → PersistentWorkspacePhase
phase_at_start unset_workspace = pending_workspace
phase_at_start phase = phase

module _ {Q : Type 0} (parts : WorkspaceParts) (world : WorkspaceWorld Q) where
  unfoldable pub update_persistent_workspace_status :
      PersistentWorkspace → PersistentWorkspace → WorkspaceOutcome
  update_persistent_workspace_status original w =
      if parts.same_status original.status w.status
      then answers settled
      else one_write (wrote_status w) world.status_update status_update_failed

  -- The spec is accepted; the phase and the runtime of the status are filled in.
  unfoldable pub accept_workspace : PersistentWorkspace → PersistentWorkspace
  accept_workspace w =
      with_condition parts world.now
        (record w {
          status = record (w.status) {
            phase = phase_at_start w.status.phase;
            runtime = w.spec.runtime;
          };
        })
        accepted_condition true_status "Accepted" "PersistentWorkspace spec accepted"

  observe_usage :
      PersistentWorkspacePhase → PersistentWorkspace → Result WorkspaceError PersistentWorkspace
  observe_usage bound_workspace w = reconcile_workspace_usage parts world.now world.runs w
  observe_usage _ w = ok w

  pub check_bound : PersistentWorkspace → Result WorkspaceError PersistentWorkspace
  unfolding observe_usage
  check_bound w = do
    checked ← reconcile_bound_workspace parts world.now world.bound_pod w
    observe_usage checked.status.phase checked

  keep_bound : PersistentWorkspace → Result WorkspaceError PersistentWorkspace → WorkspaceOutcome
  keep_bound original (err e) = answers (gave_up e)
  keep_bound original (ok w) =
      and_then (update_persistent_workspace_status original w)
        (reconcile_persistent_workspace_cleanup parts world w)

  bind_new : PersistentWorkspace → Result WorkspaceError PersistentWorkspace → WorkspaceOutcome
  bind_new original (err e) = answers (gave_up e)
  bind_new original (ok w) = update_persistent_workspace_status original w

  by_binding : PersistentWorkspace → PersistentWorkspace → WorkspaceOutcome
  unfolding keep_bound bind_new check_bound
  by_binding original w =
      if not (w.status.bound_pod == "")
      then keep_bound original (check_bound w)
      else bind_new original (bind_pending_workspace parts world.now world.pods w)

  by_phase : PersistentWorkspacePhase → PersistentWorkspace → PersistentWorkspace → WorkspaceOutcome
  unfolding by_binding
  by_phase lost_workspace original w = update_persistent_workspace_status original w
  by_phase released_workspace original w =
      and_then (update_persistent_workspace_status original w)
        (request_persistent_workspace_deletion world.delete_answer)
  by_phase _ original w = by_binding original w

  by_runtime : Answer String → PersistentWorkspace → PersistentWorkspace → WorkspaceOutcome
  unfolding by_phase
  by_runtime unavailable original w = answers (gave_up get_runtime_failed)
  by_runtime not_found original w = update_persistent_workspace_status original (
      with_condition parts world.now w runtime_condition false_status "RuntimeNotFound"
        (join "Runtime " (join (quote w.spec.runtime) " does not exist")))
  by_runtime (found name) original w =
      let ready =
        with_condition parts world.now w runtime_condition true_status "RuntimeFound"
          (join "Runtime " (join (quote name) " exists")) in
      by_phase ready.status.phase original ready

  live_workspace : PersistentWorkspace → WorkspaceOutcome
  unfolding by_runtime
  live_workspace w = by_runtime world.runtime w (accept_workspace w)

  reconcile_found_workspace : Answer PersistentWorkspace → WorkspaceOutcome
  unfolding live_workspace
  reconcile_found_workspace not_found = answers settled
  reconcile_found_workspace unavailable = answers (gave_up get_workspace_failed)
  reconcile_found_workspace (found w) =
      if is_some w.deletion_timestamp
      then reconcile_deleting_workspace parts world w
      else live_workspace w

  -- PersistentWorkspaceReconciler.Reconcile
  unfoldable pub reconcile_workspace : WorkspaceOutcome
  unfolding reconcile_found_workspace
  reconcile_workspace = reconcile_found_workspace world.workspace
