-- ===== src/Controller/Workspaces.antt =====
-- internal/controller/persistentworkspace_controller.go and persistentworkspace_lifecycle.go: the
-- life of a PersistentWorkspace. What surrounds one Reconcile: the reconciler's parts, the answers of
-- the API in `WorkspaceWorld`, and the writes in their order. Logs are left out.
pub mod Binding
pub mod Usage
pub mod Cleanup
pub mod Lifecycle
pub mod Wakeups
pub mod Writes
use kruntimes.Base.{ℕ, ◌+◌, String, Bool, List, [], ◌∷◌, ◌++◌, Option, none, some}
use kruntimes.Base.Int.{ℤ}
use kruntimes.Api.Conditions.{ConditionStatus, Condition, MetaOps}
use kruntimes.Api.Pod.{Pod}
use kruntimes.Api.Run.{Run}
use kruntimes.Api.Workspace.{
  PersistentWorkspace, PersistentWorkspacePhase, PersistentWorkspaceStatus,
}
use kruntimes.Scheduler.Environment.{Answer, UpdateAnswer, updated, conflict, update_failed}
use kruntimes.Controller.CompletedRuns.{DeleteAnswer}

abbrev pub accepted_condition : String
accepted_condition = "Accepted"

abbrev pub runtime_condition : String
runtime_condition = "RuntimeReady"

abbrev pub bound_condition : String
bound_condition = "Bound"

abbrev pub in_use_condition : String
in_use_condition = "InUse"

-- What the reconciler calls outside the repository: the condition helpers, the finalizer helpers of
-- controllerutil (the new list, and whether it changed), fnv32a and Semantic.DeepEqual.
pub record WorkspaceParts : Type 0 where
  pub meta : MetaOps
  pub add_finalizer : String → List String → List String × Bool
  pub remove_finalizer : String → List String → List String × Bool
  pub contains_finalizer : String → List String → Bool
  pub fnv32a : String → ℕ
  pub same_status : PersistentWorkspaceStatus → PersistentWorkspaceStatus → Bool

-- `runtime` answers with the name of the Runtime. The clock is read for the status first, and again
-- by the cleanup.
pub record WorkspaceWorld (Q : Type 0) : Type 0 where
  pub workspace : Answer PersistentWorkspace
  pub runtime : Answer String
  pub bound_pod : Answer Pod
  pub pods : Answer (List Pod)
  pub runs : Answer (List (Run Q))
  pub status_update : UpdateAnswer
  pub object_update : UpdateAnswer
  pub release_update : UpdateAnswer
  pub delete_answer : DeleteAnswer
  pub now : ℕ
  pub later : ℕ

pub data WorkspaceError : Type 0 where
  get_workspace_failed get_runtime_failed get_pod_failed list_pods_failed list_runs_failed :
      WorkspaceError
  status_update_failed finalizer_update_failed release_failed delete_failed_again : WorkspaceError
  -- the panic of an index out of range
  index_out_of_range : WorkspaceError

pub data WorkspaceWrite : Type 0 where
  wrote_status : PersistentWorkspace → WorkspaceWrite
  wrote_object : PersistentWorkspace → WorkspaceWrite
  requested_deletion : WorkspaceWrite

pub data WorkspaceReply : Type 0 where
  settled : WorkspaceReply
  look_again_after : ℤ → WorkspaceReply
  gave_up : WorkspaceError → WorkspaceReply

pub record WorkspaceOutcome : Type 0 where
  pub writes : List WorkspaceWrite
  pub reply : WorkspaceReply

abbrev pub answers : WorkspaceReply → WorkspaceOutcome
answers reply = record { writes = []; reply = reply }

-- One write, and the error that its failure is reported as.
abbrev pub one_write : WorkspaceWrite → UpdateAnswer → WorkspaceError → WorkspaceOutcome
one_write w updated e = record { writes = w ∷ []; reply = settled }
one_write w conflict e = record { writes = w ∷ []; reply = gave_up e }
one_write w update_failed e = record { writes = w ∷ []; reply = gave_up e }

abbrev pub proceed : List WorkspaceWrite → WorkspaceReply → WorkspaceOutcome → WorkspaceOutcome
proceed ws (gave_up e) next = record { writes = ws; reply = gave_up e }
proceed ws _ next = record { writes = ws ++ next.writes; reply = next.reply }

-- `if _, err := first; err != nil { return err }`, and the next call.
abbrev pub and_then : WorkspaceOutcome → WorkspaceOutcome → WorkspaceOutcome
and_then first next = proceed first.writes first.reply next

module _ (parts : WorkspaceParts) (now : ℕ) where
  -- SetStatusCondition of a condition with the observed generation.
  unfoldable pub with_condition :
      PersistentWorkspace → String → ConditionStatus → String → String → PersistentWorkspace
  with_condition w type status reason message = record w {
    status = record (w.status) {
      conditions = parts.meta.set_status_condition now w.status.conditions (record {
        type = type;
        status = status;
        reason = reason;
        message = message;
        last_transition_time = 0;
        observed_generation = w.generation;
      });
    };
  }

unfoldable pub with_phase : PersistentWorkspace → PersistentWorkspacePhase → PersistentWorkspace
with_phase w phase = record w { status = record (w.status) { phase = phase } }
