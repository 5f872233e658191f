-- ===== src/Api/Workspace.antt =====
-- api/v1alpha1/persistentworkspace_types.go
use kruntimes.Base.{ℕ, String, List, Option}
use kruntimes.Base.Int.{ℤ}
use kruntimes.Api.Conditions.{Condition}

-- The empty phase is `unset_workspace`.
pub data PersistentWorkspacePhase : Type 0 where
  unset_workspace pending_workspace bound_workspace lost_workspace released_workspace :
      PersistentWorkspacePhase

pub data CleanupPolicy : Type 0 where
  delete_after_ttl retain : CleanupPolicy

pub record PersistentWorkspaceSpec : Type 0 where
  pub runtime : String
  pub ttl_seconds_after_unused : Option ℤ
  pub cleanup_policy : CleanupPolicy

pub record PersistentWorkspaceStatus : Type 0 where
  pub phase : PersistentWorkspacePhase
  pub runtime : String
  pub bound_pod : String
  pub bound_pod_uid : String
  pub path : String
  pub last_used_time : Option ℕ
  pub conditions : List Condition

pub record PersistentWorkspace : Type 0 where
  pub name : String
  pub namespace : String
  pub uid : String
  pub generation : ℕ
  pub finalizers : List String
  pub deletion_timestamp : Option ℕ
  pub spec : PersistentWorkspaceSpec
  pub status : PersistentWorkspaceStatus

abbrev pub workspace_cleanup_finalizer : String
workspace_cleanup_finalizer = "kruntimes.io/persistent-workspace-cleanup"
