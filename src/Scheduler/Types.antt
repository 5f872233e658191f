-- ===== src/Scheduler/Types.antt =====
-- The values that the phases of a scheduling cycle hand on (internal/scheduler/framework.go).
use kruntimes.Base.{ℕ, String, string_eq, Bool, true, false, List, Option}
use kruntimes.Base.Maps.{Map}
use kruntimes.Api.Quantity.{ResourceList}
use kruntimes.Api.Pod.{Pod}
use kruntimes.Api.Run.{Run, RunPhase, scheduled, running, ready}
use kruntimes.Api.Workspace.{PersistentWorkspace}

abbrev pub UsageByPod : Type 0 → Type 0
UsageByPod Q = Map String (ResourceList Q)

pub record AffinityTarget : Type 0 where
  pub pod_name : String
  pub labels : Map String String

pub record SchedulingSnapshot (Q : Type 0) : Type 0 where
  pub run : Run Q
  pub request : ResourceList Q
  pub pods : List Pod
  pub actual_usage_by_pod : UsageByPod Q
  pub usage_by_pod : UsageByPod Q
  pub runs : List (Run Q)
  pub affinity_targets : List AffinityTarget
  pub workspace : Option PersistentWorkspace
  pub now : ℕ

pub data FilterReason : Type 0 where
  runtime_pod_unavailable workspace_not_found workspace_runtime_mismatch workspace_unbound :
      FilterReason
  workspace_lost workspace_released workspace_bound_pod_mismatch : FilterReason
  unsatisfied_run_affinity unsatisfied_run_anti_affinity : FilterReason

-- `filterResult`: the reason is empty where the Pod is feasible.
pub data FilterResult : Type 0 where
  feasible : FilterResult
  rejected : FilterReason → FilterResult

-- Phases in which an assigned Run holds its resources.
unfoldable pub consumes_runtime_capacity : RunPhase → Bool
consumes_runtime_capacity scheduled = true
consumes_runtime_capacity running = true
consumes_runtime_capacity ready = true
consumes_runtime_capacity _ = false
