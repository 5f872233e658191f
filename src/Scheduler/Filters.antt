-- ===== src/Scheduler/Filters.antt =====
-- internal/scheduler/filter_workspace.go, filter_runtime_pod.go and the availability tests of
-- reconciler.go: the hard constraints on a candidate Pod.
pub mod Workspace
use kruntimes.Base.{
  ℕ, String, string_eq, ◌==◌, Bool, true, false, ◌&&◌, ◌||◌, not, List, [], ◌∷◌, Option, none, some,
  is_some, if◌then◌else◌,
}
use kruntimes.Base.Int.{ℤ, pos, leb_ℤ}
use kruntimes.Api.Quantity.{QuantityOps, ResourceList}
use kruntimes.Api.Conditions.{ConditionStatus, true_status}
use kruntimes.Api.Pod.{Pod, PodCondition, pod_ready, is_running}
use kruntimes.Api.Run.{Run, RunWorkspaceReference}
use kruntimes.Api.Workspace.{
  PersistentWorkspace, PersistentWorkspacePhase, unset_workspace, pending_workspace,
  bound_workspace, lost_workspace, released_workspace,
}
use kruntimes.RuntimePod.{fresh_runtimed_ready, fits, capacity_of, resource_runs}
use kruntimes.Scheduler.Types.{
  SchedulingSnapshot, FilterReason, FilterResult, feasible, rejected, workspace_not_found,
  workspace_runtime_mismatch, workspace_unbound, workspace_lost, workspace_released,
  workspace_bound_pod_mismatch, runtime_pod_unavailable,
}
use kruntimes.Scheduler.Cache.{resources_at}

-- `workspaceFilter`: a reason that rejects each Pod, no workspace, or the bound one.
pub data WorkspaceFilter : Type 0 where
  no_workspace : WorkspaceFilter
  reject_all : FilterReason → WorkspaceFilter
  bound_to : PersistentWorkspace → WorkspaceFilter

binding : PersistentWorkspacePhase → PersistentWorkspace → WorkspaceFilter
binding lost_workspace w = reject_all workspace_lost
binding released_workspace w = reject_all workspace_released
binding bound_workspace w =
    if w.status.bound_pod == "" || w.status.bound_pod_uid == ""
    then reject_all workspace_unbound
    else bound_to w
binding unset_workspace w = reject_all workspace_unbound
binding pending_workspace w = reject_all workspace_unbound

workspace_for : String → Option RunWorkspaceReference → Option PersistentWorkspace → WorkspaceFilter
unfolding binding
workspace_for runtime none w = no_workspace
workspace_for runtime (some reference) none = reject_all workspace_not_found
workspace_for runtime (some reference) (some w) =
    if w.spec.runtime == runtime
    then binding w.status.phase w
    else reject_all workspace_runtime_mismatch

unfoldable pub new_workspace_filter : {Q : Type 0} → SchedulingSnapshot Q → WorkspaceFilter
unfolding workspace_for
new_workspace_filter s = workspace_for s.run.spec.runtime s.run.spec.workspace s.workspace

unfoldable pub workspace_filter : WorkspaceFilter → Pod → FilterResult
workspace_filter no_workspace pod = feasible
workspace_filter (reject_all reason) pod = rejected reason
workspace_filter (bound_to w) pod =
    if not (pod.name == w.status.bound_pod) || not (pod.uid == w.status.bound_pod_uid)
    then rejected workspace_bound_pod_mismatch
    else feasible

abbrev pub is_true : ConditionStatus → Bool
is_true true_status = true
is_true _ = false

-- The status of the first Ready condition.
unfoldable pub ready_condition : List PodCondition → Bool
ready_condition [] = false
ready_condition (c ∷ cs) =
    let rest = ready_condition cs in if c.type == pod_ready then is_true c.status else rest

unfoldable pub is_pod_schedulable : Pod → Bool
unfolding ready_condition
is_pod_schedulable pod =
    if not (is_running pod.phase) || is_some pod.deletion_timestamp
    then false
    else ready_condition pod.conditions

-- 15 seconds
abbrev pub default_heartbeat_stale_after : ℤ
default_heartbeat_stale_after = pos 15000000000

abbrev pub effective_stale_after : ℤ → ℤ
effective_stale_after stale_after =
    if leb_ℤ stale_after (pos 0) then default_heartbeat_stale_after else stale_after

module _ {Q : Type 0} (k : QuantityOps Q) where
  unfoldable pub default_capacity : ResourceList Q
  default_capacity = (resource_runs, k.new_quantity (pos 2)) ∷ []

  unfoldable pub pod_capacity : Pod → ResourceList Q
  unfolding default_capacity
  pod_capacity pod = capacity_of k (some pod) default_capacity

module _ {Q : Type 0} (k : QuantityOps Q) (stale_after : ℤ) where
  unfoldable pub is_runtime_pod_available : Pod → ℕ → ResourceList Q → ResourceList Q → Bool
  unfolding is_pod_schedulable pod_capacity
  is_runtime_pod_available pod now usage request =
      if not (is_pod_schedulable pod)
      then false
      else if not (fresh_runtimed_ready pod now (effective_stale_after stale_after))
      then false
      else fits k (pod_capacity k pod) usage request

  unfoldable pub availability_filter : SchedulingSnapshot Q → Pod → FilterResult
  unfolding is_runtime_pod_available
  availability_filter s pod =
      if is_runtime_pod_available pod s.now (resources_at pod.name s.usage_by_pod) s.request
      then feasible
      else rejected runtime_pod_unavailable
