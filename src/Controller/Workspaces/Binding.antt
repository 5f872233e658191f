-- ===== src/Controller/Workspaces/Binding.antt =====
-- persistentworkspace_controller.go: the first binding of a workspace to a ready Runtime Pod, and the
-- check of a bound one.
pub mod Choice
use kruntimes.Base.{
  ℕ, ◌%◌, ◌^◌, String, string_eq, ◌==◌, Bool, true, false, ◌||◌, not, List, [], ◌∷◌, Option, none,
  some, is_some, if◌then◌else◌, length, get_elem?, select,
}
use kruntimes.Base.Text.{join, quote, str_lt}
use kruntimes.Base.Results.{Result, ok, err}
use kruntimes.Base.Sort.{sort_by}
use kruntimes.Api.Conditions.{ConditionStatus, true_status, false_status}
use kruntimes.Api.Pod.{Pod, PodCondition, pod_ready, is_running}
use kruntimes.Api.Workspace.{
  PersistentWorkspace, pending_workspace, bound_workspace, lost_workspace,
}
use kruntimes.RuntimePod.{is_runtimed_ready}
use kruntimes.Scheduler.Environment.{Answer, found, not_found, unavailable}
use kruntimes.Controller.Workspaces.{
  WorkspaceParts, WorkspaceError, list_pods_failed, get_pod_failed, index_out_of_range,
  bound_condition, with_condition, with_phase,
}

abbrev is_true : ConditionStatus → Bool
is_true true_status = true
is_true _ = false

ready_in : List PodCondition → Bool
ready_in [] = false
ready_in (c ∷ cs) = let rest = ready_in cs in if c.type == pod_ready then is_true c.status else rest

-- podReady
unfoldable pub is_pod_ready : Pod → Bool
unfolding ready_in
is_pod_ready pod = ready_in pod.conditions

-- The guard of the loop in readyRuntimePods.
unfoldable pub is_binding_candidate : Pod → Bool
is_binding_candidate pod = not (
    is_some pod.deletion_timestamp
    || not (is_running pod.phase)
    || not (is_pod_ready pod)
    || not (is_runtimed_ready pod))

unfoldable pub ready_runtime_pods : List Pod → List Pod
ready_runtime_pods items =
    sort_by (λ (p q : Pod). str_lt p.name q.name) (select is_binding_candidate items)

unfoldable pub persistent_workspace_path : String → String
persistent_workspace_path name = join "/workspace/persistent" (join "/" name)

abbrev pub binding_key : PersistentWorkspace → String
binding_key w = if w.uid == "" then join w.namespace (join "/" w.name) else w.uid

module _ (parts : WorkspaceParts) where
  -- `none` is the index out of range. A uint32 holds the number of Pods.
  unfoldable pub select_persistent_workspace_pod : PersistentWorkspace → List Pod → Option Pod
  select_persistent_workspace_pod w pods =
      get_elem? pods (parts.fnv32a (binding_key w) % (length pods % 2 ^ 32))

  module _ (now : ℕ) where
    bound_form : PersistentWorkspace → Pod → PersistentWorkspace
    bound_form w pod =
        with_condition parts now
          (record w {
            status = record (w.status) {
              phase = bound_workspace;
              bound_pod = pod.name;
              bound_pod_uid = pod.uid;
              path = persistent_workspace_path w.name;
            };
          })
          bound_condition true_status "Bound" (join "Bound to Runtime Pod " (quote pod.name))

    bind_to : PersistentWorkspace → Option Pod → Result WorkspaceError PersistentWorkspace
    unfolding bound_form
    bind_to w none = err index_out_of_range
    bind_to w (some pod) = ok (bound_form w pod)

    bind_among : PersistentWorkspace → List Pod → Result WorkspaceError PersistentWorkspace
    unfolding bind_to
    bind_among w [] = ok (
        with_condition parts now (with_phase w pending_workspace) bound_condition false_status
          "NoReadyRuntimePods"
          (join "Runtime " (join (quote w.spec.runtime) " has no ready Runtime Pods")))
    bind_among w (pod ∷ pods) = bind_to w (select_persistent_workspace_pod w (pod ∷ pods))

    -- bindPendingWorkspace; a list that failed is an error whatever its kind.
    unfoldable pub bind_pending_workspace :
        Answer (List Pod) → PersistentWorkspace → Result WorkspaceError PersistentWorkspace
    unfolding bind_among
    bind_pending_workspace (found items) w = bind_among w (ready_runtime_pods items)
    bind_pending_workspace _ w = err list_pods_failed

    unfoldable pub mark_workspace_lost : PersistentWorkspace → String → String → PersistentWorkspace
    mark_workspace_lost w reason message =
        with_condition parts now (with_phase w lost_workspace) bound_condition false_status reason
          message

    -- reconcileBoundWorkspace
    unfoldable pub reconcile_bound_workspace :
        Answer Pod → PersistentWorkspace → Result WorkspaceError PersistentWorkspace
    reconcile_bound_workspace not_found w = ok (
        mark_workspace_lost w "BoundPodDeleted"
          (join "Bound Runtime Pod " (join (quote w.status.bound_pod) " was deleted")))
    reconcile_bound_workspace unavailable w = err get_pod_failed
    reconcile_bound_workspace (found pod) w =
        if w.status.bound_pod_uid == "" || not (pod.uid == w.status.bound_pod_uid)
        then ok (
            mark_workspace_lost w "BoundPodReplaced" (
              join "Bound Runtime Pod "
                (join (quote w.status.bound_pod) " no longer has the recorded UID")))
        else if is_some pod.deletion_timestamp
        then ok (
            mark_workspace_lost w "BoundPodDeleting"
              (join "Bound Runtime Pod " (join (quote w.status.bound_pod) " is being deleted")))
        else ok (
            with_condition parts now (with_phase w bound_workspace) bound_condition true_status
              "Bound" (join "Bound to Runtime Pod " (quote pod.name)))
