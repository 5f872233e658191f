-- ===== src/Scheduler/Filters/Workspace.antt =====
-- A Run with a workspace runs only on the Pod that the workspace is bound to.
use kruntimes.Base.{
  String, string_eq, ◌==◌, ◌≡◌, ◌↔◌, refl, eq_iff, false, Option, none, some, arith,
}
use kruntimes.Api.Pod.{Pod}
use kruntimes.Api.Run.{RunWorkspaceReference}
use kruntimes.Api.Workspace.{PersistentWorkspace, bound_workspace}
use kruntimes.Scheduler.Types.{SchedulingSnapshot, feasible}
use kruntimes.Scheduler.Filters.{new_workspace_filter, workspace_filter, workspace_for}

-- The workspace belongs to the Run's runtime and is bound to that very Pod, by name and UID.
pub record IsBoundTo (w : PersistentWorkspace) (runtime : String) (pod : Pod) : Type 0 where
  pub same_runtime : w.spec.runtime ≡ runtime
  pub is_bound : w.status.phase ≡ bound_workspace
  pub same_name : pod.name ≡ w.status.bound_pod
  pub same_uid : pod.uid ≡ w.status.bound_pod_uid

accepts-IsBoundTo :
    (runtime : String) (reference : RunWorkspaceReference) (w : PersistentWorkspace) (pod : Pod)
    → workspace_filter (workspace_for runtime (some reference) (some w)) pod ≡ feasible
    → IsBoundTo w runtime pod
unfolding workspace_filter workspace_for
accepts-IsBoundTo runtime reference w pod h = ground (
  arith,
  eq_iff w.spec.runtime runtime,
  eq_iff pod.name w.status.bound_pod,
  eq_iff pod.uid w.status.bound_pod_uid,
)

IsBoundTo-accepts :
    (runtime : String) (reference : RunWorkspaceReference) (w : PersistentWorkspace) (pod : Pod)
    → (pod.name == "") ≡ false
    → (pod.uid == "") ≡ false
    → IsBoundTo w runtime pod
    → workspace_filter (workspace_for runtime (some reference) (some w)) pod ≡ feasible
unfolding workspace_filter workspace_for
IsBoundTo-accepts runtime reference w pod named identified h = ground (
  arith,
  eq_iff w.spec.runtime runtime,
  eq_iff pod.name w.status.bound_pod,
  eq_iff pod.uid w.status.bound_pod_uid,
)

exists-IsBoundTo :
    (runtime : String) (reference : RunWorkspaceReference) (found : Option PersistentWorkspace)
    (pod : Pod)
    → workspace_filter (workspace_for runtime (some reference) found) pod ≡ feasible
    → (w : PersistentWorkspace) × (found ≡ some w) × IsBoundTo w runtime pod
unfolding workspace_filter workspace_for
exists-IsBoundTo runtime reference none pod h = absurd (ground arith)
exists-IsBoundTo runtime reference (some w) pod h =
    (w, refl, accepts-IsBoundTo runtime reference w pod h)

-- For any snapshot whose Run names a workspace, and any Pod that has a name and a UID: the
-- workspace filter accepts the Pod exactly if the workspace exists, belongs to the Run's runtime,
-- is in phase Bound and is bound to the Pod by name and UID.
pub workspace_filter_iff :
    {Q : Type 0} (s : SchedulingSnapshot Q) (pod : Pod) (reference : RunWorkspaceReference)
    → s.run.spec.workspace ≡ some reference
    → (pod.name == "") ≡ false
    → (pod.uid == "") ≡ false
    → (workspace_filter (new_workspace_filter s) pod ≡ feasible)
      ↔ ((w : PersistentWorkspace) × (s.workspace ≡ some w) × IsBoundTo w s.run.spec.runtime pod)
unfolding new_workspace_filter
workspace_filter_iff s pod reference e named identified = (
  λ h. exists-IsBoundTo s.run.spec.runtime reference s.workspace pod (rw e at h),
  λ (w, found, bound).
      rw (e, found) (IsBoundTo-accepts s.run.spec.runtime reference w pod named identified bound),
)
