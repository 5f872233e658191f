-- ===== src/Controller/Workspaces/Lifecycle/InUse.antt =====
-- A workspace in use whose time to live is over, on its way through the checks of a Reconcile.
use kruntimes.Base.{
  ℕ, ◌≡◌, inl, refl, string_eq, ◌==◌, true, false, List, any, is_some, Option, some, arith, not,
  eq_iff,
}
use kruntimes.Base.Int.{ℤ, pos, ltb_ℤ}
use kruntimes.Base.Results.{ok}
use kruntimes.Base.Sort.{Member}
use kruntimes.Api.Pod.{Pod}
use kruntimes.Api.Run.{Run}
use kruntimes.Api.Workspace.{PersistentWorkspace, bound_workspace, workspace_cleanup_finalizer}
use kruntimes.Scheduler.Environment.{Answer, found, updated, conflict, update_failed}
use kruntimes.Api.Conditions.{true_status}
use kruntimes.Base.Text.{join, quote}
use kruntimes.Api.Workspace.{PersistentWorkspacePhase}
use kruntimes.Controller.Workspaces.{release_failed}
use kruntimes.Controller.Workspaces.{
  WorkspaceParts, WorkspaceWorld, wrote_status, with_condition, with_phase, one_write,
}
use kruntimes.Controller.Workspaces.Binding.{reconcile_bound_workspace}
use kruntimes.Controller.Workspaces.Usage.{
  reconcile_workspace_usage, set_workspace_usage, workspace_has_active_runs, run_terminal,
}
use kruntimes.Controller.Workspaces.Cleanup.{
  is_retained, release_deadline, remaining, release_when_due, released_form,
  reconcile_persistent_workspace_cleanup,
}
use kruntimes.Controller.Workspaces.Lifecycle.{check_bound, observe_usage}

module _ {Q : Type 0} (parts : WorkspaceParts) (world : WorkspaceWorld Q) where
  -- The answers that a workspace in use gives: its Pod is there, and a Run on it is active.
  pub record IsInUse (w : PersistentWorkspace) : Type 0 where
    pub pod : Pod
    pub runs : List (Run Q)
    pub pod_found : world.bound_pod ≡ found pod
    pub same_uid : pod.uid ≡ w.status.bound_pod_uid
    pub identified : (w.status.bound_pod_uid == "") ≡ false
    pub pod_stays : is_some pod.deletion_timestamp ≡ false
    pub runs_found : world.runs ≡ found runs
    pub active : any (λ run. not (run_terminal run)) runs ≡ true

  -- The time to live since the recorded last use is over.
  pub record IsDue (w : PersistentWorkspace) : Type 0 where
    pub ttl : ℤ
    pub last_used : ℕ
    pub has_ttl : w.spec.ttl_seconds_after_unused ≡ some ttl
    pub was_used : w.status.last_used_time ≡ some last_used
    pub not_retained : is_retained w.spec.cleanup_policy ≡ false
    pub over : ltb_ℤ (pos 0) (remaining (release_deadline ttl last_used) world.later) ≡ false

  -- The parts of the workspace that the checks of a bound workspace in use leave alone.
  pub record IsSame (w v : PersistentWorkspace) : Type 0 where
    pub same_spec : v.spec ≡ w.spec
    pub same_finalizers : v.finalizers ≡ w.finalizers
    pub same_pod : v.status.bound_pod ≡ w.status.bound_pod
    pub same_uid : v.status.bound_pod_uid ≡ w.status.bound_pod_uid
    pub same_use : v.status.last_used_time ≡ w.status.last_used_time
    pub is_bound : v.status.phase ≡ bound_workspace

  reconcile_bound_workspace-IsSame :
      (w v : PersistentWorkspace) (answer : Answer Pod) (pod : Pod)
      → answer ≡ found pod
      → pod.uid ≡ w.status.bound_pod_uid
      → (w.status.bound_pod_uid == "") ≡ false
      → is_some pod.deletion_timestamp ≡ false
      → IsSame w v
      → (new : PersistentWorkspace) × (reconcile_bound_workspace parts world.now answer v ≡ ok new)
        × IsSame w new
  unfolding reconcile_bound_workspace with_condition with_phase
  reconcile_bound_workspace-IsSame w v answer pod e uid identified stays h =
      let same : (pod.uid == v.status.bound_pod_uid) ≡ true =
        ground (arith, h.same_uid, eq_iff pod.uid v.status.bound_pod_uid) in
      let known : (v.status.bound_pod_uid == "") ≡ false = rw h.same_uid identified in
      let new =
        with_condition parts world.now (with_phase v bound_workspace) "Bound" true_status "Bound"
          (join "Bound to Runtime Pod " (quote pod.name)) in
      (
        new,
        rw (e, known, same, stays) refl,
        record {
          same_spec = h.same_spec;
          same_finalizers = h.same_finalizers;
          same_pod = h.same_pod;
          same_uid = h.same_uid;
          same_use = h.same_use;
          is_bound = refl;
        },
      )

  set_workspace_usage-IsSame :
      (w v : PersistentWorkspace)
      → IsSame w v
      → IsSame w (set_workspace_usage parts world.now true v)
  unfolding set_workspace_usage with_condition
  set_workspace_usage-IsSame w v h = record {
    same_spec = ground (arith, h.same_spec);
    same_finalizers = ground (arith, h.same_finalizers);
    same_pod = ground (arith, h.same_pod);
    same_uid = ground (arith, h.same_uid);
    same_use = ground (arith, h.same_use);
    is_bound = ground (arith, h.is_bound);
  }

  observe_usage-active :
      (v : PersistentWorkspace) (phase : PersistentWorkspacePhase) (runs : List (Run Q))
      → phase ≡ bound_workspace
      → world.runs ≡ found runs
      → any (λ run. not (run_terminal run)) runs ≡ true
      → observe_usage parts world phase v ≡ ok (set_workspace_usage parts world.now true v)
  unfolding observe_usage reconcile_workspace_usage workspace_has_active_runs
  observe_usage-active v phase runs bound listed active = rw (bound, listed, active) refl

  pub check_bound-IsSame :
      (w v : PersistentWorkspace)
      → IsInUse w
      → IsSame w v
      → (new : PersistentWorkspace) × (check_bound parts world v ≡ ok new) × IsSame w new
  unfolding check_bound
  check_bound-IsSame w v u h =
      let (checked, result, same) =
        reconcile_bound_workspace-IsSame w v world.bound_pod u.pod u.pod_found u.same_uid
          u.identified u.pod_stays h in
      (
        set_workspace_usage parts world.now true checked,
        rw
            (
              result,
              observe_usage-active checked checked.status.phase u.runs same.is_bound u.runs_found
                  u.active,
            )
            refl,
        set_workspace_usage-IsSame w checked same,
      )

  release_when_due-releases :
      (w : PersistentWorkspace) (has_ttl : Option ℤ) (was_used : Option ℕ) (ttl : ℤ) (last_used : ℕ)
      → has_ttl ≡ some ttl
      → was_used ≡ some last_used
      → ltb_ℤ (pos 0) (remaining (release_deadline ttl last_used) world.later) ≡ false
      → Member
          (wrote_status (released_form parts world w))
          (release_when_due parts world w has_ttl was_used).writes
  unfolding release_when_due
  release_when_due-releases w has_ttl was_used ttl last_used e f over =
      rw (e, f, over)
        (elim world.release_update
          as (λ a.
            Member (wrote_status (released_form parts world w))
              (one_write (wrote_status (released_form parts world w)) a release_failed).writes) [
                | updated ↦ inl refl
                | conflict ↦ inl refl
                | update_failed ↦ inl refl
              ])

  pub cleanup-releases :
      (w v : PersistentWorkspace)
      → IsDue w
      → (parts.add_finalizer workspace_cleanup_finalizer w.finalizers).1 ≡ false
      → IsSame w v
      → Member
          (wrote_status (released_form parts world v))
          (reconcile_persistent_workspace_cleanup parts world v).writes
  unfolding reconcile_persistent_workspace_cleanup
  cleanup-releases w v due holds h =
      let held : (parts.add_finalizer workspace_cleanup_finalizer v.finalizers).1 ≡ false =
        rw h.same_finalizers holds in
      let expires : is_retained v.spec.cleanup_policy ≡ false = rw h.same_spec due.not_retained in
      rw (held, expires)
        (release_when_due-releases v v.spec.ttl_seconds_after_unused v.status.last_used_time due.ttl
          due.last_used (rw h.same_spec due.has_ttl) (rw h.same_use due.was_used) due.over)
