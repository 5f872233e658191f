-- ===== src/Controller/Workspaces/Lifecycle/Deadlines.antt =====
-- The steps of a Reconcile on a workspace that is not released.
use kruntimes.Base.{
  ℕ, ◌≡◌, ◌≢◌, ◌⊎◌, inl, inr, refl, String, string_eq, ◌==◌, Bool, true, false, List, is_some, some,
  arith, Bool-cases, not, ◌||◌,
}
use kruntimes.Base.Int.{ℤ, pos, ◌≤ℤ◌}
use kruntimes.Base.Results.{OnOk, >>=-OnOk}
use kruntimes.Api.Conditions.{ConditionStatus}
use kruntimes.Api.Pod.{Pod}
use kruntimes.Api.Run.{Run}
use kruntimes.Api.Workspace.{
  PersistentWorkspace, PersistentWorkspacePhase, unset_workspace, pending_workspace,
  bound_workspace, lost_workspace, released_workspace,
}
use kruntimes.Scheduler.Environment.{Answer, found, not_found, unavailable}
use kruntimes.Controller.Workspaces.{
  WorkspaceParts, WorkspaceWorld, WorkspaceWrite, wrote_status, wrote_object, requested_deletion,
  with_condition, with_phase,
}
use kruntimes.Controller.Workspaces.Binding.{reconcile_bound_workspace, mark_workspace_lost}
use kruntimes.Controller.Workspaces.Usage.{
  reconcile_workspace_usage, set_workspace_usage, workspace_has_active_runs,
}
use kruntimes.Controller.Workspaces.Cleanup.{is_retained, release_deadline}
use kruntimes.Controller.Workspaces.Lifecycle.{check_bound, observe_usage}

abbrev pub is_released : PersistentWorkspacePhase → Bool
is_released released_workspace = true
is_released _ = false

-- The cleanup policy deletes, and the time to live after the last use is over at time `later`. The last
-- use is the recorded one, or the time `now` at which the Reconcile found the workspace unused.
pub record WasDue (now later : ℕ) (w new : PersistentWorkspace) : Type 0 where
  pub ttl : ℤ
  pub last_used : ℕ
  pub has_ttl : w.spec.ttl_seconds_after_unused ≡ some ttl
  pub was_used : new.status.last_used_time ≡ some last_used
  pub use_known :
      (new.status.last_used_time ≡ w.status.last_used_time) ⊎ (new.status.last_used_time ≡ some now)
  pub not_retained : is_retained w.spec.cleanup_policy ≡ false
  pub over : release_deadline ttl last_used ≤ℤ pos later

-- What each write respects.
abbrev pub IsTimely : ℕ → ℕ → PersistentWorkspace → WorkspaceWrite → Type 0
IsTimely now later w (wrote_status new) =
    (new.status.phase ≢ released_workspace)
    ⊎ (w.status.phase ≡ released_workspace)
    ⊎ WasDue now later w new
IsTimely now later w (wrote_object new) = Unit
IsTimely now later w requested_deletion = w.status.phase ≡ released_workspace

module _ {Q : Type 0} (parts : WorkspaceParts) (world : WorkspaceWorld Q) where
  -- A workspace on its way through the Reconcile, not released so far.
  pub record IsOpen (w v : PersistentWorkspace) : Type 0 where
    pub same_spec : v.spec ≡ w.spec
    pub known :
        (v.status.last_used_time ≡ w.status.last_used_time)
        ⊎ (v.status.last_used_time ≡ some world.now)
    pub is_open : is_released v.status.phase ≡ false

  pub with_condition-IsOpen :
      (now : ℕ) (w v : PersistentWorkspace) (type : String) (status : ConditionStatus)
      (reason message : String)
      → IsOpen w v
      → IsOpen w (with_condition parts now v type status reason message)
  unfolding with_condition
  with_condition-IsOpen now w v type status reason message h = record {
    same_spec = h.same_spec;
    known = h.known;
    is_open = h.is_open;
  }

  with_phase-IsOpen :
      (w v : PersistentWorkspace) (phase : PersistentWorkspacePhase)
      → is_released phase ≡ false
      → IsOpen w v
      → IsOpen w (with_phase v phase)
  unfolding with_phase
  with_phase-IsOpen w v phase e h = record { same_spec = h.same_spec; known = h.known; is_open = e }

  mark_workspace_lost-IsOpen :
      (w v : PersistentWorkspace) (reason message : String)
      → IsOpen w v
      → IsOpen w (mark_workspace_lost parts world.now v reason message)
  unfolding mark_workspace_lost
  mark_workspace_lost-IsOpen w v reason message h =
      with_condition-IsOpen world.now w (with_phase v lost_workspace) _ _ reason message
        (with_phase-IsOpen w v lost_workspace refl h)

  reconcile_bound_workspace-IsOpen :
      (w v : PersistentWorkspace) (answer : Answer Pod)
      → IsOpen w v
      → OnOk (IsOpen w) (reconcile_bound_workspace parts world.now answer v)
  unfolding reconcile_bound_workspace
  reconcile_bound_workspace-IsOpen w v not_found h = mark_workspace_lost-IsOpen w v _ _ h
  reconcile_bound_workspace-IsOpen w v unavailable h = tt
  reconcile_bound_workspace-IsOpen w v (found pod) h =
      elim (Bool-cases (v.status.bound_pod_uid == "" || not (pod.uid == v.status.bound_pod_uid))) [
        | inl replaced ↦ rw replaced (mark_workspace_lost-IsOpen w v _ _ h)
        | inr same ↦ rw same (elim (Bool-cases (is_some pod.deletion_timestamp)) [
          | inl leaving ↦ rw leaving (mark_workspace_lost-IsOpen w v _ _ h)
          | inr staying ↦ rw staying (
              with_condition-IsOpen world.now w (with_phase v bound_workspace) _ _ _ _
                (with_phase-IsOpen w v bound_workspace refl h))
        ])
      ]

  set_workspace_usage-IsOpen :
      (active : Bool) (w v : PersistentWorkspace)
      → IsOpen w v
      → IsOpen w (set_workspace_usage parts world.now active v)
  unfolding set_workspace_usage with_condition
  set_workspace_usage-IsOpen active w v h = record {
    same_spec = ground (arith, h.same_spec);
    known = ground (arith, h.known);
    is_open = ground (arith, h.is_open);
  }

  reconcile_workspace_usage-IsOpen :
      (w v : PersistentWorkspace) (runs : Answer (List (Run Q)))
      → IsOpen w v
      → OnOk (IsOpen w) (reconcile_workspace_usage parts world.now runs v)
  unfolding reconcile_workspace_usage workspace_has_active_runs
  reconcile_workspace_usage-IsOpen w v (found runs) h = set_workspace_usage-IsOpen _ w v h
  reconcile_workspace_usage-IsOpen w v not_found h = tt
  reconcile_workspace_usage-IsOpen w v unavailable h = tt

  observe_usage-IsOpen :
      (w v : PersistentWorkspace) (phase : PersistentWorkspacePhase)
      → IsOpen w v
      → OnOk (IsOpen w) (observe_usage parts world phase v)
  unfolding observe_usage
  observe_usage-IsOpen w v bound_workspace h = reconcile_workspace_usage-IsOpen w v world.runs h
  observe_usage-IsOpen w v unset_workspace h = h
  observe_usage-IsOpen w v pending_workspace h = h
  observe_usage-IsOpen w v lost_workspace h = h
  observe_usage-IsOpen w v released_workspace h = h

  pub check_bound-IsOpen :
      (w v : PersistentWorkspace) → IsOpen w v → OnOk (IsOpen w) (check_bound parts world v)
  unfolding check_bound
  check_bound-IsOpen w v h =
      >>=-OnOk (IsOpen w) (reconcile_bound_workspace parts world.now world.bound_pod v) _
        (reconcile_bound_workspace-IsOpen w v world.bound_pod h)
        (λ new opened. observe_usage-IsOpen w new new.status.phase opened)
