-- ===== src/Controller/Workspaces/Lifecycle/Bindings.antt =====
-- What a Reconcile can write to the status of a workspace: a bound workspace is never moved.
use kruntimes.Base.{
  ℕ, ◌||◌, ◌≡◌, inl, inr, refl, String, string_eq, ◌==◌, Bool, true, false, List, arith, Bool-cases,
  not, is_some,
}
use kruntimes.Base.Results.{OnOk, >>=-OnOk}
use kruntimes.Api.Pod.{Pod}
use kruntimes.Api.Conditions.{ConditionStatus}
use kruntimes.Api.Run.{Run}
use kruntimes.Api.Workspace.{
  PersistentWorkspace, PersistentWorkspacePhase, unset_workspace, pending_workspace,
  bound_workspace, lost_workspace, released_workspace,
}
use kruntimes.Scheduler.Environment.{Answer, found, not_found, unavailable}
use kruntimes.Controller.Workspaces.{WorkspaceParts, WorkspaceWorld, with_condition, with_phase}
use kruntimes.Controller.Workspaces.Binding.{reconcile_bound_workspace, mark_workspace_lost}
use kruntimes.Controller.Workspaces.Usage.{
  reconcile_workspace_usage, set_workspace_usage, workspace_has_active_runs,
}
use kruntimes.Controller.Workspaces.Lifecycle.{check_bound, observe_usage}

-- The phases that may follow that of a bound workspace: Lost and Released are final.
abbrev pub may_follow : PersistentWorkspacePhase → PersistentWorkspacePhase → Bool
may_follow lost_workspace lost_workspace = true
may_follow lost_workspace _ = false
may_follow released_workspace released_workspace = true
may_follow released_workspace _ = false
may_follow bound_workspace pending_workspace = false
may_follow bound_workspace unset_workspace = false
may_follow bound_workspace _ = true
may_follow pending_workspace unset_workspace = false
may_follow pending_workspace _ = true
may_follow unset_workspace _ = true

-- The new status names the same Pod, UID and path, in a phase that may follow.
pub record IsKept (w new : PersistentWorkspace) : Type 0 where
  pub same_pod : new.status.bound_pod ≡ w.status.bound_pod
  pub same_uid : new.status.bound_pod_uid ≡ w.status.bound_pod_uid
  pub same_path : new.status.path ≡ w.status.path
  pub follows : may_follow w.status.phase new.status.phase ≡ true

may_follow_trans :
    (p q r : PersistentWorkspacePhase)
    → may_follow p q ≡ true
    → may_follow q r ≡ true
    → may_follow p r ≡ true
may_follow_trans p q r h g = ground arith

pub IsKept-trans : (u v w : PersistentWorkspace) → IsKept u v → IsKept v w → IsKept u w
IsKept-trans u v w h g = record {
  same_pod = cc;
  same_uid = cc;
  same_path = cc;
  follows = may_follow_trans u.status.phase v.status.phase w.status.phase h.follows g.follows;
}

pub IsKept-refl : (w : PersistentWorkspace) → IsKept w w
IsKept-refl w = record {
  same_pod = refl;
  same_uid = refl;
  same_path = refl;
  follows = ground arith;
}

module _ {Q : Type 0} (parts : WorkspaceParts) (world : WorkspaceWorld Q) where
  pub with_condition-IsKept :
      (now : ℕ) (u w : PersistentWorkspace) (type : String) (status : ConditionStatus)
      (reason message : String)
      → IsKept u w
      → IsKept u (with_condition parts now w type status reason message)
  unfolding with_condition
  with_condition-IsKept now u w type status reason message h = record {
    same_pod = h.same_pod;
    same_uid = h.same_uid;
    same_path = h.same_path;
    follows = h.follows;
  }

  pub with_phase-IsKept :
      (u w : PersistentWorkspace) (phase : PersistentWorkspacePhase)
      → IsKept u w
      → may_follow u.status.phase phase ≡ true
      → IsKept u (with_phase w phase)
  unfolding with_phase
  with_phase-IsKept u w phase h follows = record {
    same_pod = h.same_pod;
    same_uid = h.same_uid;
    same_path = h.same_path;
    follows = follows;
  }

  mark_workspace_lost-IsKept :
      (u w : PersistentWorkspace) (reason message : String)
      → IsKept u w
      → may_follow u.status.phase lost_workspace ≡ true
      → IsKept u (mark_workspace_lost parts world.now w reason message)
  unfolding mark_workspace_lost
  mark_workspace_lost-IsKept u w reason message h follows =
      with_condition-IsKept world.now u (with_phase w lost_workspace) _ _ reason message
        (with_phase-IsKept u w lost_workspace h follows)

  reconcile_bound_workspace-IsKept :
      (u w : PersistentWorkspace) (answer : Answer Pod)
      → IsKept u w
      → may_follow u.status.phase lost_workspace ≡ true
      → may_follow u.status.phase bound_workspace ≡ true
      → OnOk (IsKept u) (reconcile_bound_workspace parts world.now answer w)
  unfolding reconcile_bound_workspace
  reconcile_bound_workspace-IsKept u w not_found h lost bound =
      mark_workspace_lost-IsKept u w _ _ h lost
  reconcile_bound_workspace-IsKept u w unavailable h lost bound = tt
  reconcile_bound_workspace-IsKept u w (found pod) h lost bound =
      elim (Bool-cases (w.status.bound_pod_uid == "" || not (pod.uid == w.status.bound_pod_uid))) [
        | inl replaced ↦ rw replaced (mark_workspace_lost-IsKept u w _ _ h lost)
        | inr same ↦ rw same (elim (Bool-cases (is_some pod.deletion_timestamp)) [
          | inl leaving ↦ rw leaving (mark_workspace_lost-IsKept u w _ _ h lost)
          | inr staying ↦ rw staying (
              with_condition-IsKept world.now u (with_phase w bound_workspace) _ _ _ _
                (with_phase-IsKept u w bound_workspace h bound))
        ])
      ]

  set_workspace_usage-IsKept :
      (active : Bool) (u w : PersistentWorkspace)
      → IsKept u w
      → IsKept u (set_workspace_usage parts world.now active w)
  unfolding set_workspace_usage with_condition
  set_workspace_usage-IsKept active u w h = record {
    same_pod = ground (arith, h.same_pod);
    same_uid = ground (arith, h.same_uid);
    same_path = ground (arith, h.same_path);
    follows = ground (arith, h.follows);
  }

  reconcile_workspace_usage-IsKept :
      (u w : PersistentWorkspace) (runs : Answer (List (Run Q)))
      → IsKept u w
      → OnOk (IsKept u) (reconcile_workspace_usage parts world.now runs w)
  unfolding reconcile_workspace_usage workspace_has_active_runs
  reconcile_workspace_usage-IsKept u w (found runs) h = set_workspace_usage-IsKept _ u w h
  reconcile_workspace_usage-IsKept u w not_found h = tt
  reconcile_workspace_usage-IsKept u w unavailable h = tt

  observe_usage-IsKept :
      (u w : PersistentWorkspace) (phase : PersistentWorkspacePhase)
      → IsKept u w
      → OnOk (IsKept u) (observe_usage parts world phase w)
  unfolding observe_usage
  observe_usage-IsKept u w bound_workspace h = reconcile_workspace_usage-IsKept u w world.runs h
  observe_usage-IsKept u w unset_workspace h = h
  observe_usage-IsKept u w pending_workspace h = h
  observe_usage-IsKept u w lost_workspace h = h
  observe_usage-IsKept u w released_workspace h = h

  pub check_bound-IsKept :
      (u w : PersistentWorkspace)
      → IsKept u w
      → may_follow u.status.phase lost_workspace ≡ true
      → may_follow u.status.phase bound_workspace ≡ true
      → OnOk (IsKept u) (check_bound parts world w)
  unfolding check_bound
  check_bound-IsKept u w h lost bound =
      >>=-OnOk (IsKept u) (reconcile_bound_workspace parts world.now world.bound_pod w) _
        (reconcile_bound_workspace-IsKept u w world.bound_pod h lost bound)
        (λ new kept. observe_usage-IsKept u new new.status.phase kept)
