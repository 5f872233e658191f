-- ===== src/Tests/Workspaces.antt =====
-- The theorems on the PersistentWorkspace controller at one workspace and one worker Pod.
use kruntimes.Base.{sym, ap, ◌++◌}
use kruntimes.Base.{
  ℕ, ◌^◌, ◌<◌, ◌≡◌, ◌≢◌, ◌⊎◌, inl, inr, refl, arith, String, string_eq, ◌==◌, Bool, true, false,
  List, [], ◌∷◌, none, some, length, any, not,
}
use kruntimes.Base.Int.{ℤ, pos, ltb_ℤ}
use kruntimes.Base.Sort.{Member}
use kruntimes.Api.Workspace.{
  PersistentWorkspace, bound_workspace, lost_workspace, unset_workspace, delete_after_ttl,
  workspace_cleanup_finalizer,
}
use kruntimes.Scheduler.Environment.{found, unavailable, updated}
use kruntimes.Controller.CompletedRuns.{deleted}
use kruntimes.Controller.Workspaces.{
  WorkspaceParts, WorkspaceWorld, WorkspaceOutcome, WorkspaceWrite, wrote_status, with_condition,
  answers, settled, gave_up, get_pod_failed,
}
use kruntimes.Controller.Workspaces.Binding.{ready_runtime_pods}
use kruntimes.Controller.Workspaces.Usage.{set_workspace_usage, run_terminal}
use kruntimes.Controller.Workspaces.Usage.Stability.{set_workspace_usage-again}
use kruntimes.Controller.Workspaces.Cleanup.{
  reconcile_deleting_workspace, release_deadline, remaining,
}
use kruntimes.Controller.Workspaces.Cleanup.Deletion.{
  reconcile_deleting_workspace-cases, IsPodLost, IsHeld, without_finalizer,
}
use kruntimes.Controller.Workspaces.Lifecycle.FirstBinding.{
  IsFirstBinding, reconcile_workspace-IsFirstBinding,
}
use kruntimes.Controller.Workspaces.Lifecycle.Deadlines.{IsTimely}
use kruntimes.Controller.Workspaces.Lifecycle.Timely.{reconcile_workspace-IsTimely}
use kruntimes.Controller.Workspaces.Lifecycle.Bindings.{IsKept}
use kruntimes.Controller.Workspaces.Lifecycle.History.{
  Evolves, starts, reconciles, after_writes, Evolves-IsKept,
}
use kruntimes.Controller.Workspaces.Lifecycle.InUse.{IsInUse, IsDue}
use kruntimes.Controller.Workspaces.Lifecycle.Releases.{Releases, reconcile_workspace-Releases}
use kruntimes.Api.Run.{Run}
use kruntimes.Controller.Workspaces.Lifecycle.{reconcile_workspace}
use kruntimes.Tests.Samples.{listed_conditions, listed_laws, worker, assigned_run}

abbrev parts : WorkspaceParts
parts = record {
  meta = listed_conditions;
  add_finalizer = λ name finalizers. (finalizers, false);
  remove_finalizer = λ name finalizers. ([], true);
  contains_finalizer = λ name finalizers. true;
  fnv32a = λ key. 7;
  same_status = λ old new. false;
}

abbrev new_workspace : PersistentWorkspace
new_workspace = record {
  name = "data";
  namespace = "default";
  uid = "workspace-uid";
  generation = 1;
  finalizers = workspace_cleanup_finalizer ∷ [];
  deletion_timestamp = none;
  spec = record {
    runtime = "bash";
    ttl_seconds_after_unused = some (pos 1);
    cleanup_policy = delete_after_ttl;
  };
  status = record {
    phase = unset_workspace;
    runtime = "";
    bound_pod = "";
    bound_pod_uid = "";
    path = "";
    last_used_time = none;
    conditions = [];
  };
}

abbrev used_workspace : PersistentWorkspace
used_workspace = record new_workspace {
  status = record (new_workspace.status) {
    phase = bound_workspace;
    bound_pod = "worker-0";
    bound_pod_uid = "uid-0";
    path = "/workspace/persistent/data";
    last_used_time = some 0;
  };
}

abbrev world_of : PersistentWorkspace → WorkspaceWorld ℤ
world_of w = record {
  workspace = found w;
  runtime = found "bash";
  bound_pod = found worker;
  pods = found (worker ∷ []);
  runs = found (assigned_run ∷ []);
  status_update = updated;
  object_update = updated;
  release_update = updated;
  delete_answer = deleted;
  now = 2000000000;
  later = 2000000001;
}

set_workspace_usage-again_example :
    set_workspace_usage parts 900 false (set_workspace_usage parts 500 false used_workspace)
    ≡ set_workspace_usage parts 500 false used_workspace
set_workspace_usage-again_example =
    set_workspace_usage-again parts listed_laws 500 900 false used_workspace

-- The status of the first write, and of the second.
abbrev first_status : List WorkspaceWrite → PersistentWorkspace
first_status (wrote_status w ∷ _) = w
first_status _ = new_workspace

abbrev second_status : List WorkspaceWrite → PersistentWorkspace
second_status (_ ∷ wrote_status w ∷ _) = w
second_status _ = new_workspace

abbrev writes_on : PersistentWorkspace → List WorkspaceWrite
writes_on w = (reconcile_workspace parts (world_of w)).writes

first_written :
    Member (wrote_status (first_status (writes_on new_workspace))) (writes_on new_workspace)
unfolding reconcile_workspace with_condition
    kruntimes.Controller.Workspaces.Lifecycle.accept_workspace
    kruntimes.Controller.Workspaces.Binding.bind_pending_workspace ready_runtime_pods
    kruntimes.Base.Sort.sort_by kruntimes.Base.select
    kruntimes.Controller.Workspaces.Binding.is_binding_candidate
    kruntimes.Controller.Workspaces.Binding.is_pod_ready kruntimes.RuntimePod.is_runtimed_ready
    kruntimes.Controller.Workspaces.Binding.select_persistent_workspace_pod
    kruntimes.Controller.Workspaces.Lifecycle.update_persistent_workspace_status
first_written = inl refl

few_ready : length (ready_runtime_pods (worker ∷ [])) < 2 ^ 32
unfolding ready_runtime_pods kruntimes.Base.Sort.sort_by kruntimes.Base.select
    kruntimes.Controller.Workspaces.Binding.is_binding_candidate
    kruntimes.Controller.Workspaces.Binding.is_pod_ready kruntimes.RuntimePod.is_runtimed_ready
few_ready = omega arith

reconcile_workspace-IsFirstBinding_example :
    IsFirstBinding (worker ∷ []) new_workspace (first_status (writes_on new_workspace))
reconcile_workspace-IsFirstBinding_example =
    reconcile_workspace-IsFirstBinding parts (world_of new_workspace) (worker ∷ []) new_workspace
      (first_status (writes_on new_workspace)) refl refl refl few_ready refl refl first_written

used_written :
    Member (wrote_status (second_status (writes_on used_workspace))) (writes_on used_workspace)
unfolding reconcile_workspace with_condition
    kruntimes.Controller.Workspaces.Lifecycle.accept_workspace
    kruntimes.Controller.Workspaces.Binding.reconcile_bound_workspace
    kruntimes.Controller.Workspaces.Lifecycle.update_persistent_workspace_status
    kruntimes.Controller.Workspaces.Usage.reconcile_workspace_usage
    kruntimes.Controller.Workspaces.Usage.workspace_has_active_runs
    kruntimes.Controller.Workspaces.Usage.run_terminal
    kruntimes.Controller.Workspaces.Cleanup.reconcile_persistent_workspace_cleanup
    kruntimes.Controller.Workspaces.Cleanup.release_when_due
    kruntimes.Controller.Workspaces.Cleanup.release_deadline
    kruntimes.Controller.Workspaces.with_phase set_workspace_usage kruntimes.Tests.Samples.find_in
    kruntimes.Tests.Samples.set_in kruntimes.Base.Int.◌+ℤ◌
used_written = inr (inl refl)

reconcile_workspace-IsTimely_example :
    IsTimely 2000000000 2000000001 used_workspace
      (wrote_status (second_status (writes_on used_workspace)))
reconcile_workspace-IsTimely_example =
    reconcile_workspace-IsTimely parts (world_of used_workspace) used_workspace
      (wrote_status (second_status (writes_on used_workspace))) refl used_written

append_nil : (l : List WorkspaceWrite) → l ++ [] ≡ l
append_nil [] = refl
append_nil (x ∷ l) = ap (λ t. x ∷ t) (append_nil l)

used_history :
    Evolves ℤ parts used_workspace (after_writes used_workspace (writes_on used_workspace))
used_history =
    reconciles (world_of used_workspace) (writes_on used_workspace) [] starts refl
      (sym (append_nil (writes_on used_workspace)))

Evolves-IsKept_example :
    IsKept used_workspace (after_writes used_workspace (writes_on used_workspace))
Evolves-IsKept_example = Evolves-IsKept refl used_history

run_active : any (λ (run : Run ℤ). not (run_terminal run)) (assigned_run ∷ []) ≡ true
unfolding run_terminal
run_active = refl

used_due : ltb_ℤ (pos 0) (remaining (release_deadline (pos 1) 0) 2000000001) ≡ false
unfolding release_deadline kruntimes.Base.Int.◌+ℤ◌
used_due = refl

used-IsInUse : IsInUse parts (world_of used_workspace) used_workspace
used-IsInUse = record {
  pod = worker;
  runs = assigned_run ∷ [];
  pod_found = refl;
  same_uid = refl;
  identified = refl;
  pod_stays = refl;
  runs_found = refl;
  active = run_active;
}

used-IsDue : IsDue parts (world_of used_workspace) used_workspace
used-IsDue = record {
  ttl = pos 1;
  last_used = 0;
  has_ttl = refl;
  was_used = refl;
  not_retained = refl;
  over = used_due;
}

reconcile_workspace-Releases_example :
    Releases parts (world_of used_workspace) (reconcile_workspace parts (world_of used_workspace))
reconcile_workspace-Releases_example =
    reconcile_workspace-Releases parts (world_of used_workspace) used_workspace "bash" refl refl
      refl used-IsInUse used-IsDue refl refl refl refl

reconcile_deleting_workspace-cases_example :
    (reconcile_deleting_workspace parts (world_of used_workspace) used_workspace
        ≡ without_finalizer parts (world_of used_workspace) used_workspace)
      × ((used_workspace.status.phase ≡ lost_workspace) ⊎ IsPodLost (found worker) used_workspace)
    ⊎ (reconcile_deleting_workspace parts (world_of used_workspace) used_workspace
        ≡ answers settled)
      × (used_workspace.status.phase ≢ lost_workspace)
      × IsHeld (found worker) used_workspace
    ⊎ (reconcile_deleting_workspace parts (world_of used_workspace) used_workspace
        ≡ answers (gave_up get_pod_failed))
      × (found worker ≡ unavailable)
reconcile_deleting_workspace-cases_example =
    reconcile_deleting_workspace-cases parts (world_of used_workspace) used_workspace refl
