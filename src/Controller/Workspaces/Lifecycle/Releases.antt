-- ===== src/Controller/Workspaces/Lifecycle/Releases.antt =====
-- A workspace in use is released once its time to live is over.
use kruntimes.Base.{◌≡◌, refl, String, string_eq, ◌==◌, false, is_some, arith}
use kruntimes.Base.Results.{Result, ok}
use kruntimes.Base.Sort.{Member}
use kruntimes.Api.Workspace.{
  PersistentWorkspace, bound_workspace, released_workspace, workspace_cleanup_finalizer,
}
use kruntimes.Scheduler.Environment.{Answer, found, updated}
use kruntimes.Api.Workspace.{PersistentWorkspacePhase}
use kruntimes.Controller.Workspaces.Writes.{Member-and_then}
use kruntimes.Controller.Workspaces.{
  WorkspaceParts, WorkspaceWorld, WorkspaceError, wrote_status, WorkspaceOutcome, with_condition,
  with_phase, settled,
}
use kruntimes.Controller.Workspaces.Cleanup.{released_form, reconcile_persistent_workspace_cleanup}
use kruntimes.Controller.Workspaces.Lifecycle.{
  accept_workspace, update_persistent_workspace_status, check_bound, keep_bound, by_binding,
  by_phase, by_runtime, live_workspace, reconcile_workspace, reconcile_found_workspace,
}
use kruntimes.Controller.Workspaces.Lifecycle.InUse.{
  IsInUse, IsDue, IsSame, check_bound-IsSame, cleanup-releases,
}

module _ {Q : Type 0} (parts : WorkspaceParts) (world : WorkspaceWorld Q) where
  update-settled :
      (original w : PersistentWorkspace)
      → world.status_update ≡ updated
      → (update_persistent_workspace_status parts world original w).reply ≡ settled
  unfolding update_persistent_workspace_status
  update-settled original w accepted = ground arith

  keep_bound-releases :
      (w original v : PersistentWorkspace) (r : Result WorkspaceError PersistentWorkspace)
      → IsDue parts world w
      → (parts.add_finalizer workspace_cleanup_finalizer w.finalizers).1 ≡ false
      → world.status_update ≡ updated
      → r ≡ ok v
      → IsSame parts world w v
      → Member
          (wrote_status (released_form parts world v))
          (keep_bound parts world original r).writes
  unfolding keep_bound
  keep_bound-releases w original v r due holds accepted e h = rw e (
      Member-and_then (wrote_status (released_form parts world v))
        (update_persistent_workspace_status parts world original v)
        (reconcile_persistent_workspace_cleanup parts world v) (update-settled original v accepted)
        (cleanup-releases parts world w v due holds h))

  -- A status write that releases the workspace is among the writes.
  abbrev pub Releases : WorkspaceOutcome → Type 0
  Releases o =
      (v : PersistentWorkspace) × (v.status.phase ≡ released_workspace)
      × Member (wrote_status v) o.writes

  by_binding-Releases :
      (w original v : PersistentWorkspace)
      → IsInUse parts world w
      → IsDue parts world w
      → (parts.add_finalizer workspace_cleanup_finalizer w.finalizers).1 ≡ false
      → world.status_update ≡ updated
      → (w.status.bound_pod == "") ≡ false
      → IsSame parts world w v
      → Releases (by_binding parts world original v)
  unfolding by_binding released_form with_condition with_phase
  by_binding-Releases w original v u due holds accepted named h =
      let (checked, result, same) = check_bound-IsSame parts world w v u h in
      let has_pod : (v.status.bound_pod == "") ≡ false = rw h.same_pod named in
      (
        released_form parts world checked,
        refl,
        rw has_pod (
            keep_bound-releases w original checked (check_bound parts world v) due holds accepted
              result same),
      )

  by_phase-Releases :
      (w original v : PersistentWorkspace) (phase : PersistentWorkspacePhase)
      → phase ≡ bound_workspace
      → IsInUse parts world w
      → IsDue parts world w
      → (parts.add_finalizer workspace_cleanup_finalizer w.finalizers).1 ≡ false
      → world.status_update ≡ updated
      → (w.status.bound_pod == "") ≡ false
      → IsSame parts world w v
      → Releases (by_phase parts world phase original v)
  unfolding by_phase
  by_phase-Releases w original v phase e u due holds accepted named h =
      rw e (by_binding-Releases w original v u due holds accepted named h)

  by_runtime-Releases :
      (w original v : PersistentWorkspace) (answer : Answer String) (name : String)
      → answer ≡ found name
      → IsInUse parts world w
      → IsDue parts world w
      → (parts.add_finalizer workspace_cleanup_finalizer w.finalizers).1 ≡ false
      → world.status_update ≡ updated
      → (w.status.bound_pod == "") ≡ false
      → IsSame parts world w v
      → Releases (by_runtime parts world answer original v)
  unfolding by_runtime with_condition
  by_runtime-Releases w original v answer name e u due holds accepted named h = rw e (
      by_phase-Releases w original _ _ h.is_bound u due holds accepted named (record {
        same_spec = h.same_spec;
        same_finalizers = h.same_finalizers;
        same_pod = h.same_pod;
        same_uid = h.same_uid;
        same_use = h.same_use;
        is_bound = h.is_bound;
      }))

  accept_workspace-IsSame :
      (w : PersistentWorkspace)
      → w.status.phase ≡ bound_workspace
      → IsSame parts world w (accept_workspace parts world w)
  unfolding accept_workspace with_condition
  accept_workspace-IsSame w bound = record {
    same_spec = refl;
    same_finalizers = refl;
    same_pod = refl;
    same_uid = refl;
    same_use = refl;
    is_bound = ground arith;
  }

  found-Releases :
      (w : PersistentWorkspace) (answer : Answer PersistentWorkspace) (name : String)
      → answer ≡ found w
      → is_some w.deletion_timestamp ≡ false
      → world.runtime ≡ found name
      → IsInUse parts world w
      → IsDue parts world w
      → (parts.add_finalizer workspace_cleanup_finalizer w.finalizers).1 ≡ false
      → world.status_update ≡ updated
      → w.status.phase ≡ bound_workspace
      → (w.status.bound_pod == "") ≡ false
      → Releases (reconcile_found_workspace parts world answer)
  unfolding reconcile_found_workspace live_workspace
  found-Releases w answer name e staying runtime u due holds accepted bound named =
      rw (e, staying)
        (by_runtime-Releases w w (accept_workspace parts world w) world.runtime name runtime u due
          holds accepted named (accept_workspace-IsSame w bound))

  -- A workspace in use is released all the same. Where the workspace that is read is bound and not
  -- being deleted, holds the finalizer, its Runtime and its Pod are found, the Runs that reference it
  -- include one that is not over, the status update is accepted, and the time to live since the
  -- recorded last use is over: the Reconcile writes the phase Released.
  pub reconcile_workspace-Releases :
      (w : PersistentWorkspace) (name : String)
      → world.workspace ≡ found w
      → is_some w.deletion_timestamp ≡ false
      → world.runtime ≡ found name
      → IsInUse parts world w
      → IsDue parts world w
      → (parts.add_finalizer workspace_cleanup_finalizer w.finalizers).1 ≡ false
      → world.status_update ≡ updated
      → w.status.phase ≡ bound_workspace
      → (w.status.bound_pod == "") ≡ false
      → Releases (reconcile_workspace parts world)
  unfolding reconcile_workspace
  reconcile_workspace-Releases w name e staying runtime u due holds accepted bound named =
      found-Releases w world.workspace name e staying runtime u due holds accepted bound named
